-- ===== src/Bidding/Bonds.antt =====
-- Every instruction on bids and stakes keeps in the accounts of disputes and escrows what they must
-- hold.
use taskforest_protocol.Prelude.{ℕ, arith}
use taskforest_protocol.Chain.{Env, IsLawful, Runtime, World}
use taskforest_protocol.Chain.Keeps.{system_transfer-SameData}
use taskforest_protocol.Chain.Floors.{system_transfer_floor}
use taskforest_protocol.Escrow.{SignsFairly}
use taskforest_protocol.Bonds.{BondIsHeld, Holds}
use taskforest_protocol.Bidding.{place_bid, close_bidding, lock_stake}

module _ (k : ℕ) (env : Env) (rt : Runtime) (law : IsLawful rt) where
  pub place_bid-Holds :
      (stake job bidder : ℕ) (w : World)
      → BondIsHeld rt k w
      → SignsFairly rt env w
      → Holds rt k (place_bid env stake job bidder w)
  unfolding place_bid
  place_bid-Holds stake job bidder w held fair = ground arith

  pub close_bidding-Holds :
      (payer job : ℕ) (w : World)
      → BondIsHeld rt k w
      → SignsFairly rt env w
      → Holds rt k (close_bidding rt env payer job w)
  unfolding close_bidding
  close_bidding-Holds payer job w held fair = ground arith

  pub lock_stake-Holds :
      (job claimer : ℕ) (w : World)
      → BondIsHeld rt k w
      → SignsFairly rt env w
      → Holds rt k (lock_stake rt env job claimer w)
  unfolding lock_stake
  lock_stake-Holds job claimer w held fair =
      grind (arith, system_transfer-SameData, system_transfer_floor rt law k)
