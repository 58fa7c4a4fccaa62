-- ===== src/Bidding/Escrow.antt =====
-- Every instruction on bids and stakes keeps in the job accounts what they must hold.
use taskforest_protocol.Prelude.{ℕ, arith}
use taskforest_protocol.Chain.{Env, IsLawful, Runtime, World}
use taskforest_protocol.Chain.Keeps.{system_transfer-SameData}
use taskforest_protocol.Chain.Floors.{system_transfer_floor}
use taskforest_protocol.Escrow.{JobIsFunded, Funds, SignsFairly}
use taskforest_protocol.Bidding.{bid, place_bid, close_bidding, lock_stake}

module _ (k : ℕ) (env : Env) (rt : Runtime) (law : IsLawful rt) where
  pub place_bid-Funds :
      (stake job bidder : ℕ) (w : World)
      → JobIsFunded rt k w
      → SignsFairly rt env w
      → Funds rt k (place_bid env stake job bidder w)
  unfolding place_bid bid
  place_bid-Funds stake job bidder w funded fair = ground arith

  pub close_bidding-Funds :
      (payer job : ℕ) (w : World)
      → JobIsFunded rt k w
      → SignsFairly rt env w
      → Funds rt k (close_bidding rt env payer job w)
  unfolding close_bidding
  close_bidding-Funds payer job w funded fair = ground arith

  pub lock_stake-Funds :
      (job claimer : ℕ) (w : World)
      → JobIsFunded rt k w
      → SignsFairly rt env w
      → Funds rt k (lock_stake rt env job claimer w)
  unfolding lock_stake
  lock_stake-Funds job claimer w funded fair =
      grind (arith, system_transfer-SameData, system_transfer_floor rt law k)
