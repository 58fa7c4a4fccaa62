-- ===== src/Bidding/Records.antt =====
-- Every instruction on bids and stakes changes the other accounts only as Records allows.
use taskforest_protocol.Prelude.{ℕ, arith}
use taskforest_protocol.Chain.{World, Runtime, Env}
use taskforest_protocol.Chain.Keeps.{system_transfer-SameData}
use taskforest_protocol.Records.{RecordsFollow}
use taskforest_protocol.Bidding.{place_bid, close_bidding, lock_stake}

module _ (k : ℕ) (env : Env) where
  pub place_bid-RecordsFollow :
      (stake job bidder : ℕ) (w : World) → RecordsFollow k w (place_bid env stake job bidder w)
  unfolding place_bid
  place_bid-RecordsFollow stake job bidder w = ground arith

  pub close_bidding-RecordsFollow :
      (rt : Runtime) (payer job : ℕ) (w : World)
      → RecordsFollow k w (close_bidding rt env payer job w)
  unfolding close_bidding
  close_bidding-RecordsFollow rt payer job w = ground arith

  pub lock_stake-RecordsFollow :
      (rt : Runtime) (job claimer : ℕ) (w : World)
      → RecordsFollow k w (lock_stake rt env job claimer w)
  unfolding lock_stake
  lock_stake-RecordsFollow rt job claimer w = grind (arith, system_transfer-SameData)
