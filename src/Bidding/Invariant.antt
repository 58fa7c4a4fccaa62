-- ===== src/Bidding/Invariant.antt =====
-- Every instruction on bids and stakes keeps the job accounts valid.
use taskforest_protocol.Prelude.{ℕ, arith}
use taskforest_protocol.Chain.{World, Runtime, Env}
use taskforest_protocol.Chain.Keeps.{system_transfer-SameData}
use taskforest_protocol.Lifecycle.{job_at}
use taskforest_protocol.Invariant.{ValidAt, Validates}
use taskforest_protocol.Bidding.{bid, place_bid, close_bidding, lock_stake}

module _ (k : ℕ) (env : Env) where
  pub place_bid-Validates :
      (stake job bidder : ℕ) (w : World)
      → ValidAt (job_at w k)
      → Validates k (place_bid env stake job bidder w)
  unfolding place_bid bid
  place_bid-Validates stake job bidder w valid = ground arith

  pub close_bidding-Validates :
      (rt : Runtime) (payer job : ℕ) (w : World)
      → ValidAt (job_at w k)
      → Validates k (close_bidding rt env payer job w)
  unfolding close_bidding
  close_bidding-Validates rt payer job w valid = ground arith

  pub lock_stake-Validates :
      (rt : Runtime) (job claimer : ℕ) (w : World)
      → ValidAt (job_at w k)
      → Validates k (lock_stake rt env job claimer w)
  unfolding lock_stake
  lock_stake-Validates rt job claimer w valid = grind (arith, system_transfer-SameData)
