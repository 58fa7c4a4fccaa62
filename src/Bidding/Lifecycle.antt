-- ===== src/Bidding/Lifecycle.antt =====
-- Every instruction on bids and stakes changes the job accounts only as Lifecycle allows.
use taskforest_protocol.Prelude.{ℕ, arith}
use taskforest_protocol.Chain.{World, Runtime, Env}
use taskforest_protocol.Chain.Keeps.{system_transfer-SameData}
use taskforest_protocol.Lifecycle.{FollowsAt}
use taskforest_protocol.Bidding.{bid, place_bid, close_bidding, lock_stake}

module _ (k : ℕ) (env : Env) where
  pub place_bid-FollowsAt :
      (stake job bidder : ℕ) (w : World) → FollowsAt k w (place_bid env stake job bidder w)
  unfolding place_bid bid
  place_bid-FollowsAt stake job bidder w = ground arith

  pub close_bidding-FollowsAt :
      (rt : Runtime) (payer job : ℕ) (w : World) → FollowsAt k w (close_bidding rt env payer job w)
  unfolding close_bidding
  close_bidding-FollowsAt rt payer job w = ground arith

  pub lock_stake-FollowsAt :
      (rt : Runtime) (job claimer : ℕ) (w : World) → FollowsAt k w (lock_stake rt env job claimer w)
  unfolding lock_stake
  lock_stake-FollowsAt rt job claimer w = grind (arith, system_transfer-SameData)
