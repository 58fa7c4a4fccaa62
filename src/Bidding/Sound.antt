-- ===== src/Bidding/Sound.antt =====
-- Every instruction on bids and stakes keeps all accounts sound.
use taskforest_protocol.Prelude.{ℕ, ◌≡◌, arith}
use taskforest_protocol.Errors.{Ensures}
use taskforest_protocol.State.{Job}
use taskforest_protocol.Chain.{Env, Runtime, World}
use taskforest_protocol.Chain.Keeps.{system_transfer-SameData}
use taskforest_protocol.Accounts.{AccountIsSound, StaysSound}
use taskforest_protocol.Bidding.{bid, place_bid, close_bidding, lock_stake}

bid_keeps :
    (env : Env) (stake bidder : ℕ) (job : Job)
    → Ensures
        (λ j. (j.poster ≡ job.poster) × (j.job_id ≡ job.job_id) × (j.bump ≡ job.bump))
        (bid env stake bidder job)
unfolding bid
bid_keeps env stake bidder job = ground arith

module _ (k : ℕ) (env : Env) (rt : Runtime) where
  pub place_bid-StaysSound :
      (stake job bidder : ℕ) (w : World)
      → AccountIsSound rt k w
      → StaysSound rt k (place_bid env stake job bidder w)
  unfolding place_bid
  place_bid-StaysSound stake job bidder w sound = grind (arith, bid_keeps)

  pub close_bidding-StaysSound :
      (payer job : ℕ) (w : World)
      → AccountIsSound rt k w
      → StaysSound rt k (close_bidding rt env payer job w)
  unfolding close_bidding
  close_bidding-StaysSound payer job w sound = ground arith

  pub lock_stake-StaysSound :
      (job claimer : ℕ) (w : World)
      → AccountIsSound rt k w
      → StaysSound rt k (lock_stake rt env job claimer w)
  unfolding lock_stake
  lock_stake-StaysSound job claimer w sound = grind (arith, system_transfer-SameData)
