-- ===== src/Bidding.antt =====
-- programs/taskforest/src/instructions/bidding.rs: bids, the close of bidding and the stake.
pub mod Escrow
pub mod Invariant
pub mod Conserves
pub mod Auction
pub mod Closing
pub mod Lifecycle
pub mod Bonds
pub mod Sound
pub mod Records
use taskforest_protocol.Prelude.{ℕ, ◌/◌, Bool, ◌||◌, ltb, leb, leb_ℤ, ◌==◌, if◌then◌else◌}
use taskforest_protocol.Errors.{
  Result, ok, err, ◌>>=◌, ◌>>◌, require, task_forest, call_failed, wrong_status, invalid_stake,
  insufficient_stake, invalid_claimer, deadline_passed, tee_not_verified,
}
use taskforest_protocol.Words.{checked_sum, u32_max}
use taskforest_protocol.State.{
  Job, taskforest_id, status_open, status_bidding, status_claimed, status_staked,
}
use taskforest_protocol.Chain.{
  World, Runtime, Env, job_account, as_job, signer, load, store, system_transfer,
}

-- What `place_bid` does to the job: the guards, the count, and the best bid so far.
unfoldable pub bid : Env → ℕ → ℕ → Job → Result Job
bid env stake_lamports bidder job = do
  require (ltb 0 stake_lamports) (task_forest invalid_stake)
  require (job.status == status_open || job.status == status_bidding) (task_forest wrong_status)
  let opened = if job.status == status_open then record job { status = status_bidding } else job
  require (leb (opened.reward_lamports / 10) stake_lamports) (task_forest insufficient_stake)
  require (leb_ℤ env.now opened.deadline) (task_forest deadline_passed)
  bid_count ← checked_sum u32_max opened.bid_count 1
  let counted = record opened { bid_count = bid_count }
  ok (
      if ltb counted.best_bid_stake stake_lamports
      then record counted { best_bid_stake = stake_lamports; best_bidder = bidder }
      else counted)

unfoldable pub place_bid : Env → ℕ → ℕ → ℕ → World → Result World
place_bid env stake_lamports job_key bidder w = do
  job ← load as_job taskforest_id job_key w
  signer env bidder
  job' ← bid env stake_lamports bidder job
  ok (store job_key (job_account job') w)

unfoldable pub close_bidding : Runtime → Env → ℕ → ℕ → World → Result World
close_bidding rt env payer job_key w = do
  signer env payer
  job ← load as_job taskforest_id job_key w
  require (job.status == status_bidding) (task_forest wrong_status)
  require (ltb 0 job.bid_count) (task_forest wrong_status)
  require job.tee_verified (task_forest tee_not_verified)
  require (rt.commit_and_undelegate payer job_key) call_failed
  ok (
      store job_key
        (job_account (record job {
          claimer = job.best_bidder;
          claimer_stake = job.best_bid_stake;
          status = status_claimed;
        }))
        w)

unfoldable pub lock_stake : Runtime → Env → ℕ → ℕ → World → Result World
lock_stake rt env job_key claimer w = do
  job ← load as_job taskforest_id job_key w
  signer env claimer
  require (job.status == status_claimed) (task_forest wrong_status)
  require (job.claimer == claimer) (task_forest invalid_claimer)
  require (ltb 0 job.claimer_stake) (task_forest invalid_stake)
  w₁ ← system_transfer rt claimer job_key job.claimer_stake w
  ok (store job_key (job_account (record job { status = status_staked })) w₁)
