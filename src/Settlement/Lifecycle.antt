-- ===== src/Settlement/Lifecycle.antt =====
-- Every instruction on the settlements of a job changes the job accounts only as Lifecycle allows.
use taskforest_protocol.Prelude.{ℕ, ◌≡◌, some, arith}
use taskforest_protocol.State.{Job, status_submitted}
use taskforest_protocol.Chain.{World, Runtime, Env}
use taskforest_protocol.Chain.Keeps.{init_account-fresh, pay_out-SameData}
use taskforest_protocol.Lifecycle.{job_at, FollowsAt}
use taskforest_protocol.Settlement.{
  fail_job, pass_job, SettleJob, auto_settle, settle_job, claim_timeout, archive_settlement,
}

module _ (k : ℕ) (env : Env) where
  pub auto_settle-FollowsAt :
      (rt : Runtime) (job claimer : ℕ) (w : World)
      → FollowsAt k w (auto_settle rt env job claimer w)
  unfolding auto_settle
  auto_settle-FollowsAt rt job claimer w = grind (arith, pay_out-SameData)

  settled-FollowsAt :
      (rt : Runtime) (a : SettleJob) (job : Job) (w : World)
      → job_at w a.job ≡ some job
      → job.status ≡ status_submitted
      → FollowsAt k w (pass_job rt a job w) × FollowsAt k w (fail_job rt a job w)
  unfolding pass_job fail_job
  settled-FollowsAt rt a job w h e =
      (grind (arith, pay_out-SameData), grind (arith, pay_out-SameData))

  pub settle_job-FollowsAt :
      (rt : Runtime) (verdict : ℕ) (a : SettleJob) (w : World)
      → FollowsAt k w (settle_job rt env verdict a w)
  unfolding settle_job
  settle_job-FollowsAt rt verdict a w = grind (arith, settled-FollowsAt rt a)

  pub claim_timeout-FollowsAt :
      (rt : Runtime) (job claimer : ℕ) (w : World)
      → FollowsAt k w (claim_timeout rt env job claimer w)
  unfolding claim_timeout
  claim_timeout-FollowsAt rt job claimer w = grind (arith, pay_out-SameData)

  pub archive_settlement-FollowsAt :
      (rt : Runtime) (reason payer job archive : ℕ) (w : World)
      → FollowsAt k w (archive_settlement rt env reason payer job archive w)
  unfolding archive_settlement
  archive_settlement-FollowsAt rt reason payer job archive w = grind (arith, init_account-fresh)
