-- ===== src/Settlement/Invariant.antt =====
-- Every instruction on the settlements of a job keeps the job accounts valid.
use taskforest_protocol.Prelude.{ℕ, ◌≡◌, some, arith}
use taskforest_protocol.State.{Job, status_submitted}
use taskforest_protocol.Chain.{World, Runtime, Env}
use taskforest_protocol.Chain.Keeps.{init_account-fresh, pay_out-SameData}
use taskforest_protocol.Lifecycle.{job_at}
use taskforest_protocol.Invariant.{ValidAt, Validates}
use taskforest_protocol.Settlement.Cases.{settle_job_cases}
use taskforest_protocol.Settlement.{
  fail_job, pass_job, SettleJob, auto_settle, settle_job, claim_timeout, archive_settlement,
}

module _ (k : ℕ) (env : Env) where
  pub auto_settle-Validates :
      (rt : Runtime) (job claimer : ℕ) (w : World)
      → ValidAt (job_at w k)
      → Validates k (auto_settle rt env job claimer w)
  unfolding auto_settle
  auto_settle-Validates rt job claimer w valid = grind (arith, pay_out-SameData)

  settled-Validates :
      (rt : Runtime) (a : SettleJob) (job : Job) (w : World)
      → job_at w a.job ≡ some job
      → job.status ≡ status_submitted
      → ValidAt (job_at w k)
      → Validates k (pass_job rt a job w) × Validates k (fail_job rt a job w)
  unfolding pass_job fail_job
  settled-Validates rt a job w h e valid =
      (grind (arith, pay_out-SameData), grind (arith, pay_out-SameData))

  pub settle_job-Validates :
      (rt : Runtime) (verdict : ℕ) (a : SettleJob) (w : World)
      → ValidAt (job_at w k)
      → Validates k (settle_job rt env verdict a w)
  settle_job-Validates rt verdict a w valid =
      settle_job_cases env rt (λ w'. ValidAt (job_at w' k)) verdict a w
        λ job h e. settled-Validates rt a job w h e valid

  pub claim_timeout-Validates :
      (rt : Runtime) (job claimer : ℕ) (w : World)
      → ValidAt (job_at w k)
      → Validates k (claim_timeout rt env job claimer w)
  unfolding claim_timeout
  claim_timeout-Validates rt job claimer w valid = grind (arith, pay_out-SameData)

  pub archive_settlement-Validates :
      (rt : Runtime) (reason payer job archive : ℕ) (w : World)
      → ValidAt (job_at w k)
      → Validates k (archive_settlement rt env reason payer job archive w)
  unfolding archive_settlement
  archive_settlement-Validates rt reason payer job archive w valid =
      grind (arith, init_account-fresh)
