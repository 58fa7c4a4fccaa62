-- ===== src/Settlement/Records.antt =====
-- Every instruction on the settlements of a job changes the other accounts only as Records allows.
use taskforest_protocol.Prelude.{ℕ, ◌≡◌, some, arith}
use taskforest_protocol.State.{Job, status_submitted}
use taskforest_protocol.Chain.{World, Runtime, Env}
use taskforest_protocol.Chain.Keeps.{init_account-fresh, pay_out-SameData}
use taskforest_protocol.Lifecycle.{job_at}
use taskforest_protocol.Records.{record_of, RecordSteps, RecordsFollow}
use taskforest_protocol.Settlement.Cases.{settle_job_cases}
use taskforest_protocol.Settlement.{
  fail_job, pass_job, SettleJob, auto_settle, settle_job, claim_timeout, archive_settlement,
}

module _ (k : ℕ) (env : Env) where
  pub auto_settle-RecordsFollow :
      (rt : Runtime) (job claimer : ℕ) (w : World)
      → RecordsFollow k w (auto_settle rt env job claimer w)
  unfolding auto_settle
  auto_settle-RecordsFollow rt job claimer w = grind (arith, pay_out-SameData)

  settled-RecordsFollow :
      (rt : Runtime) (a : SettleJob) (job : Job) (w : World)
      → job_at w a.job ≡ some job
      → job.status ≡ status_submitted
      → RecordsFollow k w (pass_job rt a job w) × RecordsFollow k w (fail_job rt a job w)
  unfolding pass_job fail_job
  settled-RecordsFollow rt a job w h e =
      (grind (arith, pay_out-SameData), grind (arith, pay_out-SameData))

  pub settle_job-RecordsFollow :
      (rt : Runtime) (verdict : ℕ) (a : SettleJob) (w : World)
      → RecordsFollow k w (settle_job rt env verdict a w)
  settle_job-RecordsFollow rt verdict a w =
      settle_job_cases env rt (λ w'. RecordSteps (record_of w k) (record_of w' k)) verdict a w
        λ job h e. settled-RecordsFollow rt a job w h e

  pub claim_timeout-RecordsFollow :
      (rt : Runtime) (job claimer : ℕ) (w : World)
      → RecordsFollow k w (claim_timeout rt env job claimer w)
  unfolding claim_timeout
  claim_timeout-RecordsFollow rt job claimer w = grind (arith, pay_out-SameData)

  pub archive_settlement-RecordsFollow :
      (rt : Runtime) (reason payer job archive : ℕ) (w : World)
      → RecordsFollow k w (archive_settlement rt env reason payer job archive w)
  unfolding archive_settlement
  archive_settlement-RecordsFollow rt reason payer job archive w = grind (arith, init_account-fresh)
