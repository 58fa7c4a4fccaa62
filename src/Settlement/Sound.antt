-- ===== src/Settlement/Sound.antt =====
-- Every instruction on the settlements of a job keeps all accounts sound.
use taskforest_protocol.Prelude.{ℕ, ◌≡◌, some, arith}
use taskforest_protocol.State.{Job, status_submitted}
use taskforest_protocol.Chain.{Env, Runtime, World}
use taskforest_protocol.Chain.Keeps.{init_account-fresh, pay_out-SameData}
use taskforest_protocol.Lifecycle.{job_at}
use taskforest_protocol.Accounts.{AccountIsSound, StaysSound}
use taskforest_protocol.Settlement.Cases.{settle_job_cases}
use taskforest_protocol.Settlement.{
  fail_job, pass_job, SettleJob, auto_settle, settle_job, claim_timeout, archive_settlement,
}

module _ (k : ℕ) (env : Env) (rt : Runtime) where
  pub auto_settle-StaysSound :
      (job claimer : ℕ) (w : World)
      → AccountIsSound rt k w
      → StaysSound rt k (auto_settle rt env job claimer w)
  unfolding auto_settle
  auto_settle-StaysSound job claimer w sound = grind (arith, pay_out-SameData)

  settled-StaysSound :
      (a : SettleJob) (job : Job) (w : World)
      → job_at w a.job ≡ some job
      → job.status ≡ status_submitted
      → AccountIsSound rt k w
      → StaysSound rt k (pass_job rt a job w) × StaysSound rt k (fail_job rt a job w)
  unfolding pass_job fail_job
  settled-StaysSound a job w h e sound =
      (grind (arith, pay_out-SameData), grind (arith, pay_out-SameData))

  pub settle_job-StaysSound :
      (verdict : ℕ) (a : SettleJob) (w : World)
      → AccountIsSound rt k w
      → StaysSound rt k (settle_job rt env verdict a w)
  settle_job-StaysSound verdict a w sound =
      settle_job_cases env rt (AccountIsSound rt k) verdict a w
        λ job h e. settled-StaysSound a job w h e sound

  pub claim_timeout-StaysSound :
      (job claimer : ℕ) (w : World)
      → AccountIsSound rt k w
      → StaysSound rt k (claim_timeout rt env job claimer w)
  unfolding claim_timeout
  claim_timeout-StaysSound job claimer w sound = grind (arith, pay_out-SameData)

  pub archive_settlement-StaysSound :
      (reason payer job archive : ℕ) (w : World)
      → AccountIsSound rt k w
      → StaysSound rt k (archive_settlement rt env reason payer job archive w)
  unfolding archive_settlement
  archive_settlement-StaysSound reason payer job archive w sound = grind (arith, init_account-fresh)
