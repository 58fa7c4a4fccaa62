-- ===== src/Settlement/Escrow.antt =====
-- Every instruction on the settlements of a job keeps in the job accounts what they must hold.
use taskforest_protocol.Prelude.{ℕ, ◌≡◌, some, arith}
use taskforest_protocol.State.{Job, status_submitted}
use taskforest_protocol.Chain.{Env, IsLawful, Runtime, World}
use taskforest_protocol.Chain.Keeps.{init_account-fresh, pay_out-SameData}
use taskforest_protocol.Chain.Floors.{init_account_floor, pay_out_floor}
use taskforest_protocol.Lifecycle.{job_at}
use taskforest_protocol.Escrow.{JobIsFunded, Funds, SignsFairly}
use taskforest_protocol.Settlement.Cases.{settle_job_cases}
use taskforest_protocol.Settlement.{
  fail_job, pass_job, SettleJob, auto_settle, settle_job, claim_timeout, archive_settlement,
}

module _ (k : ℕ) (env : Env) (rt : Runtime) (law : IsLawful rt) where
  pub auto_settle-Funds :
      (job claimer : ℕ) (w : World)
      → JobIsFunded rt k w
      → SignsFairly rt env w
      → Funds rt k (auto_settle rt env job claimer w)
  unfolding auto_settle
  auto_settle-Funds job claimer w funded fair = grind (arith, pay_out-SameData, pay_out_floor k)

  settled-Funds :
      (a : SettleJob) (job : Job) (w : World)
      → job_at w a.job ≡ some job
      → job.status ≡ status_submitted
      → JobIsFunded rt k w
      → SignsFairly rt env w
      → Funds rt k (pass_job rt a job w) × Funds rt k (fail_job rt a job w)
  unfolding pass_job fail_job
  settled-Funds a job w h e funded fair = (
    grind (arith, pay_out-SameData, pay_out_floor k),
    grind (arith, pay_out-SameData, pay_out_floor k),
  )

  pub settle_job-Funds :
      (verdict : ℕ) (a : SettleJob) (w : World)
      → JobIsFunded rt k w
      → SignsFairly rt env w
      → Funds rt k (settle_job rt env verdict a w)
  settle_job-Funds verdict a w funded fair =
      settle_job_cases env rt (JobIsFunded rt k) verdict a w
        λ job h e. settled-Funds a job w h e funded fair

  pub claim_timeout-Funds :
      (job claimer : ℕ) (w : World)
      → JobIsFunded rt k w
      → SignsFairly rt env w
      → Funds rt k (claim_timeout rt env job claimer w)
  unfolding claim_timeout
  claim_timeout-Funds job claimer w funded fair = grind (arith, pay_out-SameData, pay_out_floor k)

  pub archive_settlement-Funds :
      (reason payer job archive : ℕ) (w : World)
      → JobIsFunded rt k w
      → SignsFairly rt env w
      → Funds rt k (archive_settlement rt env reason payer job archive w)
  unfolding archive_settlement
  archive_settlement-Funds reason payer job archive w funded fair =
      grind (arith, init_account-fresh, init_account_floor rt law k, fair.no_derived, fair.no_owned)
