-- ===== src/Settlement/Bonds.antt =====
-- Every instruction on the settlements of a job keeps in the accounts of disputes and escrows what
-- they must hold.
use taskforest_protocol.Prelude.{ℕ, ◌≡◌, some, arith}
use taskforest_protocol.State.{Job, status_submitted}
use taskforest_protocol.Chain.{Env, IsLawful, Runtime, World}
use taskforest_protocol.Chain.Keeps.{init_account-fresh, pay_out-SameData}
use taskforest_protocol.Chain.Floors.{init_account_floor, pay_out_floor}
use taskforest_protocol.Lifecycle.{job_at}
use taskforest_protocol.Escrow.{SignsFairly}
use taskforest_protocol.Bonds.{BondIsHeld, Holds}
use taskforest_protocol.Settlement.Cases.{settle_job_cases}
use taskforest_protocol.Settlement.{
  fail_job, pass_job, SettleJob, auto_settle, settle_job, claim_timeout, archive_settlement,
}

module _ (k : ℕ) (env : Env) (rt : Runtime) (law : IsLawful rt) where
  pub auto_settle-Holds :
      (job claimer : ℕ) (w : World)
      → BondIsHeld rt k w
      → SignsFairly rt env w
      → Holds rt k (auto_settle rt env job claimer w)
  unfolding auto_settle
  auto_settle-Holds job claimer w held fair = grind (arith, pay_out-SameData, pay_out_floor k)

  settled-Holds :
      (a : SettleJob) (job : Job) (w : World)
      → job_at w a.job ≡ some job
      → job.status ≡ status_submitted
      → BondIsHeld rt k w
      → SignsFairly rt env w
      → Holds rt k (pass_job rt a job w) × Holds rt k (fail_job rt a job w)
  unfolding pass_job fail_job
  settled-Holds a job w h e held fair = (
    grind (arith, pay_out-SameData, pay_out_floor k),
    grind (arith, pay_out-SameData, pay_out_floor k),
  )

  pub settle_job-Holds :
      (verdict : ℕ) (a : SettleJob) (w : World)
      → BondIsHeld rt k w
      → SignsFairly rt env w
      → Holds rt k (settle_job rt env verdict a w)
  settle_job-Holds verdict a w held fair =
      settle_job_cases env rt (BondIsHeld rt k) verdict a w
        λ job h e. settled-Holds a job w h e held fair

  pub claim_timeout-Holds :
      (job claimer : ℕ) (w : World)
      → BondIsHeld rt k w
      → SignsFairly rt env w
      → Holds rt k (claim_timeout rt env job claimer w)
  unfolding claim_timeout
  claim_timeout-Holds job claimer w held fair = grind (arith, pay_out-SameData, pay_out_floor k)

  pub archive_settlement-Holds :
      (reason payer job archive : ℕ) (w : World)
      → BondIsHeld rt k w
      → SignsFairly rt env w
      → Holds rt k (archive_settlement rt env reason payer job archive w)
  unfolding archive_settlement
  archive_settlement-Holds reason payer job archive w held fair =
      grind (arith, init_account-fresh, init_account_floor rt law k, fair.no_derived, fair.no_owned)
