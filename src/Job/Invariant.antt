-- ===== src/Job/Invariant.antt =====
-- Every instruction on jobs outside bidding and settlement keeps the job accounts valid.
use taskforest_protocol.Prelude.{ℕ, ◌≡◌, arith, ℤ}
use taskforest_protocol.State.{Job, taskforest_id}
use taskforest_protocol.Chain.{job_account, vacant, update, World, Runtime, Env}
use taskforest_protocol.Chain.Keeps.{
  sub_lamports-SameData, add_lamports-SameData, init_account-fresh, pay_out-SameData,
  system_transfer-SameData,
}
use taskforest_protocol.Lifecycle.{job_at}
use taskforest_protocol.Invariant.{ValidAt, Validates}
use taskforest_protocol.Job.{
  handler_create_sub_job, JobTerms, SubJobTerms, initialize_job, auto_assign_job, create_sub_job,
  expire_claim, expire_unclaimed, extend_deadline,
}

module _ (k : ℕ) (env : Env) where
  pub initialize_job-Validates :
      (rt : Runtime) (t : JobTerms) (job poster : ℕ) (w : World)
      → ValidAt (job_at w k)
      → Validates k (initialize_job rt env t job poster w)
  unfolding initialize_job
  initialize_job-Validates rt t job poster w valid =
      grind (arith, init_account-fresh, system_transfer-SameData)

  pub auto_assign_job-Validates :
      (agent job poster : ℕ) (w : World)
      → ValidAt (job_at w k)
      → Validates k (auto_assign_job env agent job poster w)
  unfolding auto_assign_job
  auto_assign_job-Validates agent job poster w valid = ground arith

  handler_create_sub_job-Validates :
      (rt : Runtime) (t : SubJobTerms) (parent sub orchestrator : ℕ) (job : Job) (w w₁ : World)
      → w.owner parent ≡ taskforest_id
      → w.content parent ≡ job_account job
      → w.content sub ≡ vacant
      → w₁.content ≡ w.content
      → w₁.owner ≡ update sub taskforest_id w.owner
      → ValidAt (job_at w k)
      → ValidAt (job_at w parent)
      → Validates k (handler_create_sub_job rt t parent sub orchestrator job w₁)
  unfolding handler_create_sub_job
  handler_create_sub_job-Validates rt t parent sub orchestrator job w w₁ h h' v c o valid
        parent_valid =
      grind (arith, sub_lamports-SameData, add_lamports-SameData)

  pub create_sub_job-Validates :
      (rt : Runtime) (t : SubJobTerms) (parent sub orchestrator : ℕ) (w : World)
      → ValidAt (job_at w k)
      → ValidAt (job_at w parent)
      → Validates k (create_sub_job rt env t parent sub orchestrator w)
  unfolding create_sub_job
  create_sub_job-Validates rt t parent sub orchestrator w valid parent_valid =
      grind
        (arith, init_account-fresh, handler_create_sub_job-Validates rt t parent sub orchestrator)

  pub expire_claim-Validates :
      (rt : Runtime) (job payee : ℕ) (w : World)
      → ValidAt (job_at w k)
      → Validates k (expire_claim rt env job payee w)
  unfolding expire_claim
  expire_claim-Validates rt job payee w valid = grind (arith, pay_out-SameData)

  pub expire_unclaimed-Validates :
      (rt : Runtime) (job poster : ℕ) (w : World)
      → ValidAt (job_at w k)
      → Validates k (expire_unclaimed rt env job poster w)
  unfolding expire_unclaimed
  expire_unclaimed-Validates rt job poster w valid = grind (arith, pay_out-SameData)

  pub extend_deadline-Validates :
      (new_deadline : ℤ) (job poster : ℕ) (w : World)
      → ValidAt (job_at w k)
      → Validates k (extend_deadline env new_deadline job poster w)
  unfolding extend_deadline
  extend_deadline-Validates new_deadline job poster w valid = ground arith
