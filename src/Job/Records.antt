-- ===== src/Job/Records.antt =====
-- Every instruction on jobs outside bidding and settlement changes the other accounts only as
-- Records allows.
use taskforest_protocol.Prelude.{ℕ, ◌≡◌, arith, ℤ}
use taskforest_protocol.State.{Job, taskforest_id}
use taskforest_protocol.Chain.{job_account, vacant, update, World, Runtime, Env}
use taskforest_protocol.Chain.Keeps.{
  sub_lamports-SameData, add_lamports-SameData, init_account-fresh, pay_out-SameData,
  system_transfer-SameData,
}
use taskforest_protocol.Records.{RecordsFollow}
use taskforest_protocol.Job.{
  handler_create_sub_job, JobTerms, SubJobTerms, initialize_job, auto_assign_job, create_sub_job,
  expire_claim, expire_unclaimed, extend_deadline,
}

module _ (k : ℕ) (env : Env) where
  pub initialize_job-RecordsFollow :
      (rt : Runtime) (t : JobTerms) (job poster : ℕ) (w : World)
      → RecordsFollow k w (initialize_job rt env t job poster w)
  unfolding initialize_job
  initialize_job-RecordsFollow rt t job poster w =
      grind (arith, init_account-fresh, system_transfer-SameData)

  pub auto_assign_job-RecordsFollow :
      (agent job poster : ℕ) (w : World)
      → RecordsFollow k w (auto_assign_job env agent job poster w)
  unfolding auto_assign_job
  auto_assign_job-RecordsFollow agent job poster w = ground arith

  handler_create_sub_job-RecordsFollow :
      (rt : Runtime) (t : SubJobTerms) (parent sub orchestrator : ℕ) (job : Job) (w w₁ : World)
      → w.owner parent ≡ taskforest_id
      → w.content parent ≡ job_account job
      → w.content sub ≡ vacant
      → w₁.content ≡ w.content
      → w₁.owner ≡ update sub taskforest_id w.owner
      → RecordsFollow k w (handler_create_sub_job rt t parent sub orchestrator job w₁)
  unfolding handler_create_sub_job
  handler_create_sub_job-RecordsFollow rt t parent sub orchestrator job w w₁ h h' v c o =
      grind (arith, sub_lamports-SameData, add_lamports-SameData)

  pub create_sub_job-RecordsFollow :
      (rt : Runtime) (t : SubJobTerms) (parent sub orchestrator : ℕ) (w : World)
      → RecordsFollow k w (create_sub_job rt env t parent sub orchestrator w)
  unfolding create_sub_job
  create_sub_job-RecordsFollow rt t parent sub orchestrator w =
      grind (
        arith,
        init_account-fresh,
        handler_create_sub_job-RecordsFollow rt t parent sub orchestrator,
      )

  pub expire_claim-RecordsFollow :
      (rt : Runtime) (job payee : ℕ) (w : World)
      → RecordsFollow k w (expire_claim rt env job payee w)
  unfolding expire_claim
  expire_claim-RecordsFollow rt job payee w = grind (arith, pay_out-SameData)

  pub expire_unclaimed-RecordsFollow :
      (rt : Runtime) (job poster : ℕ) (w : World)
      → RecordsFollow k w (expire_unclaimed rt env job poster w)
  unfolding expire_unclaimed
  expire_unclaimed-RecordsFollow rt job poster w = grind (arith, pay_out-SameData)

  pub extend_deadline-RecordsFollow :
      (new_deadline : ℤ) (job poster : ℕ) (w : World)
      → RecordsFollow k w (extend_deadline env new_deadline job poster w)
  unfolding extend_deadline
  extend_deadline-RecordsFollow new_deadline job poster w = ground arith
