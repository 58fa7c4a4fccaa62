-- ===== src/Job/Sound.antt =====
-- Every instruction on jobs outside bidding and settlement keeps all accounts sound.
use taskforest_protocol.Prelude.{ℕ, ◌≡◌, arith, ℤ}
use taskforest_protocol.State.{Job, taskforest_id}
use taskforest_protocol.Chain.{Env, Runtime, World, job_account, update, vacant}
use taskforest_protocol.Chain.Keeps.{
  sub_lamports-SameData, add_lamports-SameData, init_account-fresh, pay_out-SameData,
  system_transfer-SameData,
}
use taskforest_protocol.Accounts.{AccountIsSound, StaysSound}
use taskforest_protocol.Job.{
  job_seeds, handler_create_sub_job, JobTerms, SubJobTerms, initialize_job, auto_assign_job,
  create_sub_job, expire_claim, expire_unclaimed, extend_deadline,
}

module _ (k : ℕ) (env : Env) (rt : Runtime) where
  pub initialize_job-StaysSound :
      (t : JobTerms) (job poster : ℕ) (w : World)
      → AccountIsSound rt k w
      → StaysSound rt k (initialize_job rt env t job poster w)
  unfolding initialize_job
  initialize_job-StaysSound t job poster w sound =
      grind (arith, init_account-fresh, system_transfer-SameData)

  pub auto_assign_job-StaysSound :
      (agent job poster : ℕ) (w : World)
      → AccountIsSound rt k w
      → StaysSound rt k (auto_assign_job env agent job poster w)
  unfolding auto_assign_job
  auto_assign_job-StaysSound agent job poster w sound = ground arith

  -- The body of `create_sub_job`, on the world after the sub-job is created.
  handler_create_sub_job-StaysSound :
      (t : SubJobTerms) (parent sub orchestrator : ℕ) (job : Job) (w w₁ : World)
      → w.owner parent ≡ taskforest_id
      → w.content parent ≡ job_account job
      → w.content sub ≡ vacant
      → w₁.content ≡ w.content
      → w₁.owner ≡ update sub taskforest_id w.owner
      → sub ≡ rt.find_address (job_seeds job.poster t.sub_job_id) taskforest_id
      → AccountIsSound rt k w
      → StaysSound rt k (handler_create_sub_job rt t parent sub orchestrator job w₁)
  unfolding handler_create_sub_job
  handler_create_sub_job-StaysSound t parent sub orchestrator job w w₁ owned loaded unused c o
        address sound =
      grind (arith, sub_lamports-SameData, add_lamports-SameData)

  pub create_sub_job-StaysSound :
      (t : SubJobTerms) (parent sub orchestrator : ℕ) (w : World)
      → AccountIsSound rt k w
      → StaysSound rt k (create_sub_job rt env t parent sub orchestrator w)
  unfolding create_sub_job
  create_sub_job-StaysSound t parent sub orchestrator w sound =
      grind (arith, init_account-fresh, handler_create_sub_job-StaysSound t parent sub orchestrator)

  pub expire_claim-StaysSound :
      (job payee : ℕ) (w : World)
      → AccountIsSound rt k w
      → StaysSound rt k (expire_claim rt env job payee w)
  unfolding expire_claim
  expire_claim-StaysSound job payee w sound = grind (arith, pay_out-SameData)

  pub expire_unclaimed-StaysSound :
      (job poster : ℕ) (w : World)
      → AccountIsSound rt k w
      → StaysSound rt k (expire_unclaimed rt env job poster w)
  unfolding expire_unclaimed
  expire_unclaimed-StaysSound job poster w sound = grind (arith, pay_out-SameData)

  pub extend_deadline-StaysSound :
      (new_deadline : ℤ) (job poster : ℕ) (w : World)
      → AccountIsSound rt k w
      → StaysSound rt k (extend_deadline env new_deadline job poster w)
  unfolding extend_deadline
  extend_deadline-StaysSound new_deadline job poster w sound = ground arith
