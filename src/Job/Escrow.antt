-- ===== src/Job/Escrow.antt =====
-- Every instruction on jobs outside bidding and settlement keeps in the job accounts what they must
-- hold.
use taskforest_protocol.Prelude.{inl, inr, ℕ-cases, ◌≤◌, ◌≢◌, true, ℕ, ◌≡◌, arith, ℤ}
use taskforest_protocol.State.{Job, job_size, taskforest_id}
use taskforest_protocol.Chain.{Env, IsLawful, Runtime, World, job_account, update, vacant}
use taskforest_protocol.Chain.Keeps.{
  sub_lamports-SameData, add_lamports-SameData, init_account-fresh, pay_out-SameData,
  system_transfer-SameData,
}
use taskforest_protocol.Chain.Floors.{
  sub_lamports_floor, add_lamports_floor, init_account_floor, pay_out_floor, system_transfer_floor,
}
use taskforest_protocol.Escrow.{JobIsFunded, Funds, SignsFairly}
use taskforest_protocol.Job.{
  handler_create_sub_job, JobTerms, SubJobTerms, initialize_job, auto_assign_job, create_sub_job,
  expire_claim, expire_unclaimed, extend_deadline,
}

module _ (k : ℕ) (env : Env) (rt : Runtime) (law : IsLawful rt) where
  pub initialize_job-Funds :
      (t : JobTerms) (job poster : ℕ) (w : World)
      → JobIsFunded rt k w
      → SignsFairly rt env w
      → Funds rt k (initialize_job rt env t job poster w)
  unfolding initialize_job
  initialize_job-Funds t job poster w funded fair = grind (
    arith,
    init_account-fresh,
    init_account_floor rt law k,
    fair.no_derived,
    fair.no_owned,
    system_transfer-SameData,
    system_transfer_floor rt law k,
  )

  pub auto_assign_job-Funds :
      (agent job poster : ℕ) (w : World)
      → JobIsFunded rt k w
      → SignsFairly rt env w
      → Funds rt k (auto_assign_job env agent job poster w)
  unfolding auto_assign_job
  auto_assign_job-Funds agent job poster w funded fair = ground arith

  -- The body of `create_sub_job`, on the world after the sub-job is created.
  module _ (t : SubJobTerms) (parent sub orchestrator : ℕ) (job : Job) (w w₁ : World)
      (owned : w.owner parent ≡ taskforest_id) (loaded : w.content parent ≡ job_account job)
      (unused : w.content sub ≡ vacant) (same_content : w₁.content ≡ w.content)
      (created : w₁.owner ≡ update sub taskforest_id w.owner)
      (grows : k ≢ orchestrator → w.lamports k ≤ w₁.lamports k)
      (rent : rt.minimum_balance job_size ≤ w₁.lamports sub)
      (signs : env.signed orchestrator ≡ true) (funded : JobIsFunded rt k w)
      (fair : SignsFairly rt env w) where
    handler_create_sub_job-Funds_parent :
        k ≡ parent → Funds rt k (handler_create_sub_job rt t parent sub orchestrator job w₁)
    unfolding handler_create_sub_job
    handler_create_sub_job-Funds_parent e = grind (
      arith,
      fair.no_owned,
      sub_lamports-SameData,
      sub_lamports_floor k,
      add_lamports-SameData,
      add_lamports_floor k,
    )

    handler_create_sub_job-Funds_sub :
        k ≡ sub → Funds rt k (handler_create_sub_job rt t parent sub orchestrator job w₁)
    unfolding handler_create_sub_job
    handler_create_sub_job-Funds_sub e = grind (
      arith,
      fair.no_owned,
      sub_lamports-SameData,
      sub_lamports_floor k,
      add_lamports-SameData,
      add_lamports_floor k,
    )

    handler_create_sub_job-Funds_other :
        k ≢ parent
        → k ≢ sub
        → Funds rt k (handler_create_sub_job rt t parent sub orchestrator job w₁)
    unfolding handler_create_sub_job
    handler_create_sub_job-Funds_other np ns = grind (
      arith,
      fair.no_owned,
      sub_lamports-SameData,
      sub_lamports_floor k,
      add_lamports-SameData,
      add_lamports_floor k,
    )

    handler_create_sub_job-Funds :
        Funds rt k (handler_create_sub_job rt t parent sub orchestrator job w₁)
    handler_create_sub_job-Funds = elim (ℕ-cases k parent) [
      | inl e ↦ handler_create_sub_job-Funds_parent e
      | inr np ↦ elim (ℕ-cases k sub) [
        | inl e ↦ handler_create_sub_job-Funds_sub e
        | inr ns ↦ handler_create_sub_job-Funds_other np ns
      ]
    ]

  pub create_sub_job-Funds :
      (t : SubJobTerms) (parent sub orchestrator : ℕ) (w : World)
      → JobIsFunded rt k w
      → SignsFairly rt env w
      → Funds rt k (create_sub_job rt env t parent sub orchestrator w)
  unfolding create_sub_job
  create_sub_job-Funds t parent sub orchestrator w funded fair = grind (
    arith,
    init_account-fresh,
    init_account_floor rt law k,
    fair.no_derived,
    fair.no_owned,
    handler_create_sub_job-Funds t parent sub orchestrator,
  )

  pub expire_claim-Funds :
      (job payee : ℕ) (w : World)
      → JobIsFunded rt k w
      → SignsFairly rt env w
      → Funds rt k (expire_claim rt env job payee w)
  unfolding expire_claim
  expire_claim-Funds job payee w funded fair = grind (arith, pay_out-SameData, pay_out_floor k)

  pub expire_unclaimed-Funds :
      (job poster : ℕ) (w : World)
      → JobIsFunded rt k w
      → SignsFairly rt env w
      → Funds rt k (expire_unclaimed rt env job poster w)
  unfolding expire_unclaimed
  expire_unclaimed-Funds job poster w funded fair = grind (arith, pay_out-SameData, pay_out_floor k)

  pub extend_deadline-Funds :
      (new_deadline : ℤ) (job poster : ℕ) (w : World)
      → JobIsFunded rt k w
      → SignsFairly rt env w
      → Funds rt k (extend_deadline env new_deadline job poster w)
  unfolding extend_deadline
  extend_deadline-Funds new_deadline job poster w funded fair = ground arith
