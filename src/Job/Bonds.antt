-- ===== src/Job/Bonds.antt =====
-- Every instruction on jobs outside bidding and settlement keeps in the accounts of disputes and
-- escrows what they must hold.
use taskforest_protocol.Prelude.{◌≤◌, ◌≢◌, true, ℕ, ◌≡◌, arith, ℤ}
use taskforest_protocol.State.{Job, taskforest_id}
use taskforest_protocol.Chain.{Env, IsLawful, Runtime, World, job_account, update, vacant}
use taskforest_protocol.Chain.Keeps.{
  sub_lamports-SameData, add_lamports-SameData, init_account-fresh, pay_out-SameData,
  system_transfer-SameData,
}
use taskforest_protocol.Chain.Floors.{
  sub_lamports_floor, add_lamports_floor, init_account_floor, pay_out_floor, system_transfer_floor,
}
use taskforest_protocol.Escrow.{SignsFairly}
use taskforest_protocol.Bonds.{BondIsHeld, Holds}
use taskforest_protocol.Job.{
  handler_create_sub_job, JobTerms, SubJobTerms, initialize_job, auto_assign_job, create_sub_job,
  expire_claim, expire_unclaimed, extend_deadline,
}

module _ (k : ℕ) (env : Env) (rt : Runtime) (law : IsLawful rt) where
  pub initialize_job-Holds :
      (t : JobTerms) (job poster : ℕ) (w : World)
      → BondIsHeld rt k w
      → SignsFairly rt env w
      → Holds rt k (initialize_job rt env t job poster w)
  unfolding initialize_job
  initialize_job-Holds t job poster w held fair = grind (
    arith,
    init_account-fresh,
    init_account_floor rt law k,
    fair.no_derived,
    fair.no_owned,
    system_transfer-SameData,
    system_transfer_floor rt law k,
  )

  pub auto_assign_job-Holds :
      (agent job poster : ℕ) (w : World)
      → BondIsHeld rt k w
      → SignsFairly rt env w
      → Holds rt k (auto_assign_job env agent job poster w)
  unfolding auto_assign_job
  auto_assign_job-Holds agent job poster w held fair = ground arith

  -- The body of `create_sub_job`, on the world after the sub-job is created.
  handler_create_sub_job-Holds :
      (t : SubJobTerms) (parent sub orchestrator : ℕ) (job : Job) (w w₁ : World)
      → w.owner parent ≡ taskforest_id
      → w.content parent ≡ job_account job
      → w.content sub ≡ vacant
      → w₁.content ≡ w.content
      → w₁.owner ≡ update sub taskforest_id w.owner
      → (k ≢ orchestrator → w.lamports k ≤ w₁.lamports k)
      → env.signed orchestrator ≡ true
      → BondIsHeld rt k w
      → SignsFairly rt env w
      → Holds rt k (handler_create_sub_job rt t parent sub orchestrator job w₁)
  unfolding handler_create_sub_job
  handler_create_sub_job-Holds t parent sub orchestrator job w w₁ owned loaded unused c o grows
        signs held fair =
      grind (
        arith,
        fair.no_owned,
        sub_lamports-SameData,
        sub_lamports_floor k,
        add_lamports-SameData,
        add_lamports_floor k,
      )

  pub create_sub_job-Holds :
      (t : SubJobTerms) (parent sub orchestrator : ℕ) (w : World)
      → BondIsHeld rt k w
      → SignsFairly rt env w
      → Holds rt k (create_sub_job rt env t parent sub orchestrator w)
  unfolding create_sub_job
  create_sub_job-Holds t parent sub orchestrator w held fair = grind (
    arith,
    init_account-fresh,
    init_account_floor rt law k,
    fair.no_derived,
    fair.no_owned,
    handler_create_sub_job-Holds t parent sub orchestrator,
  )

  pub expire_claim-Holds :
      (job payee : ℕ) (w : World)
      → BondIsHeld rt k w
      → SignsFairly rt env w
      → Holds rt k (expire_claim rt env job payee w)
  unfolding expire_claim
  expire_claim-Holds job payee w held fair = grind (arith, pay_out-SameData, pay_out_floor k)

  pub expire_unclaimed-Holds :
      (job poster : ℕ) (w : World)
      → BondIsHeld rt k w
      → SignsFairly rt env w
      → Holds rt k (expire_unclaimed rt env job poster w)
  unfolding expire_unclaimed
  expire_unclaimed-Holds job poster w held fair = grind (arith, pay_out-SameData, pay_out_floor k)

  pub extend_deadline-Holds :
      (new_deadline : ℤ) (job poster : ℕ) (w : World)
      → BondIsHeld rt k w
      → SignsFairly rt env w
      → Holds rt k (extend_deadline env new_deadline job poster w)
  unfolding extend_deadline
  extend_deadline-Holds new_deadline job poster w held fair = ground arith
