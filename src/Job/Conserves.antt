-- ===== src/Job/Conserves.antt =====
-- No instruction on jobs outside bidding and settlement makes or loses lamports.
use taskforest_protocol.Prelude.{ℕ, ◌≡◌, arith, List, ℤ}
use taskforest_protocol.State.{Job}
use taskforest_protocol.Chain.{Env, IsLawful, Runtime, World, add_lamports, sub_lamports}
use taskforest_protocol.Chain.Ledger.{count}
use taskforest_protocol.Chain.Keeps.{
  Conserves, init_account-Conserves, pay_out-Conserves, system_transfer-Conserves, total-moved,
}
use taskforest_protocol.Job.{
  JobTerms, SubJobTerms, auto_assign_job, create_sub_job, expire_claim, expire_unclaimed,
  extend_deadline, handler_create_sub_job, initialize_job,
}

module _ (ks : List ℕ) (env : Env) where
  pub initialize_job-Conserves :
      (rt : Runtime)
      → IsLawful rt
      → (t : JobTerms) (job poster : ℕ) (w : World) → count poster ks ≡ 1
      → count job ks ≡ 1
      → Conserves ks w (initialize_job rt env t job poster w)
  unfolding initialize_job
  initialize_job-Conserves rt law t job poster w h0 h1 = grind (
    arith,
    init_account-Conserves ks poster job h0 h1 rt law,
    system_transfer-Conserves ks poster job h0 h1 rt law,
  )

  pub auto_assign_job-Conserves :
      (agent job poster : ℕ) (w : World) → Conserves ks w (auto_assign_job env agent job poster w)
  unfolding auto_assign_job
  auto_assign_job-Conserves agent job poster w = ground arith

  handler_create_sub_job-Conserves :
      (rt : Runtime) (t : SubJobTerms) (parent sub orchestrator : ℕ) (job : Job) (w : World)
      → count parent ks ≡ 1
      → count sub ks ≡ 1
      → Conserves ks w (handler_create_sub_job rt t parent sub orchestrator job w)
  unfolding handler_create_sub_job sub_lamports add_lamports
  handler_create_sub_job-Conserves rt t parent sub orchestrator job w hp hs =
      ground (arith, total-moved ks parent sub t.reward_lamports w.lamports hp hs)

  pub create_sub_job-Conserves :
      (rt : Runtime)
      → IsLawful rt
      → (t : SubJobTerms) (parent sub orchestrator : ℕ) (w : World) → count orchestrator ks ≡ 1
      → count sub ks ≡ 1
      → count parent ks ≡ 1
      → Conserves ks w (create_sub_job rt env t parent sub orchestrator w)
  unfolding create_sub_job
  create_sub_job-Conserves rt law t parent sub orchestrator w h0 h1 h2 = grind (
    arith,
    init_account-Conserves ks orchestrator sub h0 h1 rt law,
    handler_create_sub_job-Conserves rt t parent sub orchestrator,
  )

  pub expire_claim-Conserves :
      (rt : Runtime) (job payee : ℕ) (w : World)
      → count job ks ≡ 1
      → count payee ks ≡ 1
      → Conserves ks w (expire_claim rt env job payee w)
  unfolding expire_claim
  expire_claim-Conserves rt job payee w h0 h1 = grind (arith, pay_out-Conserves ks job payee h0 h1)

  pub expire_unclaimed-Conserves :
      (rt : Runtime) (job poster : ℕ) (w : World)
      → count job ks ≡ 1
      → count poster ks ≡ 1
      → Conserves ks w (expire_unclaimed rt env job poster w)
  unfolding expire_unclaimed
  expire_unclaimed-Conserves rt job poster w h0 h1 =
      grind (arith, pay_out-Conserves ks job poster h0 h1)

  pub extend_deadline-Conserves :
      (new_deadline : ℤ) (job poster : ℕ) (w : World)
      → Conserves ks w (extend_deadline env new_deadline job poster w)
  unfolding extend_deadline
  extend_deadline-Conserves new_deadline job poster w = ground arith
