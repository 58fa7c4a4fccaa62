-- ===== src/Settlement/Conserves.antt =====
-- No instruction on the settlements of a job makes or loses lamports.
use taskforest_protocol.Prelude.{ℕ, ◌≡◌, arith, List}
use taskforest_protocol.State.{Job}
use taskforest_protocol.Chain.{Env, IsLawful, Runtime, World}
use taskforest_protocol.Chain.Ledger.{count}
use taskforest_protocol.Chain.Keeps.{Conserves, init_account-Conserves, pay_out-Conserves}
use taskforest_protocol.Settlement.{
  SettleJob, archive_settlement, auto_settle, claim_timeout, fail_job, pass_job, settle_job,
}

module _ (ks : List ℕ) (env : Env) where
  pub auto_settle-Conserves :
      (rt : Runtime) (job claimer : ℕ) (w : World)
      → count job ks ≡ 1
      → count claimer ks ≡ 1
      → Conserves ks w (auto_settle rt env job claimer w)
  unfolding auto_settle
  auto_settle-Conserves rt job claimer w h0 h1 =
      grind (arith, pay_out-Conserves ks job claimer h0 h1)

  settled-Conserves :
      (rt : Runtime) (a : SettleJob) (job : Job) (w : World)
      → count a.job ks ≡ 1
      → count a.poster_account ks ≡ 1
      → count a.claimer_account ks ≡ 1
      → Conserves ks w (pass_job rt a job w) × Conserves ks w (fail_job rt a job w)
  unfolding pass_job fail_job
  settled-Conserves rt a job w hj hp hc = (
    grind (arith, pay_out-Conserves ks a.job a.claimer_account hj hc),
    grind (arith, pay_out-Conserves ks a.job a.poster_account hj hp),
  )

  pub settle_job-Conserves :
      (rt : Runtime) (verdict : ℕ) (a : SettleJob) (w : World)
      → count a.job ks ≡ 1
      → count a.poster_account ks ≡ 1
      → count a.claimer_account ks ≡ 1
      → Conserves ks w (settle_job rt env verdict a w)
  unfolding settle_job
  settle_job-Conserves rt verdict a w h0 h1 h2 = grind (arith, settled-Conserves rt a)

  pub claim_timeout-Conserves :
      (rt : Runtime) (job claimer : ℕ) (w : World)
      → count job ks ≡ 1
      → count claimer ks ≡ 1
      → Conserves ks w (claim_timeout rt env job claimer w)
  unfolding claim_timeout
  claim_timeout-Conserves rt job claimer w h0 h1 =
      grind (arith, pay_out-Conserves ks job claimer h0 h1)

  pub archive_settlement-Conserves :
      (rt : Runtime)
      → IsLawful rt
      → (reason payer job archive : ℕ) (w : World) → count payer ks ≡ 1
      → count archive ks ≡ 1
      → Conserves ks w (archive_settlement rt env reason payer job archive w)
  unfolding archive_settlement
  archive_settlement-Conserves rt law reason payer job archive w h0 h1 =
      grind (arith, init_account-Conserves ks payer archive h0 h1 rt law)
