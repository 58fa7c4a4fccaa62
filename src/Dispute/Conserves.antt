-- ===== src/Dispute/Conserves.antt =====
-- No instruction on disputes makes or loses lamports.
use taskforest_protocol.Prelude.{ℕ, ◌≡◌, arith, List}
use taskforest_protocol.State.{DisputeRecord, Job}
use taskforest_protocol.Chain.{Env, IsLawful, Runtime, World}
use taskforest_protocol.Chain.Ledger.{count}
use taskforest_protocol.Chain.Keeps.{
  Conserves, init_account-Conserves, pay_out-Conserves, system_transfer-Conserves,
}
use taskforest_protocol.Dispute.{
  OpenDispute, ResolveDispute, agent_wins, cast_vote, challenger_wins, handler_open_dispute,
  open_dispute, resolve_dispute, tally_panel,
}

module _ (ks : List ℕ) (env : Env) where
  handler_open_dispute-Conserves :
      (rt : Runtime)
      → IsLawful rt
      → (a : OpenDispute) (job : Job) (w : World) → count a.challenger ks ≡ 1
      → count a.dispute ks ≡ 1
      → Conserves ks w (handler_open_dispute rt env a job w)
  unfolding handler_open_dispute
  handler_open_dispute-Conserves rt law a job w hc hd =
      grind (arith, system_transfer-Conserves ks a.challenger a.dispute hc hd rt law)

  pub open_dispute-Conserves :
      (rt : Runtime)
      → IsLawful rt
      → (a : OpenDispute) (w : World) → count a.challenger ks ≡ 1
      → count a.dispute ks ≡ 1
      → Conserves ks w (open_dispute rt env a w)
  unfolding open_dispute
  open_dispute-Conserves rt law a w h0 h1 = grind (
    arith,
    init_account-Conserves ks a.challenger a.dispute h0 h1 rt law,
    handler_open_dispute-Conserves rt law a,
  )

  resolved-Conserves :
      (rt : Runtime) (a : ResolveDispute) (job : Job) (dispute : DisputeRecord) (w : World)
      → count a.job ks ≡ 1
      → count a.dispute ks ≡ 1
      → count a.challenger_account ks ≡ 1
      → Conserves ks w (agent_wins rt env a job dispute w)
        × Conserves ks w (challenger_wins rt env a job dispute w)
  unfolding agent_wins challenger_wins
  resolved-Conserves rt a job dispute w hj hd hc = (
    grind (arith, pay_out-Conserves ks a.dispute a.job hd hj),
    grind (
      arith,
      pay_out-Conserves ks a.dispute a.challenger_account hd hc,
      pay_out-Conserves ks a.job a.challenger_account hj hc,
    ),
  )

  pub resolve_dispute-Conserves :
      (rt : Runtime) (verdict : ℕ) (a : ResolveDispute) (w : World)
      → count a.job ks ≡ 1
      → count a.dispute ks ≡ 1
      → count a.challenger_account ks ≡ 1
      → Conserves ks w (resolve_dispute rt env verdict a w)
  unfolding resolve_dispute
  resolve_dispute-Conserves rt verdict a w h0 h1 h2 = grind (arith, resolved-Conserves rt a)

  pub cast_vote-Conserves :
      (rt : Runtime)
      → IsLawful rt
      → (verdict dispute vote verifier : ℕ) (w : World) → count verifier ks ≡ 1
      → count vote ks ≡ 1
      → Conserves ks w (cast_vote rt env verdict dispute vote verifier w)
  unfolding cast_vote
  cast_vote-Conserves rt law verdict dispute vote verifier w h0 h1 =
      grind (arith, init_account-Conserves ks verifier vote h0 h1 rt law)

  pub tally_panel-Conserves :
      (rt : Runtime) (remaining : List ℕ) (a : ResolveDispute) (w : World)
      → count a.job ks ≡ 1
      → count a.dispute ks ≡ 1
      → count a.challenger_account ks ≡ 1
      → Conserves ks w (tally_panel rt env remaining a w)
  unfolding tally_panel
  tally_panel-Conserves rt remaining a w h0 h1 h2 = grind (arith, resolved-Conserves rt a)
