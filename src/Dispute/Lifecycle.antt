-- ===== src/Dispute/Lifecycle.antt =====
-- Every instruction on disputes changes the job accounts only as Lifecycle allows.
use taskforest_protocol.Prelude.{ℕ, ◌≡◌, some, List, arith}
use taskforest_protocol.State.{Job, DisputeRecord, taskforest_id}
use taskforest_protocol.Chain.{vacant, as_dispute, update, World, Runtime, Env}
use taskforest_protocol.Chain.Keeps.{init_account-fresh, pay_out-SameData, system_transfer-SameData}
use taskforest_protocol.Lifecycle.{job_at, FollowsAt}
use taskforest_protocol.Dispute.{
  handler_open_dispute, agent_wins, challenger_wins, OpenDispute, ResolveDispute, open_dispute,
  resolve_dispute, cast_vote, tally_panel,
}

module _ (k : ℕ) (env : Env) where
  handler_open_dispute-FollowsAt :
      (rt : Runtime) (a : OpenDispute) (job : Job) (w w₁ : World)
      → w.content a.dispute ≡ vacant
      → w₁.content ≡ w.content
      → w₁.owner ≡ update a.dispute taskforest_id w.owner
      → FollowsAt k w (handler_open_dispute rt env a job w₁)
  unfolding handler_open_dispute
  handler_open_dispute-FollowsAt rt a job w w₁ v c o = grind (arith, system_transfer-SameData)

  pub open_dispute-FollowsAt :
      (rt : Runtime) (a : OpenDispute) (w : World) → FollowsAt k w (open_dispute rt env a w)
  unfolding open_dispute
  open_dispute-FollowsAt rt a w =
      grind (arith, init_account-fresh, handler_open_dispute-FollowsAt rt a)

  agent_wins-FollowsAt :
      (rt : Runtime) (a : ResolveDispute) (job : Job) (dispute : DisputeRecord) (w : World)
      → job_at w a.job ≡ some job
      → as_dispute (w.content a.dispute) ≡ some dispute
      → FollowsAt k w (agent_wins rt env a job dispute w)
  unfolding agent_wins
  agent_wins-FollowsAt rt a job dispute w hj hd = grind (arith, pay_out-SameData)

  challenger_wins-FollowsAt :
      (rt : Runtime) (a : ResolveDispute) (job : Job) (dispute : DisputeRecord) (w : World)
      → job_at w a.job ≡ some job
      → as_dispute (w.content a.dispute) ≡ some dispute
      → FollowsAt k w (challenger_wins rt env a job dispute w)
  unfolding challenger_wins
  challenger_wins-FollowsAt rt a job dispute w hj hd = grind (arith, pay_out-SameData)

  pub resolve_dispute-FollowsAt :
      (rt : Runtime) (verdict : ℕ) (a : ResolveDispute) (w : World)
      → FollowsAt k w (resolve_dispute rt env verdict a w)
  unfolding resolve_dispute
  resolve_dispute-FollowsAt rt verdict a w =
      grind (arith, agent_wins-FollowsAt, challenger_wins-FollowsAt)

  pub cast_vote-FollowsAt :
      (rt : Runtime) (verdict dispute vote verifier : ℕ) (w : World)
      → FollowsAt k w (cast_vote rt env verdict dispute vote verifier w)
  unfolding cast_vote
  cast_vote-FollowsAt rt verdict dispute vote verifier w = grind (arith, init_account-fresh)

  pub tally_panel-FollowsAt :
      (rt : Runtime) (remaining : List ℕ) (a : ResolveDispute) (w : World)
      → FollowsAt k w (tally_panel rt env remaining a w)
  unfolding tally_panel
  tally_panel-FollowsAt rt remaining a w =
      grind (arith, agent_wins-FollowsAt, challenger_wins-FollowsAt)
