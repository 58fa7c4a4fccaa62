-- ===== src/Dispute/Records.antt =====
-- Every instruction on disputes changes the other accounts only as Records allows.
use taskforest_protocol.Prelude.{ℕ, ◌≡◌, some, List, arith}
use taskforest_protocol.State.{Job, DisputeRecord, taskforest_id}
use taskforest_protocol.Chain.{vacant, as_dispute, update, World, Runtime, Env}
use taskforest_protocol.Chain.Keeps.{init_account-fresh, pay_out-SameData, system_transfer-SameData}
use taskforest_protocol.Lifecycle.{job_at}
use taskforest_protocol.Records.{RecordsFollow}
use taskforest_protocol.Dispute.{
  handler_open_dispute, agent_wins, challenger_wins, OpenDispute, ResolveDispute, open_dispute,
  resolve_dispute, cast_vote, tally_panel,
}

module _ (k : ℕ) (env : Env) where
  handler_open_dispute-RecordsFollow :
      (rt : Runtime) (a : OpenDispute) (job : Job) (w w₁ : World)
      → w.content a.dispute ≡ vacant
      → w₁.content ≡ w.content
      → w₁.owner ≡ update a.dispute taskforest_id w.owner
      → RecordsFollow k w (handler_open_dispute rt env a job w₁)
  unfolding handler_open_dispute
  handler_open_dispute-RecordsFollow rt a job w w₁ v c o = grind (arith, system_transfer-SameData)

  pub open_dispute-RecordsFollow :
      (rt : Runtime) (a : OpenDispute) (w : World) → RecordsFollow k w (open_dispute rt env a w)
  unfolding open_dispute
  open_dispute-RecordsFollow rt a w =
      grind (arith, init_account-fresh, handler_open_dispute-RecordsFollow rt a)

  agent_wins-RecordsFollow :
      (rt : Runtime) (a : ResolveDispute) (job : Job) (dispute : DisputeRecord) (w : World)
      → job_at w a.job ≡ some job
      → as_dispute (w.content a.dispute) ≡ some dispute
      → dispute.status ≡ 0
      → RecordsFollow k w (agent_wins rt env a job dispute w)
  unfolding agent_wins
  agent_wins-RecordsFollow rt a job dispute w hj hd open_ = grind (arith, pay_out-SameData)

  challenger_wins-RecordsFollow :
      (rt : Runtime) (a : ResolveDispute) (job : Job) (dispute : DisputeRecord) (w : World)
      → job_at w a.job ≡ some job
      → as_dispute (w.content a.dispute) ≡ some dispute
      → dispute.status ≡ 0
      → RecordsFollow k w (challenger_wins rt env a job dispute w)
  unfolding challenger_wins
  challenger_wins-RecordsFollow rt a job dispute w hj hd open_ = grind (arith, pay_out-SameData)

  pub resolve_dispute-RecordsFollow :
      (rt : Runtime) (verdict : ℕ) (a : ResolveDispute) (w : World)
      → RecordsFollow k w (resolve_dispute rt env verdict a w)
  unfolding resolve_dispute
  resolve_dispute-RecordsFollow rt verdict a w =
      grind (arith, agent_wins-RecordsFollow, challenger_wins-RecordsFollow)

  pub cast_vote-RecordsFollow :
      (rt : Runtime) (verdict dispute vote verifier : ℕ) (w : World)
      → RecordsFollow k w (cast_vote rt env verdict dispute vote verifier w)
  unfolding cast_vote
  cast_vote-RecordsFollow rt verdict dispute vote verifier w = grind (arith, init_account-fresh)

  pub tally_panel-RecordsFollow :
      (rt : Runtime) (remaining : List ℕ) (a : ResolveDispute) (w : World)
      → RecordsFollow k w (tally_panel rt env remaining a w)
  unfolding tally_panel
  tally_panel-RecordsFollow rt remaining a w =
      grind (arith, agent_wins-RecordsFollow, challenger_wins-RecordsFollow)
