-- ===== src/Dispute/Invariant.antt =====
-- Every instruction on disputes keeps the job accounts valid.
use taskforest_protocol.Prelude.{ℕ, ◌≡◌, some, List, arith}
use taskforest_protocol.State.{Job, DisputeRecord, taskforest_id}
use taskforest_protocol.Chain.{vacant, as_dispute, update, World, Runtime, Env}
use taskforest_protocol.Chain.Keeps.{init_account-fresh, pay_out-SameData, system_transfer-SameData}
use taskforest_protocol.Lifecycle.{job_at}
use taskforest_protocol.Invariant.{ValidAt, Validates}
use taskforest_protocol.Dispute.{
  handler_open_dispute, agent_wins, challenger_wins, OpenDispute, ResolveDispute, open_dispute,
  resolve_dispute, cast_vote, tally_panel,
}

module _ (k : ℕ) (env : Env) where
  handler_open_dispute-Validates :
      (rt : Runtime) (a : OpenDispute) (job : Job) (w w₁ : World)
      → w.content a.dispute ≡ vacant
      → w₁.content ≡ w.content
      → w₁.owner ≡ update a.dispute taskforest_id w.owner
      → ValidAt (job_at w k)
      → Validates k (handler_open_dispute rt env a job w₁)
  unfolding handler_open_dispute
  handler_open_dispute-Validates rt a job w w₁ v c o valid = grind (arith, system_transfer-SameData)

  pub open_dispute-Validates :
      (rt : Runtime) (a : OpenDispute) (w : World)
      → ValidAt (job_at w k)
      → Validates k (open_dispute rt env a w)
  unfolding open_dispute
  open_dispute-Validates rt a w valid =
      grind (arith, init_account-fresh, handler_open_dispute-Validates rt a)

  agent_wins-Validates :
      (rt : Runtime) (a : ResolveDispute) (job : Job) (dispute : DisputeRecord) (w : World)
      → job_at w a.job ≡ some job
      → as_dispute (w.content a.dispute) ≡ some dispute
      → ValidAt (job_at w k)
      → Validates k (agent_wins rt env a job dispute w)
  unfolding agent_wins
  agent_wins-Validates rt a job dispute w hj hd valid = grind (arith, pay_out-SameData)

  challenger_wins-Validates :
      (rt : Runtime) (a : ResolveDispute) (job : Job) (dispute : DisputeRecord) (w : World)
      → job_at w a.job ≡ some job
      → as_dispute (w.content a.dispute) ≡ some dispute
      → ValidAt (job_at w k)
      → Validates k (challenger_wins rt env a job dispute w)
  unfolding challenger_wins
  challenger_wins-Validates rt a job dispute w hj hd valid = grind (arith, pay_out-SameData)

  pub resolve_dispute-Validates :
      (rt : Runtime) (verdict : ℕ) (a : ResolveDispute) (w : World)
      → ValidAt (job_at w k)
      → Validates k (resolve_dispute rt env verdict a w)
  unfolding resolve_dispute
  resolve_dispute-Validates rt verdict a w valid =
      grind (arith, agent_wins-Validates, challenger_wins-Validates)

  pub cast_vote-Validates :
      (rt : Runtime) (verdict dispute vote verifier : ℕ) (w : World)
      → ValidAt (job_at w k)
      → Validates k (cast_vote rt env verdict dispute vote verifier w)
  unfolding cast_vote
  cast_vote-Validates rt verdict dispute vote verifier w valid = grind (arith, init_account-fresh)

  pub tally_panel-Validates :
      (rt : Runtime) (remaining : List ℕ) (a : ResolveDispute) (w : World)
      → ValidAt (job_at w k)
      → Validates k (tally_panel rt env remaining a w)
  unfolding tally_panel
  tally_panel-Validates rt remaining a w valid =
      grind (arith, agent_wins-Validates, challenger_wins-Validates)
