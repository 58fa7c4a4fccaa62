-- ===== src/Dispute/Sound.antt =====
-- Every instruction on disputes keeps all accounts sound.
use taskforest_protocol.Prelude.{ℕ, ◌≡◌, some, List, arith}
use taskforest_protocol.State.{Job, DisputeRecord, taskforest_id}
use taskforest_protocol.Chain.{Env, Runtime, World, as_dispute, update, vacant}
use taskforest_protocol.Chain.Keeps.{init_account-fresh, pay_out-SameData, system_transfer-SameData}
use taskforest_protocol.Lifecycle.{job_at}
use taskforest_protocol.Accounts.{AccountIsSound, StaysSound}
use taskforest_protocol.Dispute.{
  dispute_seeds, handler_open_dispute, agent_wins, challenger_wins, OpenDispute, ResolveDispute,
  open_dispute, resolve_dispute, cast_vote, tally_panel,
}

module _ (k : ℕ) (env : Env) (rt : Runtime) where
  handler_open_dispute-StaysSound :
      (a : OpenDispute) (job : Job) (w w₁ : World)
      → w.content a.dispute ≡ vacant
      → w₁.content ≡ w.content
      → w₁.owner ≡ update a.dispute taskforest_id w.owner
      → a.dispute ≡ rt.find_address (dispute_seeds a.job a.disputed_thread) taskforest_id
      → AccountIsSound rt k w
      → StaysSound rt k (handler_open_dispute rt env a job w₁)
  unfolding handler_open_dispute
  handler_open_dispute-StaysSound a job w w₁ v c o address sound =
      grind (arith, system_transfer-SameData)

  pub open_dispute-StaysSound :
      (a : OpenDispute) (w : World)
      → AccountIsSound rt k w
      → StaysSound rt k (open_dispute rt env a w)
  unfolding open_dispute
  open_dispute-StaysSound a w sound =
      grind (arith, init_account-fresh, handler_open_dispute-StaysSound a)

  agent_wins-StaysSound :
      (a : ResolveDispute) (job : Job) (dispute : DisputeRecord) (w : World)
      → job_at w a.job ≡ some job
      → as_dispute (w.content a.dispute) ≡ some dispute
      → AccountIsSound rt k w
      → StaysSound rt k (agent_wins rt env a job dispute w)
  unfolding agent_wins
  agent_wins-StaysSound a job dispute w hj hd sound = grind (arith, pay_out-SameData)

  challenger_wins-StaysSound :
      (a : ResolveDispute) (job : Job) (dispute : DisputeRecord) (w : World)
      → job_at w a.job ≡ some job
      → as_dispute (w.content a.dispute) ≡ some dispute
      → AccountIsSound rt k w
      → StaysSound rt k (challenger_wins rt env a job dispute w)
  unfolding challenger_wins
  challenger_wins-StaysSound a job dispute w hj hd sound = grind (arith, pay_out-SameData)

  pub resolve_dispute-StaysSound :
      (verdict : ℕ) (a : ResolveDispute) (w : World)
      → AccountIsSound rt k w
      → StaysSound rt k (resolve_dispute rt env verdict a w)
  unfolding resolve_dispute
  resolve_dispute-StaysSound verdict a w sound =
      grind (arith, agent_wins-StaysSound, challenger_wins-StaysSound)

  pub cast_vote-StaysSound :
      (verdict dispute vote verifier : ℕ) (w : World)
      → AccountIsSound rt k w
      → StaysSound rt k (cast_vote rt env verdict dispute vote verifier w)
  unfolding cast_vote
  cast_vote-StaysSound verdict dispute vote verifier w sound = grind (arith, init_account-fresh)

  pub tally_panel-StaysSound :
      (remaining : List ℕ) (a : ResolveDispute) (w : World)
      → AccountIsSound rt k w
      → StaysSound rt k (tally_panel rt env remaining a w)
  unfolding tally_panel
  tally_panel-StaysSound remaining a w sound =
      grind (arith, agent_wins-StaysSound, challenger_wins-StaysSound)
