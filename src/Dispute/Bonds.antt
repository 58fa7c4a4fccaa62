-- ===== src/Dispute/Bonds.antt =====
-- Every instruction on disputes keeps in the accounts of disputes and escrows what they must hold.
use taskforest_protocol.Prelude.{false, ℕ, ◌≤◌, ◌≡◌, ◌≢◌, true, some, List, arith}
use taskforest_protocol.State.{dispute_size, Job, DisputeRecord, taskforest_id}
use taskforest_protocol.Chain.{Env, IsLawful, Runtime, World, as_dispute, update, vacant}
use taskforest_protocol.Chain.Keeps.{init_account-fresh, pay_out-SameData, system_transfer-SameData}
use taskforest_protocol.Chain.Floors.{init_account_floor, pay_out_floor, system_transfer_floor}
use taskforest_protocol.Lifecycle.{job_at}
use taskforest_protocol.Escrow.{SignsFairly}
use taskforest_protocol.Bonds.{BondIsHeld, Holds}
use taskforest_protocol.Dispute.{
  handler_open_dispute, agent_wins, challenger_wins, OpenDispute, ResolveDispute, open_dispute,
  resolve_dispute, cast_vote, tally_panel,
}

module _ (k : ℕ) (env : Env) (rt : Runtime) (law : IsLawful rt) where
  handler_open_dispute-Holds :
      (a : OpenDispute) (job : Job) (w w₁ : World)
      → w.content a.dispute ≡ vacant
      → w₁.content ≡ w.content
      → w₁.owner ≡ update a.dispute taskforest_id w.owner
      → env.signed a.challenger ≡ true
      → env.signed a.dispute ≡ false
      → rt.minimum_balance dispute_size ≤ w₁.lamports a.dispute
      → (k ≢ a.challenger → w.lamports k ≤ w₁.lamports k)
      → BondIsHeld rt k w
      → SignsFairly rt env w
      → Holds rt k (handler_open_dispute rt env a job w₁)
  unfolding handler_open_dispute
  handler_open_dispute-Holds a job w w₁ v c o signs unsigned rent grows held fair =
      grind (arith, fair.no_owned, system_transfer-SameData, system_transfer_floor rt law k)

  pub open_dispute-Holds :
      (a : OpenDispute) (w : World)
      → BondIsHeld rt k w
      → SignsFairly rt env w
      → Holds rt k (open_dispute rt env a w)
  unfolding open_dispute
  open_dispute-Holds a w held fair = grind (
    arith,
    init_account-fresh,
    init_account_floor rt law k,
    fair.no_derived,
    fair.no_owned,
    handler_open_dispute-Holds a,
  )

  agent_wins-Holds :
      (a : ResolveDispute) (job : Job) (dispute : DisputeRecord) (w : World)
      → job_at w a.job ≡ some job
      → as_dispute (w.content a.dispute) ≡ some dispute
      → BondIsHeld rt k w
      → SignsFairly rt env w
      → Holds rt k (agent_wins rt env a job dispute w)
  unfolding agent_wins
  agent_wins-Holds a job dispute w hj hd held fair =
      grind (arith, pay_out-SameData, pay_out_floor k)

  challenger_wins-Holds :
      (a : ResolveDispute) (job : Job) (dispute : DisputeRecord) (w : World)
      → job_at w a.job ≡ some job
      → as_dispute (w.content a.dispute) ≡ some dispute
      → BondIsHeld rt k w
      → SignsFairly rt env w
      → Holds rt k (challenger_wins rt env a job dispute w)
  unfolding challenger_wins
  challenger_wins-Holds a job dispute w hj hd held fair =
      grind (arith, pay_out-SameData, pay_out_floor k)

  pub resolve_dispute-Holds :
      (verdict : ℕ) (a : ResolveDispute) (w : World)
      → BondIsHeld rt k w
      → SignsFairly rt env w
      → Holds rt k (resolve_dispute rt env verdict a w)
  unfolding resolve_dispute
  resolve_dispute-Holds verdict a w held fair =
      grind (arith, agent_wins-Holds, challenger_wins-Holds)

  pub cast_vote-Holds :
      (verdict dispute vote verifier : ℕ) (w : World)
      → BondIsHeld rt k w
      → SignsFairly rt env w
      → Holds rt k (cast_vote rt env verdict dispute vote verifier w)
  unfolding cast_vote
  cast_vote-Holds verdict dispute vote verifier w held fair =
      grind (arith, init_account-fresh, init_account_floor rt law k, fair.no_derived, fair.no_owned)

  pub tally_panel-Holds :
      (remaining : List ℕ) (a : ResolveDispute) (w : World)
      → BondIsHeld rt k w
      → SignsFairly rt env w
      → Holds rt k (tally_panel rt env remaining a w)
  unfolding tally_panel
  tally_panel-Holds remaining a w held fair = grind (arith, agent_wins-Holds, challenger_wins-Holds)
