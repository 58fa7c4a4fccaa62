-- ===== src/Dispute/Payouts.antt =====
-- Who is paid what when the poster resolves a dispute, by `handler_resolve_dispute` of
-- programs/taskforest/src/instructions/dispute.rs.
use taskforest_protocol.Prelude.{
  false, ℕ, ◌+◌, ◌≤◌, ◌≡◌, ◌≢◌, true, some, refl, arith, ap, ◌∙◌, sym,
}
use taskforest_protocol.Errors.{ok}
use taskforest_protocol.Words.{u64_max}
use taskforest_protocol.State.{
  Job, DisputeRecord, job_size, dispute_size, taskforest_id, status_failed,
}
use taskforest_protocol.Chain.{World, Runtime, Env, as_dispute}
use taskforest_protocol.Chain.Payout.{
  Paid, capped, paid_out, pay_out_lem, paid_out-Paid, paid_out-content, paid_out-owner,
}
use taskforest_protocol.Lifecycle.{job_at}
use taskforest_protocol.Dispute.{ResolveDispute, agent_wins, challenger_wins, resolve_dispute}

-- The accounts that a resolution needs: an open dispute over this job, its challenger, and the
-- poster, who signs.
pub record ResolvesFairly (env : Env) (w : World) (job : Job) (d : DisputeRecord)
    (a : ResolveDispute) : Type 0 where
  pub job_loaded : job_at w a.job ≡ some job
  pub at_hand : (w.away a.job ≡ false) × (w.away a.dispute ≡ false)
  pub dispute_owned : w.owner a.dispute ≡ taskforest_id
  pub dispute_loaded : as_dispute (w.content a.dispute) ≡ some d
  pub unresolved : d.status ≡ 0
  pub over_job : d.job ≡ a.job
  pub right_challenger : d.challenger ≡ a.challenger_account
  pub signs : env.signed a.resolver ≡ true
  pub resolver_is_poster : job.poster ≡ a.resolver

module _ (rt : Runtime) (env : Env) (w : World) (job : Job) (d : DisputeRecord)
    (a : ResolveDispute) where
  abbrev stake_part : ℕ
  stake_part = capped rt dispute_size a.dispute d.challenger_stake w

  abbrev penalty : ℕ
  penalty = capped rt job_size a.job job.claimer_stake w

  resolve_dispute-wins :
      ResolvesFairly env w job d a
      → (resolve_dispute rt env 1 a w ≡ agent_wins rt env a job d w)
        × (resolve_dispute rt env 2 a w ≡ challenger_wins rt env a job d w)
  unfolding resolve_dispute
  resolve_dispute-wins f = (ground arith, ground arith)

  -- The poster who signs and resolves an open dispute over the job for the agent, with two distinct
  -- accounts that are not delegated away and room for the stake, moves the challenger's stake to
  -- the job's account, as far as the dispute's account holds it above its rent-exempt balance, the
  -- job stays as it is, and the dispute is resolved.
  pub resolve_dispute_for_agent :
      ResolvesFairly env w job d a
      → a.dispute ≢ a.job
      → w.lamports a.job + d.challenger_stake ≤ u64_max
      → (w' : World) × (resolve_dispute rt env 1 a w ≡ ok w')
        × Paid a.dispute a.job stake_part w w'
        × (job_at w' a.job ≡ some job)
        × (as_dispute (w'.content a.dispute)
            ≡ some (record d { status = 1; resolved_at = env.now }))
  unfolding agent_wins
  resolve_dispute_for_agent f ne room =
      let p = paid_out-Paid rt dispute_size a.dispute a.job d.challenger_stake w ne in
      let c = paid_out-content a.dispute a.job stake_part w in
      let o = paid_out-owner a.dispute a.job stake_part w in
      rw
        (
          (resolve_dispute-wins f).0,
          pay_out_lem rt dispute_size a.dispute a.job d.challenger_stake w ne (omega arith),
        )
        (
          _,
          refl,
          record { credited = p.credited; debited = p.debited; others = p.others },
          ground (arith, ap (λ (f : ℕ → ℕ). f a.job) o),
          ground arith,
        )

  -- The poster who signs and resolves an open dispute over the job for its challenger, with three
  -- distinct accounts, the job's and the dispute's not delegated away, and room in the challenger's
  -- balance: the dispute's account pays the challenger the stake back and the job's account pays
  -- the challenger the worker's stake, each as far as it holds that above its rent-exempt balance;
  -- no other balance changes, the job has failed, and the dispute is resolved.
  pub resolve_dispute_for_challenger :
      ResolvesFairly env w job d a
      → a.dispute ≢ a.job
      → a.dispute ≢ a.challenger_account
      → a.job ≢ a.challenger_account
      → w.lamports a.challenger_account + d.challenger_stake + job.claimer_stake ≤ u64_max
      → (w' : World) × (resolve_dispute rt env 2 a w ≡ ok w')
        × (w'.lamports a.challenger_account
            ≡ w.lamports a.challenger_account + stake_part + penalty)
        × (w'.lamports a.dispute + stake_part ≡ w.lamports a.dispute)
        × (w'.lamports a.job + penalty ≡ w.lamports a.job)
        × ((q : ℕ)
            → q ≢ a.dispute
            → q ≢ a.job
            → q ≢ a.challenger_account
            → w'.lamports q ≡ w.lamports q)
        × (job_at w' a.job ≡ some (record job { status = status_failed }))
        × (as_dispute (w'.content a.dispute)
            ≡ some (record d { status = 2; resolved_at = env.now }))
  unfolding challenger_wins
  resolve_dispute_for_challenger f dj dc jc room =
      let to = a.challenger_account in
      let v = paid_out a.dispute to stake_part w in
      let p = paid_out-Paid rt dispute_size a.dispute to d.challenger_stake w dc in
      let same : capped rt job_size a.job job.claimer_stake v ≡ penalty =
        ground (arith, p.others a.job) in
      let u = paid_out a.job to penalty v in
      let p' : Paid a.job to penalty v u =
        rw same at (paid_out-Paid rt job_size a.job to job.claimer_stake v jc) in
      let o : u.owner ≡ w.owner =
        paid_out-owner a.job to penalty v ∙ paid_out-owner a.dispute to stake_part w in
      let second =
        pay_out_lem rt job_size a.job to job.claimer_stake v jc (omega (arith, p.credited)) in
      rw
        (
          (resolve_dispute-wins f).1,
          pay_out_lem rt dispute_size a.dispute to d.challenger_stake w dc (omega arith),
          second,
          same,
        )
        (
          _,
          refl,
          omega (arith, p.credited, p'.credited),
          omega (arith, p.debited, p'.others a.dispute dj dc),
          omega (arith, p.others a.job (λ e. dj (sym e)) jc, p'.debited),
          λ q hd hj hc. omega (arith, p.others q hd hc, p'.others q hj hc),
          ground (arith, ap (λ (f : ℕ → ℕ). f a.job) o),
          ground arith,
        )
