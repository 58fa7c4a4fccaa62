-- ===== src/Program/Progress.antt =====
-- No job is stuck: once its deadline and the review period have passed, some instruction ends it.
-- And no escrow: its settlement pays out the whole deposit.
use taskforest_protocol.Prelude.{ℕ, ◌+◌, ◌≤◌, ◌≡◌, ◌≢◌, true, false, some, arith, ◌+ℤ◌, ◌<ℤ◌}
use taskforest_protocol.Errors.{ok}
use taskforest_protocol.Words.{u64_max, fits_i64}
use taskforest_protocol.State.{
  dispute_size, job_size, status_failed, DisputeRecord, EscrowWrapper, Job, review_period_secs,
}
use taskforest_protocol.Chain.{World, Env, IsLawful}
use taskforest_protocol.Lifecycle.{job_at, is_finished}
use taskforest_protocol.Escrow.{SignsFairly}
use taskforest_protocol.Settlement.Payouts.{payout_of}
use taskforest_protocol.Program.{
  resolve_dispute, Services, Instruction, task, payment, record_settlement, taskforest_payments,
  execute, taskforest,
}
use taskforest_protocol.Chain.Payout.{capped}
use taskforest_protocol.Dispute.{ResolveDispute}
use taskforest_protocol.Dispute.Payouts.{ResolvesFairly, resolve_dispute_for_challenger}
use taskforest_protocol.Payments.{RecordSettlement}
use taskforest_protocol.Payments.Redeem.{IsRedeemable, Redeems, record_settlement_pays}
use taskforest_protocol.Program.Reached.{IsFresh, Reach-IsSound, Reach-IsHeld}
use taskforest_protocol.Program.Steps.{Reach}

-- Some instruction succeeds and leaves the job settled or failed.
abbrev pub CanFinish : Services → Env → ℕ → World → Type 0
CanFinish s env k w =
    (i : Instruction) × (w' : World) × (j : Job) × (execute s env i w ≡ ok w')
    × (job_at w' k ≡ some j)
    × (is_finished j.status ≡ true)

-- A moment past the deadline and the review period of a job, at which its poster and its claimer
-- sign and have room for what they may be paid.
pub record IsDue (s : Services) (env : Env) (w : World) (k : ℕ) (j : Job) : Type 0 where
  pub fair : SignsFairly s.runtime env w
  pub at_hand : w.away k ≡ false
  pub poster_signs : env.signed j.poster ≡ true
  pub claimer_signs : env.signed j.claimer ≡ true
  pub past_deadline : j.deadline <ℤ env.now
  pub past_review : j.submitted_at +ℤ review_period_secs <ℤ env.now
  pub review_fits : fits_i64 (j.submitted_at +ℤ review_period_secs) ≡ true
  pub poster_room : w.lamports j.poster + payout_of j ≤ u64_max
  pub claimer_room : w.lamports j.claimer + payout_of j ≤ u64_max

module _ (s : Services) (law : IsLawful s.runtime) {w w' : World} (fresh : IsFresh w)
    (r : Reach s w w') where
  -- In every world that is reached from one without accounts of the programs, by instructions of
  -- both and steps of others, under a lawful runtime and fair signatures, the settlement of an
  -- escrow that is not settled and not delegated away succeeds when it names the escrow's own
  -- parties, distinct accounts and the unused address of its record, which a payer signs and pays
  -- for, and the balances have room: the agent gets exactly what the escrow records as paid, which
  -- is nothing when no payment was recorded, the poster exactly the rest of the deposit, and the
  -- escrow is settled.
  pub Reach-Redeems :
      (env : Env) (a : RecordSettlement) (e : EscrowWrapper)
      → IsRedeemable s.runtime env w' e a
      → Redeems a e w' (execute s env (payment (record_settlement a)) w')
  unfolding execute taskforest_payments
  Reach-Redeems env a e h =
      record_settlement_pays s.runtime law s.blake3 env a e w' h
        (Reach-IsSound s law fresh r a.escrow) (Reach-IsHeld s law fresh r a.escrow)

  -- In every world that is reached from one without accounts of the programs, by instructions of
  -- both and steps of others, under a lawful runtime and fair signatures, the poster who signs and
  -- resolves an open dispute over the job for its challenger, neither account delegated away,
  -- succeeds when the three accounts are distinct and the challenger's balance has room: the
  -- dispute's account pays the challenger the whole stake of the dispute, the job's account adds
  -- the worker's stake as far as it holds that above its rent-exempt balance, and the job has
  -- failed.
  pub Reach-stake_returned :
      (env : Env) (a : ResolveDispute) (job : Job) (d : DisputeRecord)
      → ResolvesFairly env w' job d a
      → a.dispute ≢ a.job
      → a.dispute ≢ a.challenger_account
      → a.job ≢ a.challenger_account
      → w'.lamports a.challenger_account + d.challenger_stake + job.claimer_stake ≤ u64_max
      → (v : World) × (execute s env (task (resolve_dispute 2 a)) w' ≡ ok v)
        × (v.lamports a.challenger_account
            ≡ w'.lamports a.challenger_account
              + d.challenger_stake
              + capped s.runtime job_size a.job job.claimer_stake w')
        × (v.lamports a.dispute + d.challenger_stake ≡ w'.lamports a.dispute)
        × (job_at v a.job ≡ some (record job { status = status_failed }))
  unfolding execute taskforest
  Reach-stake_returned env a job d f dj dc jc room =
      let whole : capped s.runtime dispute_size a.dispute d.challenger_stake w'
          ≡ d.challenger_stake =
        ground (
          arith,
          Reach-IsHeld s law fresh r a.dispute,
          f.dispute_owned,
          f.dispute_loaded,
          f.unresolved,
        ) in
      let (v, run, paid, drawn, _, _, failed, _) =
        resolve_dispute_for_challenger s.runtime env w' job d a f dj dc jc room in
      (v, run, rw whole at paid, rw whole at drawn, failed)
