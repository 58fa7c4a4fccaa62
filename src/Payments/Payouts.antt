-- ===== src/Payments/Payouts.antt =====
-- Who is paid what when an escrow is settled, by `handler_record_settlement` of
-- programs/taskforest-payments/src/instructions/payment.rs.
use taskforest_protocol.Prelude.{
  ℕ, leb, ◌==◌, true, ◌+◌, ◌-◌, ◌≤◌, ◌≡◌, ◌≢◌, some, List, refl, arith, sym, ap, ltb, if◌then◌else◌,
}
use taskforest_protocol.Errors.{ok}
use taskforest_protocol.Words.{u64_max}
use taskforest_protocol.State.{EscrowWrapper, settled, escrow_size}
use taskforest_protocol.Chain.{World, Runtime, Env, as_escrow, as_record, pay_out}
use taskforest_protocol.Chain.Payout.{
  Paid, capped, paid_out, pay_out_lem, paid_out-Paid, move_lamports_lem, move-Paid,
}
use taskforest_protocol.Payments.{RecordSettlement, settlement_preimage, handler_record_settlement}

-- The world after the agent and the poster are paid.
module _ (rt : Runtime) (blake3 : List ℕ → ℕ) (env : Env) (a : RecordSettlement)
    (escrow : EscrowWrapper) (w : World) where
  abbrev refund : ℕ
  refund = escrow.deposited - escrow.total_paid

  -- The settlement of an escrow with its own number, which has recorded no more than its deposit as
  -- paid and whose account holds the deposit on top of its rent-exempt balance, once the accounts
  -- are checked and the record is created, with distinct accounts and room in the balances: it
  -- succeeds, the agent gets exactly what the escrow records as paid in the session, nothing if no
  -- payment was recorded, and the poster the rest of the deposit, nobody else gains or loses, the
  -- escrow is settled, and the record says the same sums. The status of the escrow is not looked
  -- at.
  pub handler_record_settlement_pays :
      escrow.total_paid ≤ escrow.deposited
      → escrow.escrow_id ≡ a.escrow_id
      → rt.minimum_balance escrow_size + escrow.deposited ≤ w.lamports a.escrow
      → a.escrow ≢ a.agent
      → a.escrow ≢ a.poster
      → a.agent ≢ a.poster
      → a.escrow ≢ a.settlement_record
      → w.lamports a.agent + escrow.total_paid ≤ u64_max
      → w.lamports a.poster + escrow.deposited ≤ u64_max
      → (w' : World) × (handler_record_settlement rt blake3 env a escrow w ≡ ok w')
        × (w'.lamports a.agent ≡ w.lamports a.agent + escrow.total_paid)
        × (w'.lamports a.poster + escrow.total_paid ≡ w.lamports a.poster + escrow.deposited)
        × (w'.lamports a.escrow + escrow.deposited ≡ w.lamports a.escrow)
        × ((q : ℕ) → q ≢ a.escrow → q ≢ a.agent → q ≢ a.poster → w'.lamports q ≡ w.lamports q)
        × (as_escrow (w'.content a.escrow) ≡ some (record escrow { status = settled }))
        × (as_record (w'.content a.settlement_record)
            ≡ some (record {
              escrow_id = a.escrow_id;
              job_pubkey = escrow.job_pubkey;
              poster = escrow.poster;
              agent = escrow.agent;
              total_deposited = escrow.deposited;
              total_paid = escrow.total_paid;
              settled_at = env.now;
              settlement_hash = blake3 (settlement_preimage escrow escrow.total_paid env.now);
            }))
  unfolding handler_record_settlement
  handler_record_settlement_pays within id funded ea ep ap_ er room_a room_p =
      let v = paid_out a.escrow a.agent escrow.total_paid w in
      let first = move_lamports_lem a.escrow a.agent escrow.total_paid w ea (omega arith) room_a in
      let p = move-Paid a.escrow a.agent escrow.total_paid w ea (omega arith) in
      let u = paid_out a.escrow a.poster refund v in
      let full : capped rt escrow_size a.escrow refund v ≡ refund = ground (arith, p.debited) in
      let p' : Paid a.escrow a.poster refund v u =
        rw full at (paid_out-Paid rt escrow_size a.escrow a.poster refund v ep) in
      let other : v.lamports a.poster ≡ w.lamports a.poster =
        p.others a.poster (λ e. ep (sym e)) (λ e. ap_ (sym e)) in
      let paid : pay_out rt escrow_size a.escrow a.poster refund v ≡ ok u =
        rw (pay_out_lem rt escrow_size a.escrow a.poster refund v ep (omega (arith, other)))
          (ap (λ n. ok (paid_out a.escrow a.poster n v)) full) in
      let second : (if ltb 0 refund
            then pay_out rt escrow_size a.escrow a.poster refund v
            else ok v)
          ≡ ok u =
        ground arith in
      let enough : leb escrow.total_paid escrow.deposited ≡ true = ground arith in
      let same_id : (escrow.escrow_id == a.escrow_id) ≡ true = ground arith in
      rw (enough, same_id, first, second)
        (
          _,
          refl,
          omega (arith, p.credited, p'.others a.agent (λ e. ea (sym e)) ap_),
          omega (arith, other, p'.credited),
          omega (arith, p.debited, p'.debited),
          λ q he ha hp. omega (arith, p.others q he ha, p'.others q he hp),
          ground arith,
          ground arith,
        )
