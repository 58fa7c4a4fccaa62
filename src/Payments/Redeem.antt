-- ===== src/Payments/Redeem.antt =====
-- The whole of `record_settlement` of programs/taskforest-payments/src/instructions/payment.rs: its
-- account checks, the creation of the record and the handler.
use taskforest_protocol.Prelude.{
  ℕ, ◌+◌, ◌≤◌, ◌≡◌, ◌≢◌, true, false, some, List, arith, sym, ◌∙◌, ap,
}
use taskforest_protocol.Errors.{Result, ok}
use taskforest_protocol.Words.{u64_max}
use taskforest_protocol.State.{
  EscrowWrapper, escrow_size, settlement_record_size, payments_id, settled,
}
use taskforest_protocol.Chain.{
  World, Runtime, Env, IsLawful, Lamports, vacant, escrow_account, init_account, as_escrow, update,
}
use taskforest_protocol.Records.{is_settled, record_of}
use taskforest_protocol.Accounts.{AccountIsSound}
use taskforest_protocol.Bonds.{BondIsHeld}
use taskforest_protocol.Payments.{
  RecordSettlement, settlement_seeds, record_settlement, handler_record_settlement,
}
use taskforest_protocol.Payments.Payouts.{handler_record_settlement_pays}

-- A settlement that names an escrow that is not settled, its poster and its agent, and the unused
-- address of its record, which the payer who signs can pay for; no two of the accounts are the
-- same, and the balances have room.
pub record IsRedeemable (rt : Runtime) (env : Env) (w : World) (e : EscrowWrapper)
    (a : RecordSettlement) : Type 0 where
  pub loaded : record_of w a.escrow ≡ escrow_account e
  pub at_hand : w.away a.escrow ≡ false
  pub unsettled : is_settled e.status ≡ false
  pub right_id : a.escrow_id ≡ e.escrow_id
  pub right_poster : a.poster ≡ e.poster
  pub right_agent : a.agent ≡ e.agent
  pub unused : w.content a.settlement_record ≡ vacant
  pub own_record : a.settlement_record ≡ rt.find_address (settlement_seeds a.escrow_id) payments_id
  pub payer_signs : env.signed a.payer ≡ true
  pub created : Lamports
  pub creation :
      rt.create_account a.payer a.settlement_record settlement_record_size w.lamports ≡ some created
  pub escrow_apart : (a.escrow ≢ a.poster) × (a.escrow ≢ a.agent) × (a.escrow ≢ a.payer)
  pub payees_apart : (a.agent ≢ a.poster) × (a.agent ≢ a.payer) × (a.poster ≢ a.payer)
  pub record_apart : (a.settlement_record ≢ a.poster) × (a.settlement_record ≢ a.agent)
  pub agent_room : w.lamports a.agent + e.total_paid ≤ u64_max
  pub poster_room : w.lamports a.poster + e.deposited ≤ u64_max

-- The call succeeds: the agent gets what was paid in the session, the poster the rest of the
-- deposit, and the escrow is settled.
abbrev pub Redeems : RecordSettlement → EscrowWrapper → World → Result World → Type 0
Redeems a e w r =
    (w' : World) × (r ≡ ok w')
    × (w'.lamports a.agent ≡ w.lamports a.agent + e.total_paid)
    × (w'.lamports a.poster + e.total_paid ≡ w.lamports a.poster + e.deposited)
    × (as_escrow (w'.content a.escrow) ≡ some (record e { status = settled }))

module _ (rt : Runtime) (law : IsLawful rt) (blake3 : List ℕ → ℕ) (env : Env) (a : RecordSettlement)
    (e : EscrowWrapper) (w : World) (h : IsRedeemable rt env w e a) where
  -- The world once the record is created.
  abbrev opened : World
  opened = record w { lamports = h.created; owner = update a.settlement_record payments_id w.owner }

  record_settlement-handler :
      AccountIsSound rt a.escrow w
      → record_settlement rt blake3 env a w ≡ handler_record_settlement rt blake3 env a e opened
  unfolding record_settlement init_account
  record_settlement-handler sound = ground (
    arith, h.loaded, h.at_hand, h.right_id, h.right_poster, h.right_agent, h.unused, h.own_record,
    h.payer_signs, h.creation,
  )

  created_at : (q : ℕ) → q ≢ a.payer → q ≢ a.settlement_record → h.created q ≡ w.lamports q
  created_at q not_payer not_record =
      let (n, _, m, _) =
        law.create_moves a.payer a.settlement_record settlement_record_size w.lamports h.created
          h.creation in
      ground (arith, ap (λ (f : Lamports). f q) m)

  record_apart : a.escrow ≢ a.settlement_record
  record_apart same = ground (arith, h.loaded, h.unused, same)

  -- The settlement of a redeemable escrow.
  pub record_settlement_pays :
      AccountIsSound rt a.escrow w
      → BondIsHeld rt a.escrow w
      → Redeems a e w (record_settlement rt blake3 env a w)
  record_settlement_pays sound bond =
      let agent = created_at a.agent h.payees_apart.1 (λ q. h.record_apart.1 (sym q)) in
      let poster = created_at a.poster h.payees_apart.2 (λ q. h.record_apart.0 (sym q)) in
      let held = created_at a.escrow h.escrow_apart.2 record_apart in
      let within : e.total_paid ≤ e.deposited = ground (arith, sound, h.loaded) in
      let bonded : rt.minimum_balance escrow_size + e.deposited ≤ w.lamports a.escrow =
        ground (arith, bond, h.loaded, h.unsettled) in
      let (w', run, paid, refunded, debited, others, done, noted) =
        handler_record_settlement_pays rt blake3 env a e opened within (sym h.right_id)
          (omega (arith, held, bonded)) h.escrow_apart.1 h.escrow_apart.0 h.payees_apart.0
          record_apart (omega (arith, agent, h.agent_room))
          (omega (arith, poster, h.poster_room)) in
      (
        w',
        record_settlement-handler sound ∙ run,
        omega (arith, paid, agent),
        omega (arith, refunded, poster),
        done,
      )
