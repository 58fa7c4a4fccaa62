-- ===== src/Bonds.antt =====
-- What the accounts of disputes and escrows must hold above their rent-exempt balance: the stake
-- that `handler_open_dispute` takes, until the dispute is resolved, and the deposit that
-- `handler_create_escrow_wrapper` takes, until it is settled.
use taskforest_protocol.Prelude.{ℕ, ◌+◌, ◌≤◌, ◌≡◌, false}
use taskforest_protocol.Errors.{Result, Ensures}
use taskforest_protocol.State.{dispute_size, escrow_size}
use taskforest_protocol.Chain.{World, Content, Runtime, dispute_account, escrow_account}
use taskforest_protocol.Records.{record_of, is_settled}

abbrev pub BondAt : Runtime → Content → ℕ → Type 0
BondAt rt (dispute_account d) lamports =
    (rt.minimum_balance dispute_size ≤ lamports)
    × (d.status ≡ 0 → rt.minimum_balance dispute_size + d.challenger_stake ≤ lamports)
BondAt rt (escrow_account e) lamports =
    is_settled e.status ≡ false → rt.minimum_balance escrow_size + e.deposited ≤ lamports
BondAt rt c lamports = Unit

abbrev pub BondIsHeld : Runtime → ℕ → World → Type 0
BondIsHeld rt k w = BondAt rt (record_of w k) (w.lamports k)

abbrev pub Holds : Runtime → ℕ → Result World → Type 0
Holds rt k = Ensures (BondIsHeld rt k)
