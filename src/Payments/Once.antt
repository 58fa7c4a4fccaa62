-- ===== src/Payments/Once.antt =====
-- A second settlement of an escrow: `#[account(init)]` on the settlement record of
-- `RecordSettlement` in programs/taskforest-payments/src/instructions/payment.rs refuses it.
use taskforest_protocol.Prelude.{ℕ, ◌≡◌, false, List, arith}
use taskforest_protocol.Errors.{is_ok}
use taskforest_protocol.State.{SettlementRecord}
use taskforest_protocol.Chain.{World, Env, Runtime, record_account}
use taskforest_protocol.Chain.Keeps.{init_account-fresh}
use taskforest_protocol.Records.{record_of}
use taskforest_protocol.Accounts.{AccountIsSound}
use taskforest_protocol.Payments.{RecordSettlement, record_settlement}

pub record_settlement_refused :
    (rt : Runtime) (blake3 : List ℕ → ℕ) (env : Env) (a : RecordSettlement) (k : ℕ) (w : World)
    (r : SettlementRecord)
    → AccountIsSound rt k w
    → record_of w k ≡ record_account r
    → r.escrow_id ≡ a.escrow_id
    → is_ok (record_settlement rt blake3 env a w) ≡ false
unfolding record_settlement
record_settlement_refused rt blake3 env a k w r sound h e = grind (arith, init_account-fresh)
