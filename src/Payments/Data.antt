-- ===== src/Payments/Data.antt =====
-- What `handler_record_settlement` of programs/taskforest-payments/src/instructions/payment.rs
-- writes, apart from lamports.
use taskforest_protocol.Prelude.{ℕ, ◌≤◌, ◌≡◌, List, arith}
use taskforest_protocol.Errors.{Ensures}
use taskforest_protocol.State.{EscrowWrapper, SettlementRecord, settled}
use taskforest_protocol.Chain.{World, Runtime, Env, escrow_account, record_account, update}
use taskforest_protocol.Chain.Keeps.{move_lamports-SameData, pay_out-SameData}
use taskforest_protocol.Payments.{RecordSettlement, settlement_preimage, handler_record_settlement}

-- The record of a settlement.
abbrev pub summary : (List ℕ → ℕ) → Env → RecordSettlement → EscrowWrapper → SettlementRecord
summary blake3 env a escrow = record {
  escrow_id = a.escrow_id;
  job_pubkey = escrow.job_pubkey;
  poster = escrow.poster;
  agent = escrow.agent;
  total_deposited = escrow.deposited;
  total_paid = escrow.total_paid;
  settled_at = env.now;
  settlement_hash = blake3 (settlement_preimage escrow escrow.total_paid env.now);
}

-- The escrow is settled and the record written, nothing else; the escrow was in budget and the one
-- that the call names.
pub record Writes (blake3 : List ℕ → ℕ) (env : Env) (a : RecordSettlement) (escrow : EscrowWrapper)
    (w w' : World) : Type 0 where
  pub content :
      w'.content
      ≡ update a.escrow
          (escrow_account (record escrow { status = settled }))
          (update a.settlement_record (record_account (summary blake3 env a escrow)) w.content)
  pub owner : w'.owner ≡ w.owner
  pub within : escrow.total_paid ≤ escrow.deposited
  pub named : escrow.escrow_id ≡ a.escrow_id

pub handler_record_settlement-Writes :
    (rt : Runtime) (blake3 : List ℕ → ℕ) (env : Env) (a : RecordSettlement) (escrow : EscrowWrapper)
    (w : World)
    → Ensures (Writes blake3 env a escrow w) (handler_record_settlement rt blake3 env a escrow w)
unfolding handler_record_settlement
handler_record_settlement-Writes rt blake3 env a escrow w =
    grind (arith, move_lamports-SameData, pay_out-SameData)
