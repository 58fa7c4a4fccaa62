-- ===== src/State/Payments.antt =====
-- programs/taskforest-payments/src/state/payment.rs: the escrow of metered payments and the record
-- of its settlement.
use taskforest_protocol.Prelude.{ℕ, ◌+◌, Bool, ℤ}

pub data EscrowStatus : Type 0 where
  active : EscrowStatus
  delegated : EscrowStatus
  settled : EscrowStatus

pub record EscrowWrapper : Type 0 where
  pub escrow_id : ℕ
  pub job_pubkey : ℕ
  pub poster : ℕ
  pub agent : ℕ
  pub validator : ℕ
  pub deposited : ℕ
  pub status : EscrowStatus
  pub tee_pubkey : ℕ
  pub tee_verified : Bool
  pub mpp_session_id : ℕ
  pub total_paid : ℕ
  pub request_count : ℕ
  pub created_at : ℤ

abbrev pub escrow_size : ℕ
escrow_size = 8 + 8 + 32 + 32 + 32 + 32 + 8 + 1 + 32 + 1 + 32 + 8 + 4 + 8

pub record SettlementRecord : Type 0 where
  pub escrow_id : ℕ
  pub job_pubkey : ℕ
  pub poster : ℕ
  pub agent : ℕ
  pub total_deposited : ℕ
  pub total_paid : ℕ
  pub settled_at : ℤ
  pub settlement_hash : ℕ

abbrev pub settlement_record_size : ℕ
settlement_record_size = 8 + 8 + 32 + 32 + 32 + 8 + 8 + 8 + 32
