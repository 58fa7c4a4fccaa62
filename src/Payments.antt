-- ===== src/Payments.antt =====
-- programs/taskforest-payments/src/instructions/payment.rs: an escrow of metered payments, from its
-- deposit through the attested session to its settlement.
pub mod Escrow
pub mod Invariant
pub mod Conserves
pub mod Budget
pub mod Payouts
pub mod Lifecycle
pub mod Once
pub mod Bonds
pub mod Sound
pub mod Data
pub mod Records
pub mod Delegated
mod Attestation
pub use Attestation.{
  ParsedAttestationReport, attestation_magic, attestation_version, attestation_report_len,
  invalid_report, verify_report_signature,
}
unfoldable pub use Attestation.{parse_attestation_report}
pub mod RoundTrip
pub mod Attested
pub mod Redeem
pub mod Preimage
use taskforest_protocol.Prelude.{
  ℕ, ◌+◌, ◌-◌, ◌≡◌, Bool, true, false, ◌&&◌, ◌||◌, not, Option, List, [], ◌∷◌, ◌++◌, ℤ, length, ltb,
  leb, leb_ℤ, ◌==◌, if◌then◌else◌,
}
use taskforest_protocol.Errors.{
  Error, Result, ok, err, ◌>>=◌, ◌>>◌, require, PaymentsError, payments, call_failed,
  constraint_seeds, constraint_raw, escrow_not_active, escrow_not_delegated, budget_exceeded,
  caller_not_authorized, settlement_exceeds_deposit, attestation_too_large,
}
use taskforest_protocol.Words.{to_le_bytes, saturating_sum, u32_max, u64_max}
use taskforest_protocol.Bytes.{of_i64}
use taskforest_protocol.Signature.{Sysvar, is_allowed_validator}
use taskforest_protocol.State.{
  EscrowStatus, active, delegated, settled, EscrowWrapper, escrow_size, settlement_record_size,
  taskforest_id, payments_id, escrow_seed, settlement_seed,
}
use taskforest_protocol.Chain.{
  World, Runtime, Env, escrow_account, record_account, as_job, as_escrow, signer, load, store,
  init_account, hand_over, system_transfer, move_lamports, available, pay_out,
}

unfoldable pub escrow_seeds : ℕ → List (List ℕ)
escrow_seeds escrow_id = escrow_seed ∷ to_le_bytes 8 escrow_id ∷ []

unfoldable pub settlement_seeds : ℕ → List (List ℕ)
settlement_seeds escrow_id = settlement_seed ∷ to_le_bytes 8 escrow_id ∷ []

-- `Account<'info, EscrowWrapper>` with `seeds = [ESCROW_SEED, escrow_id]` and the canonical bump
pub load_escrow : Runtime → ℕ → ℕ → World → Result EscrowWrapper
unfolding escrow_seeds
load_escrow rt escrow_id key w = do
  escrow ← load as_escrow payments_id key w
  require (key == rt.find_address (escrow_seeds escrow_id) payments_id) constraint_seeds
  ok escrow

-- `==` on `EscrowStatus`
pub status_eq : EscrowStatus → EscrowStatus → Bool
status_eq active active = true
status_eq delegated delegated = true
status_eq settled settled = true
status_eq a b = false

-- The arguments and the accounts of `create_escrow_wrapper`.
pub record CreateEscrowWrapper : Type 0 where
  pub escrow_id : ℕ
  pub deposit_lamports : ℕ
  pub mpp_session_id : ℕ
  pub job : ℕ
  pub escrow : ℕ
  pub poster : ℕ

unfoldable pub create_escrow_wrapper : Runtime → Env → CreateEscrowWrapper → World → Result World
unfolding escrow_seeds
create_escrow_wrapper rt env a w = do
  job ← load as_job taskforest_id a.job w
  signer env a.poster
  w₁ ← init_account rt payments_id (escrow_seeds a.escrow_id) escrow_size a.poster a.escrow w
  require (a.poster == job.poster) (payments PaymentsError.unauthorized)
  w₂ ← system_transfer rt a.poster a.escrow a.deposit_lamports w₁
  ok (
      store a.escrow
        (escrow_account (record {
          escrow_id = a.escrow_id;
          job_pubkey = a.job;
          poster = a.poster;
          agent = job.claimer;
          validator = 0;
          deposited = a.deposit_lamports;
          status = active;
          tee_pubkey = 0;
          tee_verified = false;
          mpp_session_id = a.mpp_session_id;
          total_paid = 0;
          request_count = 0;
          created_at = env.now;
        }))
        w₂)

-- The delegation program takes the account over with its data.
unfoldable pub delegate_to_per : Runtime → Env → Option ℕ → ℕ → ℕ → ℕ → World → Result World
unfolding load_escrow status_eq
delegate_to_per rt env validator escrow_id escrow_key payer w = do
  escrow ← load_escrow rt escrow_id escrow_key w
  signer env payer
  require (escrow.poster == payer) (payments PaymentsError.unauthorized)
  require (status_eq escrow.status active) (payments escrow_not_active)
  require (rt.delegate escrow_key validator) call_failed
  ok (hand_over escrow_key w)

-- The sum that a payment reaches: the guards of `record_payment` on the escrow.
unfoldable pub record_payment : Runtime → Env → ℕ → ℕ → ℕ → ℕ → World → Result World
unfolding load_escrow status_eq
record_payment rt env escrow_id amount escrow_key caller w = do
  escrow ← load_escrow rt escrow_id escrow_key w
  signer env caller
  require (ltb 0 amount) (payments budget_exceeded)
  require (escrow.escrow_id == escrow_id) (payments escrow_not_active)
  require (status_eq escrow.status delegated) (payments escrow_not_delegated)
  require (caller == escrow.agent || caller == escrow.validator) (payments caller_not_authorized)
  require (leb (escrow.total_paid + amount) u64_max) (payments budget_exceeded)
  require (leb (escrow.total_paid + amount) escrow.deposited) (payments budget_exceeded)
  ok (
      store escrow_key
        (escrow_account (record escrow {
          total_paid = escrow.total_paid + amount;
          request_count = saturating_sum u32_max escrow.request_count 1;
        }))
        w)

-- The arguments and the accounts of `verify_tee_attestation`.
pub record VerifyTeeAttestation : Type 0 where
  pub escrow_id : ℕ
  pub attestation_report : List ℕ
  pub tee_pubkey : ℕ
  pub escrow : ℕ
  pub validator : ℕ
  pub payer : ℕ

unfoldable pub verify_tee_attestation :
    Runtime → Env → Sysvar → VerifyTeeAttestation → World → Result World
unfolding load_escrow status_eq
verify_tee_attestation rt env sysvar a w = do
  escrow ← load_escrow rt a.escrow_id a.escrow w
  signer env a.validator
  signer env a.payer
  report ← parse_attestation_report a.attestation_report
  require (escrow.escrow_id == a.escrow_id) (payments PaymentsError.invalid_attestation)
  require (status_eq escrow.status active) (payments escrow_not_active)
  require (not (length a.attestation_report == 0)) (payments PaymentsError.invalid_attestation)
  require (leb (length a.attestation_report) 4096) (payments attestation_too_large)
  require (is_allowed_validator a.validator) (payments PaymentsError.invalid_validator)
  verify_report_signature sysvar a.validator a.attestation_report
  require (report.validator == a.validator) (payments PaymentsError.attestation_mismatch)
  require (report.escrow_id == escrow.escrow_id) (payments PaymentsError.attestation_mismatch)
  require (report.job_pubkey == escrow.job_pubkey) (payments PaymentsError.attestation_mismatch)
  require (report.mpp_session_id == escrow.mpp_session_id)
      (payments PaymentsError.attestation_mismatch)
  require (report.tee_pubkey == a.tee_pubkey) (payments PaymentsError.attestation_mismatch)
  require (leb_ℤ report.issued_at env.now && leb_ℤ env.now report.expires_at)
      (payments PaymentsError.attestation_expired)
  ok (
      store a.escrow
        (escrow_account (record escrow {
          tee_pubkey = a.tee_pubkey;
          validator = a.validator;
          tee_verified = true;
          status = delegated;
        }))
        w)

-- The bytes that are hashed into a settlement record.
unfoldable pub settlement_preimage : EscrowWrapper → ℕ → ℤ → List ℕ
settlement_preimage escrow total_paid settled_at =
    to_le_bytes 8 escrow.escrow_id
    ++ (to_le_bytes 32 escrow.job_pubkey
        ++ (to_le_bytes 32 escrow.poster
            ++ (to_le_bytes 32 escrow.agent
                ++ (to_le_bytes 32 escrow.validator
                    ++ (to_le_bytes 8 escrow.deposited
                        ++ (to_le_bytes 8 total_paid
                            ++ (to_le_bytes 32 escrow.mpp_session_id
                                ++ to_le_bytes 8 (of_i64 settled_at))))))))

-- The arguments and the accounts of `record_settlement`; the sum that the client names is ignored.
pub record RecordSettlement : Type 0 where
  pub escrow_id : ℕ
  pub escrow : ℕ
  pub settlement_record : ℕ
  pub poster : ℕ
  pub agent : ℕ
  pub payer : ℕ

-- `handler_record_settlement`, which runs once the accounts are checked and the record is created.
unfoldable pub handler_record_settlement :
    Runtime → (List ℕ → ℕ) → Env → RecordSettlement → EscrowWrapper → World → Result World
unfolding settlement_preimage
handler_record_settlement rt blake3 env a escrow w = do
  require (leb escrow.total_paid escrow.deposited) (payments settlement_exceeds_deposit)
  require (escrow.escrow_id == a.escrow_id) (payments escrow_not_active)
  w₁ ← move_lamports a.escrow a.agent escrow.total_paid w
  let refundable = escrow.deposited - escrow.total_paid
  w₂ ← (if ltb 0 refundable then pay_out rt escrow_size a.escrow a.poster refundable w₁ else ok w₁)
  let summary = record_account (record {
    escrow_id = a.escrow_id;
    job_pubkey = escrow.job_pubkey;
    poster = escrow.poster;
    agent = escrow.agent;
    total_deposited = escrow.deposited;
    total_paid = escrow.total_paid;
    settled_at = env.now;
    settlement_hash = blake3 (settlement_preimage escrow escrow.total_paid env.now);
  })
  ok (
      store a.escrow (escrow_account (record escrow { status = settled }))
        (store a.settlement_record summary w₂))

unfoldable pub record_settlement :
    Runtime → (List ℕ → ℕ) → Env → RecordSettlement → World → Result World
unfolding load_escrow settlement_seeds
record_settlement rt blake3 env a w = do
  escrow ← load_escrow rt a.escrow_id a.escrow w
  signer env a.payer
  w₁ ←
      init_account rt payments_id (settlement_seeds a.escrow_id) settlement_record_size a.payer
        a.settlement_record w
  require (a.poster == escrow.poster) constraint_raw
  require (a.agent == escrow.agent) (payments PaymentsError.unauthorized)
  handler_record_settlement rt blake3 env a escrow w₁
