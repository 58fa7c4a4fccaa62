-- ===== src/Payments/Invariant.antt =====
-- Every instruction on the payments program keeps the job accounts valid.
use taskforest_protocol.Prelude.{ℕ, arith, List, Option, ◌≡◌, some}
use taskforest_protocol.State.{EscrowWrapper, payments_id}
use taskforest_protocol.Signature.{Sysvar}
use taskforest_protocol.Chain.{vacant, as_escrow, update, World, Runtime, Env}
use taskforest_protocol.Chain.Keeps.{
  init_account-fresh, move_lamports-SameData, pay_out-SameData, system_transfer-SameData,
}
use taskforest_protocol.Lifecycle.{job_at}
use taskforest_protocol.Invariant.{ValidAt, Validates}
use taskforest_protocol.Payments.{
  handler_record_settlement, CreateEscrowWrapper, RecordSettlement, VerifyTeeAttestation,
  create_escrow_wrapper, delegate_to_per, record_payment, verify_tee_attestation, record_settlement,
}

module _ (k : ℕ) (env : Env) where
  pub create_escrow_wrapper-Validates :
      (rt : Runtime) (a : CreateEscrowWrapper) (w : World)
      → ValidAt (job_at w k)
      → Validates k (create_escrow_wrapper rt env a w)
  unfolding create_escrow_wrapper
  create_escrow_wrapper-Validates rt a w valid =
      grind (arith, init_account-fresh, system_transfer-SameData)

  pub delegate_to_per-Validates :
      (rt : Runtime) (validator : Option ℕ) (escrow_id escrow payer : ℕ) (w : World)
      → ValidAt (job_at w k)
      → Validates k (delegate_to_per rt env validator escrow_id escrow payer w)
  unfolding delegate_to_per
  delegate_to_per-Validates rt validator escrow_id escrow payer w valid = ground arith

  pub record_payment-Validates :
      (rt : Runtime) (escrow_id amount escrow caller : ℕ) (w : World)
      → ValidAt (job_at w k)
      → Validates k (record_payment rt env escrow_id amount escrow caller w)
  unfolding record_payment
  record_payment-Validates rt escrow_id amount escrow caller w valid = ground arith

  pub verify_tee_attestation-Validates :
      (rt : Runtime) (sysvar : Sysvar) (a : VerifyTeeAttestation) (w : World)
      → ValidAt (job_at w k)
      → Validates k (verify_tee_attestation rt env sysvar a w)
  unfolding verify_tee_attestation
  verify_tee_attestation-Validates rt sysvar a w valid = ground arith

  handler_record_settlement-Validates :
      (rt : Runtime) (blake3 : List ℕ → ℕ) (a : RecordSettlement) (escrow : EscrowWrapper)
      (w w₁ : World)
      → as_escrow (w.content a.escrow) ≡ some escrow
      → w.content a.settlement_record ≡ vacant
      → w₁.content ≡ w.content
      → w₁.owner ≡ update a.settlement_record payments_id w.owner
      → ValidAt (job_at w k)
      → Validates k (handler_record_settlement rt blake3 env a escrow w₁)
  unfolding handler_record_settlement
  handler_record_settlement-Validates rt blake3 a escrow w w₁ h v c o valid =
      grind (arith, move_lamports-SameData, pay_out-SameData)

  pub record_settlement-Validates :
      (rt : Runtime) (blake3 : List ℕ → ℕ) (a : RecordSettlement) (w : World)
      → ValidAt (job_at w k)
      → Validates k (record_settlement rt blake3 env a w)
  unfolding record_settlement
  record_settlement-Validates rt blake3 a w valid =
      grind (arith, init_account-fresh, handler_record_settlement-Validates rt blake3 a)
