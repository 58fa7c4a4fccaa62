-- ===== src/Payments/Records.antt =====
-- Every instruction on the payments program changes the other accounts only as Records allows.
use taskforest_protocol.Prelude.{ℕ, arith, List, Option, ◌≡◌, some}
use taskforest_protocol.State.{EscrowWrapper, payments_id}
use taskforest_protocol.Signature.{Sysvar}
use taskforest_protocol.Chain.{vacant, as_escrow, update, World, Runtime, Env}
use taskforest_protocol.Chain.Keeps.{init_account-fresh, system_transfer-SameData}
use taskforest_protocol.Errors.{Ensures-map}
use taskforest_protocol.Payments.Data.{Writes, handler_record_settlement-Writes}
use taskforest_protocol.Records.{record_of, RecordSteps, RecordsFollow}
use taskforest_protocol.Payments.{
  handler_record_settlement, CreateEscrowWrapper, RecordSettlement, VerifyTeeAttestation,
  create_escrow_wrapper, delegate_to_per, record_payment, verify_tee_attestation, record_settlement,
}

module _ (k : ℕ) (env : Env) where
  pub create_escrow_wrapper-RecordsFollow :
      (rt : Runtime) (a : CreateEscrowWrapper) (w : World)
      → RecordsFollow k w (create_escrow_wrapper rt env a w)
  unfolding create_escrow_wrapper
  create_escrow_wrapper-RecordsFollow rt a w =
      grind (arith, init_account-fresh, system_transfer-SameData)

  pub delegate_to_per-RecordsFollow :
      (rt : Runtime) (validator : Option ℕ) (escrow_id escrow payer : ℕ) (w : World)
      → RecordsFollow k w (delegate_to_per rt env validator escrow_id escrow payer w)
  unfolding delegate_to_per
  delegate_to_per-RecordsFollow rt validator escrow_id escrow payer w = ground arith

  pub record_payment-RecordsFollow :
      (rt : Runtime) (escrow_id amount escrow caller : ℕ) (w : World)
      → RecordsFollow k w (record_payment rt env escrow_id amount escrow caller w)
  unfolding record_payment
  record_payment-RecordsFollow rt escrow_id amount escrow caller w = ground arith

  pub verify_tee_attestation-RecordsFollow :
      (rt : Runtime) (sysvar : Sysvar) (a : VerifyTeeAttestation) (w : World)
      → RecordsFollow k w (verify_tee_attestation rt env sysvar a w)
  unfolding verify_tee_attestation
  verify_tee_attestation-RecordsFollow rt sysvar a w = ground arith

  handler_record_settlement-RecordsFollow :
      (rt : Runtime) (blake3 : List ℕ → ℕ) (a : RecordSettlement) (escrow : EscrowWrapper)
      (w w₁ : World)
      → as_escrow (w.content a.escrow) ≡ some escrow
      → w.content a.settlement_record ≡ vacant
      → w₁.content ≡ w.content
      → w₁.owner ≡ update a.settlement_record payments_id w.owner
      → RecordsFollow k w (handler_record_settlement rt blake3 env a escrow w₁)
  handler_record_settlement-RecordsFollow rt blake3 a escrow w w₁ h v c o =
      Ensures-map (Writes blake3 env a escrow w₁)
        (λ w'. RecordSteps (record_of w k) (record_of w' k)) _ (λ w' d. ground arith)
        (handler_record_settlement-Writes rt blake3 env a escrow w₁)

  pub record_settlement-RecordsFollow :
      (rt : Runtime) (blake3 : List ℕ → ℕ) (a : RecordSettlement) (w : World)
      → RecordsFollow k w (record_settlement rt blake3 env a w)
  unfolding record_settlement
  record_settlement-RecordsFollow rt blake3 a w =
      grind (arith, init_account-fresh, handler_record_settlement-RecordsFollow rt blake3 a)
