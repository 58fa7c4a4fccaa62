-- ===== src/Payments/Sound.antt =====
-- Every instruction on the payments program keeps all accounts sound.
use taskforest_protocol.Prelude.{ℕ, arith, List, Option, ◌≡◌, some}
use taskforest_protocol.State.{EscrowWrapper, payments_id}
use taskforest_protocol.Signature.{Sysvar}
use taskforest_protocol.Chain.{Env, Runtime, World, as_escrow, update, vacant}
use taskforest_protocol.Chain.Keeps.{init_account-fresh, system_transfer-SameData}
use taskforest_protocol.Errors.{Ensures-map}
use taskforest_protocol.Payments.Data.{Writes, handler_record_settlement-Writes}
use taskforest_protocol.Accounts.{AccountIsSound, StaysSound}
use taskforest_protocol.Payments.{
  settlement_seeds, handler_record_settlement, CreateEscrowWrapper, RecordSettlement,
  VerifyTeeAttestation, create_escrow_wrapper, delegate_to_per, record_payment,
  verify_tee_attestation, record_settlement,
}

module _ (k : ℕ) (env : Env) (rt : Runtime) where
  pub create_escrow_wrapper-StaysSound :
      (a : CreateEscrowWrapper) (w : World)
      → AccountIsSound rt k w
      → StaysSound rt k (create_escrow_wrapper rt env a w)
  unfolding create_escrow_wrapper
  create_escrow_wrapper-StaysSound a w sound =
      grind (arith, init_account-fresh, system_transfer-SameData)

  pub delegate_to_per-StaysSound :
      (validator : Option ℕ) (escrow_id escrow payer : ℕ) (w : World)
      → AccountIsSound rt k w
      → StaysSound rt k (delegate_to_per rt env validator escrow_id escrow payer w)
  unfolding delegate_to_per
  delegate_to_per-StaysSound validator escrow_id escrow payer w sound = ground arith

  pub record_payment-StaysSound :
      (escrow_id amount escrow caller : ℕ) (w : World)
      → AccountIsSound rt k w
      → StaysSound rt k (record_payment rt env escrow_id amount escrow caller w)
  unfolding record_payment
  record_payment-StaysSound escrow_id amount escrow caller w sound = ground arith

  pub verify_tee_attestation-StaysSound :
      (sysvar : Sysvar) (a : VerifyTeeAttestation) (w : World)
      → AccountIsSound rt k w
      → StaysSound rt k (verify_tee_attestation rt env sysvar a w)
  unfolding verify_tee_attestation
  verify_tee_attestation-StaysSound sysvar a w sound = ground arith

  handler_record_settlement-StaysSound :
      (blake3 : List ℕ → ℕ) (a : RecordSettlement) (escrow : EscrowWrapper) (w w₁ : World)
      → as_escrow (w.content a.escrow) ≡ some escrow
      → w.content a.settlement_record ≡ vacant
      → w₁.content ≡ w.content
      → w₁.owner ≡ update a.settlement_record payments_id w.owner
      → a.settlement_record ≡ rt.find_address (settlement_seeds a.escrow_id) payments_id
      → AccountIsSound rt k w
      → StaysSound rt k (handler_record_settlement rt blake3 env a escrow w₁)
  handler_record_settlement-StaysSound blake3 a escrow w w₁ h v c o address sound =
      Ensures-map (Writes blake3 env a escrow w₁) (AccountIsSound rt k) _ (λ w' d. ground arith)
        (handler_record_settlement-Writes rt blake3 env a escrow w₁)

  pub record_settlement-StaysSound :
      (blake3 : List ℕ → ℕ) (a : RecordSettlement) (w : World)
      → AccountIsSound rt k w
      → StaysSound rt k (record_settlement rt blake3 env a w)
  unfolding record_settlement
  record_settlement-StaysSound blake3 a w sound =
      grind (arith, init_account-fresh, handler_record_settlement-StaysSound blake3 a)
