-- ===== src/Payments/Lifecycle.antt =====
-- Every instruction on the payments program changes the job accounts only as Lifecycle allows.
use taskforest_protocol.Prelude.{ℕ, arith, List, Option, ◌≡◌, some}
use taskforest_protocol.State.{EscrowWrapper, payments_id}
use taskforest_protocol.Signature.{Sysvar}
use taskforest_protocol.Chain.{vacant, as_escrow, update, World, Runtime, Env}
use taskforest_protocol.Chain.Keeps.{
  init_account-fresh, move_lamports-SameData, pay_out-SameData, system_transfer-SameData,
}
use taskforest_protocol.Lifecycle.{FollowsAt}
use taskforest_protocol.Payments.{
  handler_record_settlement, CreateEscrowWrapper, RecordSettlement, VerifyTeeAttestation,
  create_escrow_wrapper, delegate_to_per, record_payment, verify_tee_attestation, record_settlement,
}

module _ (k : ℕ) (env : Env) where
  pub create_escrow_wrapper-FollowsAt :
      (rt : Runtime) (a : CreateEscrowWrapper) (w : World)
      → FollowsAt k w (create_escrow_wrapper rt env a w)
  unfolding create_escrow_wrapper
  create_escrow_wrapper-FollowsAt rt a w =
      grind (arith, init_account-fresh, system_transfer-SameData)

  pub delegate_to_per-FollowsAt :
      (rt : Runtime) (validator : Option ℕ) (escrow_id escrow payer : ℕ) (w : World)
      → FollowsAt k w (delegate_to_per rt env validator escrow_id escrow payer w)
  unfolding delegate_to_per
  delegate_to_per-FollowsAt rt validator escrow_id escrow payer w = ground arith

  pub record_payment-FollowsAt :
      (rt : Runtime) (escrow_id amount escrow caller : ℕ) (w : World)
      → FollowsAt k w (record_payment rt env escrow_id amount escrow caller w)
  unfolding record_payment
  record_payment-FollowsAt rt escrow_id amount escrow caller w = ground arith

  pub verify_tee_attestation-FollowsAt :
      (rt : Runtime) (sysvar : Sysvar) (a : VerifyTeeAttestation) (w : World)
      → FollowsAt k w (verify_tee_attestation rt env sysvar a w)
  unfolding verify_tee_attestation
  verify_tee_attestation-FollowsAt rt sysvar a w = ground arith

  handler_record_settlement-FollowsAt :
      (rt : Runtime) (blake3 : List ℕ → ℕ) (a : RecordSettlement) (escrow : EscrowWrapper)
      (w w₁ : World)
      → as_escrow (w.content a.escrow) ≡ some escrow
      → w.content a.settlement_record ≡ vacant
      → w₁.content ≡ w.content
      → w₁.owner ≡ update a.settlement_record payments_id w.owner
      → FollowsAt k w (handler_record_settlement rt blake3 env a escrow w₁)
  unfolding handler_record_settlement
  handler_record_settlement-FollowsAt rt blake3 a escrow w w₁ h v c o =
      grind (arith, move_lamports-SameData, pay_out-SameData)

  pub record_settlement-FollowsAt :
      (rt : Runtime) (blake3 : List ℕ → ℕ) (a : RecordSettlement) (w : World)
      → FollowsAt k w (record_settlement rt blake3 env a w)
  unfolding record_settlement
  record_settlement-FollowsAt rt blake3 a w =
      grind (arith, init_account-fresh, handler_record_settlement-FollowsAt rt blake3 a)
