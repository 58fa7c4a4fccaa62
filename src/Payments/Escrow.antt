-- ===== src/Payments/Escrow.antt =====
-- Every instruction on the payments program keeps in the job accounts what they must hold.
use taskforest_protocol.Prelude.{◌≤◌, ◌≢◌, true, ℕ, arith, List, Option, ◌≡◌, some}
use taskforest_protocol.State.{EscrowWrapper, payments_id}
use taskforest_protocol.Signature.{Sysvar}
use taskforest_protocol.Chain.{Env, IsLawful, Runtime, World, as_escrow, update, vacant}
use taskforest_protocol.Chain.Keeps.{
  init_account-fresh, move_lamports-SameData, pay_out-SameData, system_transfer-SameData,
}
use taskforest_protocol.Chain.Floors.{
  init_account_floor, move_lamports_floor, pay_out_floor, system_transfer_floor,
}
use taskforest_protocol.Escrow.{JobIsFunded, Funds, SignsFairly}
use taskforest_protocol.Payments.{
  handler_record_settlement, CreateEscrowWrapper, RecordSettlement, VerifyTeeAttestation,
  create_escrow_wrapper, delegate_to_per, record_payment, verify_tee_attestation, record_settlement,
}

module _ (k : ℕ) (env : Env) (rt : Runtime) (law : IsLawful rt) where
  pub create_escrow_wrapper-Funds :
      (a : CreateEscrowWrapper) (w : World)
      → JobIsFunded rt k w
      → SignsFairly rt env w
      → Funds rt k (create_escrow_wrapper rt env a w)
  unfolding create_escrow_wrapper
  create_escrow_wrapper-Funds a w funded fair = grind (
    arith,
    init_account-fresh,
    init_account_floor rt law k,
    fair.no_derived,
    fair.no_owned,
    system_transfer-SameData,
    system_transfer_floor rt law k,
  )

  pub delegate_to_per-Funds :
      (validator : Option ℕ) (escrow_id escrow payer : ℕ) (w : World)
      → JobIsFunded rt k w
      → SignsFairly rt env w
      → Funds rt k (delegate_to_per rt env validator escrow_id escrow payer w)
  unfolding delegate_to_per
  delegate_to_per-Funds validator escrow_id escrow payer w funded fair = ground arith

  pub record_payment-Funds :
      (escrow_id amount escrow caller : ℕ) (w : World)
      → JobIsFunded rt k w
      → SignsFairly rt env w
      → Funds rt k (record_payment rt env escrow_id amount escrow caller w)
  unfolding record_payment
  record_payment-Funds escrow_id amount escrow caller w funded fair = ground arith

  pub verify_tee_attestation-Funds :
      (sysvar : Sysvar) (a : VerifyTeeAttestation) (w : World)
      → JobIsFunded rt k w
      → SignsFairly rt env w
      → Funds rt k (verify_tee_attestation rt env sysvar a w)
  unfolding verify_tee_attestation
  verify_tee_attestation-Funds sysvar a w funded fair = ground arith

  handler_record_settlement-Funds :
      (blake3 : List ℕ → ℕ) (a : RecordSettlement) (escrow : EscrowWrapper) (w w₁ : World)
      → as_escrow (w.content a.escrow) ≡ some escrow
      → w.content a.settlement_record ≡ vacant
      → w₁.content ≡ w.content
      → w₁.owner ≡ update a.settlement_record payments_id w.owner
      → (k ≢ a.payer → w.lamports k ≤ w₁.lamports k)
      → env.signed a.payer ≡ true
      → JobIsFunded rt k w
      → SignsFairly rt env w
      → Funds rt k (handler_record_settlement rt blake3 env a escrow w₁)
  unfolding handler_record_settlement
  handler_record_settlement-Funds blake3 a escrow w w₁ h v c o grows signs funded fair =
      grind
        (arith, move_lamports-SameData, move_lamports_floor k, pay_out-SameData, pay_out_floor k)

  pub record_settlement-Funds :
      (blake3 : List ℕ → ℕ) (a : RecordSettlement) (w : World)
      → JobIsFunded rt k w
      → SignsFairly rt env w
      → Funds rt k (record_settlement rt blake3 env a w)
  unfolding record_settlement
  record_settlement-Funds blake3 a w funded fair = grind (
    arith,
    init_account-fresh,
    init_account_floor rt law k,
    fair.no_derived,
    fair.no_owned,
    handler_record_settlement-Funds blake3 a,
  )
