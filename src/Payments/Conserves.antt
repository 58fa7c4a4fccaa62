-- ===== src/Payments/Conserves.antt =====
-- No instruction on the payments program makes or loses lamports.
use taskforest_protocol.Prelude.{ℕ, ◌≡◌, arith, List, Option}
use taskforest_protocol.State.{EscrowWrapper}
use taskforest_protocol.Signature.{Sysvar}
use taskforest_protocol.Chain.{Env, IsLawful, Runtime, World}
use taskforest_protocol.Chain.Ledger.{count}
use taskforest_protocol.Chain.Keeps.{
  Conserves, init_account-Conserves, move_lamports-Conserves, pay_out-Conserves,
  system_transfer-Conserves,
}
use taskforest_protocol.Payments.{
  CreateEscrowWrapper, RecordSettlement, VerifyTeeAttestation, create_escrow_wrapper,
  delegate_to_per, handler_record_settlement, record_payment, record_settlement,
  verify_tee_attestation,
}

module _ (ks : List ℕ) (env : Env) where
  pub create_escrow_wrapper-Conserves :
      (rt : Runtime)
      → IsLawful rt
      → (a : CreateEscrowWrapper) (w : World) → count a.poster ks ≡ 1
      → count a.escrow ks ≡ 1
      → Conserves ks w (create_escrow_wrapper rt env a w)
  unfolding create_escrow_wrapper
  create_escrow_wrapper-Conserves rt law a w h0 h1 = grind (
    arith,
    init_account-Conserves ks a.poster a.escrow h0 h1 rt law,
    system_transfer-Conserves ks a.poster a.escrow h0 h1 rt law,
  )

  pub delegate_to_per-Conserves :
      (rt : Runtime) (validator : Option ℕ) (escrow_id escrow payer : ℕ) (w : World)
      → Conserves ks w (delegate_to_per rt env validator escrow_id escrow payer w)
  unfolding delegate_to_per
  delegate_to_per-Conserves rt validator escrow_id escrow payer w = ground arith

  pub record_payment-Conserves :
      (rt : Runtime) (escrow_id amount escrow caller : ℕ) (w : World)
      → Conserves ks w (record_payment rt env escrow_id amount escrow caller w)
  unfolding record_payment
  record_payment-Conserves rt escrow_id amount escrow caller w = ground arith

  pub verify_tee_attestation-Conserves :
      (rt : Runtime) (sysvar : Sysvar) (a : VerifyTeeAttestation) (w : World)
      → Conserves ks w (verify_tee_attestation rt env sysvar a w)
  unfolding verify_tee_attestation
  verify_tee_attestation-Conserves rt sysvar a w = ground arith

  handler_record_settlement-Conserves :
      (rt : Runtime) (blake3 : List ℕ → ℕ) (a : RecordSettlement) (escrow : EscrowWrapper)
      (w : World)
      → count a.escrow ks ≡ 1
      → count a.poster ks ≡ 1
      → count a.agent ks ≡ 1
      → Conserves ks w (handler_record_settlement rt blake3 env a escrow w)
  unfolding handler_record_settlement
  handler_record_settlement-Conserves rt blake3 a escrow w he hp ha = grind (
    arith,
    move_lamports-Conserves ks a.escrow a.agent he ha,
    pay_out-Conserves ks a.escrow a.poster he hp,
  )

  pub record_settlement-Conserves :
      (rt : Runtime)
      → IsLawful rt
      → (blake3 : List ℕ → ℕ) (a : RecordSettlement) (w : World) → count a.escrow ks ≡ 1
      → count a.settlement_record ks ≡ 1
      → count a.poster ks ≡ 1
      → count a.agent ks ≡ 1
      → count a.payer ks ≡ 1
      → Conserves ks w (record_settlement rt blake3 env a w)
  unfolding record_settlement
  record_settlement-Conserves rt law blake3 a w h0 h1 h2 h3 h4 = grind (
    arith,
    init_account-Conserves ks a.payer a.settlement_record h4 h1 rt law,
    handler_record_settlement-Conserves rt blake3 a,
  )
