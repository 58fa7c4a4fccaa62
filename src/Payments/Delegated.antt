-- ===== src/Payments/Delegated.antt =====
-- What a delegation takes from the base layer: `handler_delegate_to_per` of
-- programs/taskforest-payments/src/instructions/payment.rs hands the escrow's account to the delegation
-- program.
use taskforest_protocol.Prelude.{ℕ, ◌≡◌, true, false, Option, List, arith}
use taskforest_protocol.Errors.{ok, is_ok}
use taskforest_protocol.Chain.{World, Runtime, Env}
use taskforest_protocol.Signature.{Sysvar}
use taskforest_protocol.Payments.{
  VerifyTeeAttestation, RecordSettlement, delegate_to_per, record_payment, verify_tee_attestation,
  record_settlement,
}

-- Every call on the escrow at this address fails, whoever signs and whenever it comes.
pub record EscrowIsLocked (rt : Runtime) (blake3 : List ℕ → ℕ) (key : ℕ) (w : World) : Type 0 where
  pub no_payment :
      (env : Env) (escrow_id amount caller : ℕ)
      → is_ok (record_payment rt env escrow_id amount key caller w) ≡ false
  pub no_session :
      (env : Env) (sysvar : Sysvar) (a : VerifyTeeAttestation)
      → a.escrow ≡ key
      → is_ok (verify_tee_attestation rt env sysvar a w) ≡ false
  pub no_settlement :
      (env : Env) (a : RecordSettlement)
      → a.escrow ≡ key
      → is_ok (record_settlement rt blake3 env a w) ≡ false
  pub no_second :
      (env : Env) (validator : Option ℕ) (escrow_id payer : ℕ)
      → is_ok (delegate_to_per rt env validator escrow_id key payer w) ≡ false

away-EscrowIsLocked :
    (rt : Runtime) (blake3 : List ℕ → ℕ) (key : ℕ) (w : World)
    → w.away key ≡ true
    → EscrowIsLocked rt blake3 key w
unfolding record_payment verify_tee_attestation record_settlement delegate_to_per
away-EscrowIsLocked rt blake3 key w away = record {
  no_payment = λ env escrow_id amount caller. ground arith;
  no_session = λ env sysvar a same. ground (arith, same);
  no_settlement = λ env a same. ground (arith, same);
  no_second = λ env validator escrow_id payer. ground arith;
}

-- An escrow that is delegated keeps its data and its lamports, and on the base layer it is locked:
-- in the world after the call no payment, attestation, settlement or second delegation of it
-- succeeds, whoever signs.
pub delegate_to_per_locks :
    (rt : Runtime) (blake3 : List ℕ → ℕ) (env : Env) (validator : Option ℕ)
    (escrow_id key payer : ℕ) (w w' : World)
    → delegate_to_per rt env validator escrow_id key payer w ≡ ok w'
    → (w'.content key ≡ w.content key)
      × (w'.lamports key ≡ w.lamports key)
      × EscrowIsLocked rt blake3 key w'
unfolding delegate_to_per
delegate_to_per_locks rt blake3 env validator escrow_id key payer w w' h =
    let away : w'.away key ≡ true = ground (arith, h) in
    (ground (arith, h), ground (arith, h), away-EscrowIsLocked rt blake3 key w' away)
