-- ===== src/Payments/Attested.antt =====
-- What `handler_verify_tee_attestation` of programs/taskforest-payments/src/instructions/payment.rs
-- establishes when it succeeds.
use taskforest_protocol.Prelude.{◌≡◌, true, arith, ◌≤ℤ◌}
use taskforest_protocol.Errors.{
  ok, payments, Ensures, Ensures-bind, Ensures-require, Ensures-map, Ensures-elim, PaymentsError,
  account_not_signer,
}
use taskforest_protocol.State.{EscrowWrapper, active, delegated}
use taskforest_protocol.Chain.{World, Runtime, Env, store, escrow_account}
use taskforest_protocol.Signature.{Sysvar, is_allowed_validator}
use taskforest_protocol.Signature.Sound.{SignedBy, verify_attestation_signature-SignedBy}
use taskforest_protocol.Payments.{
  ParsedAttestationReport, parse_attestation_report, verify_report_signature, VerifyTeeAttestation,
  verify_tee_attestation, load_escrow,
}

-- An allowed validator has signed a report that names this escrow, its job and session, this key
-- and itself, and that holds now.
pub record AttestsEscrow (env : Env) (sysvar : Sysvar) (a : VerifyTeeAttestation)
    (escrow : EscrowWrapper) (r : ParsedAttestationReport) : Type 0 where
  pub parsed : parse_attestation_report a.attestation_report ≡ ok r
  pub right_escrow : r.escrow_id ≡ escrow.escrow_id
  pub right_job : r.job_pubkey ≡ escrow.job_pubkey
  pub right_session : r.mpp_session_id ≡ escrow.mpp_session_id
  pub right_key : r.tee_pubkey ≡ a.tee_pubkey
  pub right_validator : r.validator ≡ a.validator
  pub allowed : is_allowed_validator a.validator ≡ true
  pub signed_report : SignedBy sysvar a.validator a.attestation_report
  pub validator_signs : env.signed a.validator ≡ true
  pub issued : r.issued_at ≤ℤ env.now
  pub not_expired : env.now ≤ℤ r.expires_at
  pub not_started : escrow.status ≡ active

-- The escrow in session with this validator and key.
abbrev pub in_session : VerifyTeeAttestation → EscrowWrapper → EscrowWrapper
in_session a escrow = record escrow {
  tee_pubkey = a.tee_pubkey;
  validator = a.validator;
  tee_verified = true;
  status = delegated;
}

-- What the handler checks after the report is parsed, and what it writes.
record Checked (env : Env) (sysvar : Sysvar) (a : VerifyTeeAttestation) (w : World)
    (escrow : EscrowWrapper) (r : ParsedAttestationReport) (w' : World) : Type 0 where
  same_escrow : r.escrow_id ≡ escrow.escrow_id
  same_job : r.job_pubkey ≡ escrow.job_pubkey
  same_session : r.mpp_session_id ≡ escrow.mpp_session_id
  same_key : r.tee_pubkey ≡ a.tee_pubkey
  same_validator : r.validator ≡ a.validator
  listed : is_allowed_validator a.validator ≡ true
  verified : verify_report_signature sysvar a.validator a.attestation_report ≡ ok tt
  after_issue : r.issued_at ≤ℤ env.now
  before_expiry : env.now ≤ℤ r.expires_at
  waiting : escrow.status ≡ active
  written : w' ≡ store a.escrow (escrow_account (in_session a escrow)) w

Checked-AttestsEscrow :
    (env : Env) (sysvar : Sysvar) (a : VerifyTeeAttestation) (w w' : World) (escrow : EscrowWrapper)
    (r : ParsedAttestationReport)
    → env.signed a.validator ≡ true
    → parse_attestation_report a.attestation_report ≡ ok r
    → Checked env sysvar a w escrow r w'
    → AttestsEscrow env sysvar a escrow r
Checked-AttestsEscrow env sysvar a w w' escrow r signs parsed c = record {
  parsed = parsed;
  right_escrow = c.same_escrow;
  right_job = c.same_job;
  right_session = c.same_session;
  right_key = c.same_key;
  right_validator = c.same_validator;
  allowed = c.listed;
  signed_report =
      Ensures-elim (λ u. SignedBy sysvar a.validator a.attestation_report) c.verified
        (verify_attestation_signature-SignedBy
          (payments PaymentsError.invalid_attestation_signature) sysvar a.validator
          a.attestation_report);
  validator_signs = signs;
  issued = c.after_issue;
  not_expired = c.before_expiry;
  not_started = c.waiting;
}

-- The escrow was there at its own address, some report attests it, and only its session starts.
abbrev pub StartsSession : Runtime → Env → Sysvar → VerifyTeeAttestation → World → World → Type 0
StartsSession rt env sysvar a w w' =
    (escrow : EscrowWrapper) × (r : ParsedAttestationReport) × (load_escrow rt a.escrow_id a.escrow
        w
      ≡ ok escrow)
    × AttestsEscrow env sysvar a escrow r
    × (w' ≡ store a.escrow (escrow_account (in_session a escrow)) w)

-- An attestation that is accepted starts the session of an escrow that was active, at its own
-- address, under a report that the parser reads, that names this escrow, its job, its session, the
-- key and the validator, that holds at this moment, and that a call of the signature program just
-- before this instruction holds together with the key of that validator, an allowed one. The escrow
-- is then delegated to that validator with that key, and nothing else changes.
pub verify_tee_attestation-Attests :
    (rt : Runtime) (env : Env) (sysvar : Sysvar) (a : VerifyTeeAttestation) (w : World)
    → Ensures (StartsSession rt env sysvar a w) (verify_tee_attestation rt env sysvar a w)
unfolding verify_tee_attestation
verify_tee_attestation-Attests rt env sysvar a w =
    Ensures-bind _ (load_escrow rt a.escrow_id a.escrow w) _ λ escrow loaded.
      Ensures-require _ (env.signed a.validator) account_not_signer _ λ signs.
        Ensures-require _ (env.signed a.payer) account_not_signer _ λ payer_signs.
          Ensures-bind _ (parse_attestation_report a.attestation_report) _ λ r parsed.
            Ensures-map (Checked env sysvar a w escrow r) (StartsSession rt env sysvar a w) _
              (λ w' c. (
                escrow,
                r,
                loaded,
                Checked-AttestsEscrow env sysvar a w w' escrow r signs parsed c,
                c.written,
              ))
              (ground arith)
