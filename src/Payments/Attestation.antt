-- ===== src/Payments/Attestation.antt =====
-- The attestation report of the payments program and the check of its signature:
-- `parse_attestation_report` and `verify_attestation_signature` of
-- programs/taskforest-payments/src/instructions/payment.rs.
use taskforest_protocol.Prelude.{ℕ, List, [], ◌∷◌, ℤ, length, ◌==◌}
use taskforest_protocol.Errors.{Error, Result, ok, ◌>>=◌, ◌>>◌, require, payments, PaymentsError}
use taskforest_protocol.Signature.{Sysvar, verify_attestation_signature}
use taskforest_protocol.Bytes.{read_number, to_i64, has_magic, has_byte}

-- TFAT
abbrev pub attestation_magic : List ℕ
attestation_magic = b'T' ∷ b'F' ∷ b'A' ∷ b'T' ∷ []

abbrev pub attestation_version : ℕ
attestation_version = 1

abbrev pub attestation_report_len : ℕ
attestation_report_len = 160

pub record ParsedAttestationReport : Type 0 where
  pub escrow_id : ℕ
  pub job_pubkey : ℕ
  pub validator : ℕ
  pub tee_pubkey : ℕ
  pub mpp_session_id : ℕ
  pub issued_at : ℤ
  pub expires_at : ℤ

abbrev pub invalid_report : Error
invalid_report = payments PaymentsError.invalid_attestation

-- The readers of the fields, of 8 and of 32 bytes.
abbrev pub read_u64 : List ℕ → ℕ → Result ℕ
read_u64 bytes start = read_number invalid_report 8 bytes start

abbrev pub read_i64 : List ℕ → ℕ → Result ℤ
read_i64 bytes start = do n ← read_number invalid_report 8 bytes start; ok (to_i64 n)

abbrev pub read_pubkey : List ℕ → ℕ → Result ℕ
read_pubkey bytes start = read_number invalid_report 32 bytes start

abbrev pub read_bytes32 : List ℕ → ℕ → Result ℕ
read_bytes32 bytes start = read_number invalid_report 32 bytes start

-- The check of the signature that the validator gave over the report: the code of the two programs
-- differs in its errors alone.
abbrev pub verify_report_signature : Sysvar → ℕ → List ℕ → Result (Unit {0})
verify_report_signature sysvar validator report =
    verify_attestation_signature (payments PaymentsError.invalid_attestation_signature) sysvar
      validator report

unfoldable pub parse_attestation_report : List ℕ → Result ParsedAttestationReport
parse_attestation_report report = do
  require (length report == attestation_report_len) invalid_report
  require (has_magic attestation_magic 4 report) invalid_report
  require (has_byte 4 attestation_version report) invalid_report
  escrow_id ← read_u64 report 8
  job_pubkey ← read_pubkey report 16
  validator ← read_pubkey report 48
  tee_pubkey ← read_bytes32 report 80
  mpp_session_id ← read_bytes32 report 112
  issued_at ← read_i64 report 144
  expires_at ← read_i64 report 152
  ok (record {
    escrow_id = escrow_id;
    job_pubkey = job_pubkey;
    validator = validator;
    tee_pubkey = tee_pubkey;
    mpp_session_id = mpp_session_id;
    issued_at = issued_at;
    expires_at = expires_at;
  })
