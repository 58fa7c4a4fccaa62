-- ===== src/Payments/RoundTrip.antt =====
-- The report that `parse_attestation_report` of
-- programs/taskforest-payments/src/instructions/payment.rs reads, printed and read back.
use taskforest_protocol.Prelude.{
  ℕ, ◌^◌, ◌<◌, ◌≡◌, refl, true, List, [], ◌∷◌, ◌++◌, arith, length, ◌==◌,
}
use taskforest_protocol.Errors.{Error, ok}
use taskforest_protocol.Words.{fits_i64}
use taskforest_protocol.Bytes.{read_number, of_i64, has_magic, has_byte, bytes_eq}
use taskforest_protocol.Bytes.RoundTrip.{
  print_fields, length-print_fields, read_number-field, to_i64-of_i64, of_i64-small,
}
use taskforest_protocol.Payments.{
  ParsedAttestationReport, parse_attestation_report, attestation_magic, attestation_version,
  invalid_report,
}

-- The values that the fields have room for.
pub record Fits (r : ParsedAttestationReport) : Type 0 where
  pub escrow_id : r.escrow_id < 256 ^ 8
  pub job_pubkey : r.job_pubkey < 256 ^ 32
  pub validator : r.validator < 256 ^ 32
  pub tee_pubkey : r.tee_pubkey < 256 ^ 32
  pub mpp_session_id : r.mpp_session_id < 256 ^ 32
  pub issued_at : fits_i64 r.issued_at ≡ true
  pub expires_at : fits_i64 r.expires_at ≡ true

-- Magic, version, three bytes that are not read.
abbrev header : ℕ → ℕ → ℕ → List ℕ
header x y z = b'T' ∷ b'F' ∷ b'A' ∷ b'T' ∷ attestation_version ∷ x ∷ y ∷ z ∷ []

abbrev fields : ParsedAttestationReport → List (ℕ × ℕ)
fields r =
    (8, r.escrow_id)
    ∷ (32, r.job_pubkey)
    ∷ (32, r.validator)
    ∷ (32, r.tee_pubkey)
    ∷ (32, r.mpp_session_id)
    ∷ (8, of_i64 r.issued_at)
    ∷ (8, of_i64 r.expires_at)
    ∷ []

-- The report of these values, with any three bytes in the gap after the version.
abbrev pub print_report : ℕ → ℕ → ℕ → ParsedAttestationReport → List ℕ
print_report x y z r = header x y z ++ print_fields (fields r)

module _ (x y z : ℕ) (r : ParsedAttestationReport) (fits : Fits r) where
  length-print_report : length (print_report x y z r) ≡ 160
  length-print_report = omega (arith, length-print_fields (fields r))

  print_report-guards :
      ((length (print_report x y z r) == 160) ≡ true)
      × (has_magic attestation_magic 4 (print_report x y z r) ≡ true)
      × (has_byte 4 attestation_version (print_report x y z r) ≡ true)
  unfolding bytes_eq
  print_report-guards = (
    ground (arith, length-print_report),
    ground (arith, length-print_report),
    ground (arith, length-print_report),
  )

  -- Every report on an escrow with the magic, the version and values that fit is read back as those
  -- values, whatever stands in the three bytes after the version.
  pub parse-print_escrow_report : parse_attestation_report (print_report x y z r) ≡ ok r
  unfolding parse_attestation_report
  parse-print_escrow_report =
      let e : Error = invalid_report in
      let report = print_report x y z r in
      let field = read_number-field e (header x y z) (fields r) in
      let (whole, magic, version) = print_report-guards in
      let field_0 : read_number e 8 report 8 ≡ ok r.escrow_id =
        field 0 8 r.escrow_id refl fits.escrow_id in
      let field_1 : read_number e 32 report 16 ≡ ok r.job_pubkey =
        field 1 32 r.job_pubkey refl fits.job_pubkey in
      let field_2 : read_number e 32 report 48 ≡ ok r.validator =
        field 2 32 r.validator refl fits.validator in
      let field_3 : read_number e 32 report 80 ≡ ok r.tee_pubkey =
        field 3 32 r.tee_pubkey refl fits.tee_pubkey in
      let field_4 : read_number e 32 report 112 ≡ ok r.mpp_session_id =
        field 4 32 r.mpp_session_id refl fits.mpp_session_id in
      let field_5 : read_number e 8 report 144 ≡ ok (of_i64 r.issued_at) =
        field 5 8 (of_i64 r.issued_at) refl (of_i64-small r.issued_at fits.issued_at) in
      let field_6 : read_number e 8 report 152 ≡ ok (of_i64 r.expires_at) =
        field 6 8 (of_i64 r.expires_at) refl (of_i64-small r.expires_at fits.expires_at) in
      rw
        (
          whole,
          magic,
          version,
          field_0,
          field_1,
          field_2,
          field_3,
          field_4,
          field_5,
          field_6,
          to_i64-of_i64 r.issued_at fits.issued_at,
          to_i64-of_i64 r.expires_at fits.expires_at,
        )
        refl
