-- ===== src/Tests/Attested.antt =====
-- An attestation report for a job, and the call of the signature program before it.
use taskforest_protocol.Prelude.{◌≡◌, refl, true, arith, pos}
use taskforest_protocol.Errors.{ok, is_ok, Ensures}
use taskforest_protocol.Words.{to_le_bytes, from_le_bytes}
use taskforest_protocol.Bytes.{bytes_eq, read_number}
use taskforest_protocol.State.{localnet_tee_validator}
use taskforest_protocol.Chain.{Env}
use taskforest_protocol.Job.{new_job}
use taskforest_protocol.Signature.{
  Sysvar, verify_attestation_signature, read_header, check_header, is_allowed_validator,
}
use taskforest_protocol.Tee.{
  ParsedBidAttestationReport, parse_bid_attestation_report, VerifyBidAttestation,
  verify_bid_attestation,
}
use taskforest_protocol.Tee.RoundTrip.{Fits, print_report, parse-print_report}
use taskforest_protocol.Tee.Attested.{MarksAttested, verify_bid_attestation-Attests}
use taskforest_protocol.Tests.Setup.{signed_before, demo_terms, world_with}

abbrev report : ParsedBidAttestationReport
report = record {
  job_id = 7;
  poster = 1;
  validator = localnet_tee_validator;
  tee_pubkey = 77;
  issued_at = pos 10;
  expires_at = pos 90;
}

report-Fits : Fits report
report-Fits = record {
  job_id = omega arith;
  poster = omega arith;
  validator = omega arith;
  tee_pubkey = omega arith;
  issued_at = refl;
  expires_at = refl;
}

parse-print_report_example : parse_bid_attestation_report (print_report 5 6 7 report) ≡ ok report
parse-print_report_example = parse-print_report 5 6 7 report report-Fits

abbrev sysvar : Sysvar
sysvar = signed_before localnet_tee_validator (print_report 5 6 7 report)

abbrev attestation : VerifyBidAttestation
attestation = record {
  attestation_report = print_report 5 6 7 report;
  tee_pubkey = 77;
  job = 50;
  validator = localnet_tee_validator;
  payer = 1;
}

abbrev env : Env
env = record { signed = λ k. true; now = pos 20 }

attestation_is_accepted :
    is_ok (verify_bid_attestation env sysvar attestation (world_with (new_job demo_terms 1 255)))
    ≡ true
unfolding verify_bid_attestation parse_bid_attestation_report verify_attestation_signature
    read_header check_header is_allowed_validator bytes_eq read_number to_le_bytes from_le_bytes
attestation_is_accepted = refl

verify_bid_attestation-Attests_example :
    Ensures
      (MarksAttested env sysvar attestation (world_with (new_job demo_terms 1 255)))
      (verify_bid_attestation env sysvar attestation (world_with (new_job demo_terms 1 255)))
verify_bid_attestation-Attests_example =
    verify_bid_attestation-Attests env sysvar attestation (world_with (new_job demo_terms 1 255))
