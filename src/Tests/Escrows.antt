-- ===== src/Tests/Escrows.antt =====
-- An escrow, the attestation that starts its session, a payment and the settlement.
use taskforest_protocol.Prelude.{
  inl, leb, ℕ, ◌+◌, ◌≡◌, ◌≢◌, refl, true, some, arith, pos, if◌then◌else◌,
}
use taskforest_protocol.Errors.{err, payments, budget_exceeded, ok, is_ok, Ensures}
use taskforest_protocol.Words.{u32_max, saturating_sum, to_le_bytes, from_le_bytes}
use taskforest_protocol.Bytes.{bytes_eq, read_number}
use taskforest_protocol.State.{
  EscrowWrapper, payments_id, active, delegated, settled, localnet_tee_validator,
}
use taskforest_protocol.Chain.{store, World, escrow_account, update, as_escrow, as_record}
use taskforest_protocol.Signature.{
  Sysvar, verify_attestation_signature, read_header, check_header, is_allowed_validator,
}
use taskforest_protocol.Payments.{
  ParsedAttestationReport, parse_attestation_report, VerifyTeeAttestation, verify_tee_attestation,
  escrow_seeds, record_payment, RecordSettlement, handler_record_settlement, settlement_preimage,
}
use taskforest_protocol.Payments.RoundTrip
use taskforest_protocol.Payments.RoundTrip.{parse-print_escrow_report}
use taskforest_protocol.Payments.Attested.{StartsSession, verify_tee_attestation-Attests}
use taskforest_protocol.Payments.Budget.{PaysFairly, record_payment_in_budget}
use taskforest_protocol.Payments.Payouts.{handler_record_settlement_pays}
use taskforest_protocol.Tests.Setup.{signed_before, address_of, demo_runtime, at_time, empty_world}

abbrev escrow : EscrowWrapper
escrow = record {
  escrow_id = 4;
  job_pubkey = 50;
  poster = 1;
  agent = 2;
  validator = localnet_tee_validator;
  deposited = 3000;
  status = delegated;
  tee_pubkey = 77;
  tee_verified = true;
  mpp_session_id = 9;
  total_paid = 1200;
  request_count = 6;
  created_at = pos 5;
}

abbrev escrow_world : World
escrow_world = record empty_world {
  lamports = update 70 3338 empty_world.lamports;
  owner = update 70 payments_id empty_world.owner;
  content = update 70 (escrow_account escrow) empty_world.content;
}

abbrev settlement : RecordSettlement
settlement = record {
  escrow_id = 4;
  escrow = 70;
  settlement_record = 71;
  poster = 1;
  agent = 2;
  payer = 8;
}

handler_record_settlement_pays_example :
    (w' : World) × (handler_record_settlement demo_runtime from_le_bytes
        (at_time 50)
        settlement
        escrow
        escrow_world
      ≡ ok w')
    × (w'.lamports 2 ≡ escrow_world.lamports 2 + 1200)
    × (w'.lamports 1 + 1200 ≡ escrow_world.lamports 1 + 3000)
    × (w'.lamports 70 + 3000 ≡ escrow_world.lamports 70)
    × ((q : ℕ) → q ≢ 70 → q ≢ 2 → q ≢ 1 → w'.lamports q ≡ escrow_world.lamports q)
    × (as_escrow (w'.content 70) ≡ some (record escrow { status = settled }))
    × (as_record (w'.content 71)
        ≡ some (record {
          escrow_id = 4;
          job_pubkey = 50;
          poster = 1;
          agent = 2;
          total_deposited = 3000;
          total_paid = 1200;
          settled_at = pos 50;
          settlement_hash = from_le_bytes (settlement_preimage escrow 1200 (pos 50));
        }))
handler_record_settlement_pays_example =
    handler_record_settlement_pays demo_runtime from_le_bytes (at_time 50) settlement escrow
      escrow_world (omega arith) refl (omega arith) (omega arith) (omega arith) (omega arith)
      (omega arith) (omega arith) (omega arith)

-- Wallet 2 is the agent, and the escrow stands at its derived address.
abbrev escrow_key : ℕ
escrow_key = address_of (escrow_seeds 4) payments_id

abbrev session_world : World
session_world = record empty_world {
  owner = update escrow_key payments_id empty_world.owner;
  content = update escrow_key (escrow_account escrow) empty_world.content;
}

payment-PaysFairly : PaysFairly demo_runtime (at_time 40) session_world escrow escrow_key 2 300
unfolding escrow_seeds to_le_bytes
payment-PaysFairly = record {
  owned = refl;
  at_hand = refl;
  loaded = refl;
  own_address = refl;
  in_session = refl;
  signs = refl;
  party = inl refl;
  positive = omega arith;
}

record_payment_in_budget_example :
    record_payment demo_runtime (at_time 40) 4 300 escrow_key 2 session_world ≡ (
      if leb (1200 + 300) 3000
      then ok (
          store escrow_key
            (escrow_account (record escrow {
              total_paid = 1200 + 300;
              request_count = saturating_sum u32_max 6 1;
            }))
            session_world)
      else err (payments budget_exceeded))
record_payment_in_budget_example =
    record_payment_in_budget demo_runtime (at_time 40) session_world escrow escrow_key 2 300
      payment-PaysFairly (omega arith)

-- The session of this escrow is attested while it waits.
abbrev escrow_report : ParsedAttestationReport
escrow_report = record {
  escrow_id = 4;
  job_pubkey = 50;
  validator = localnet_tee_validator;
  tee_pubkey = 77;
  mpp_session_id = 9;
  issued_at = pos 10;
  expires_at = pos 90;
}

escrow_report-Fits : RoundTrip.Fits escrow_report
escrow_report-Fits = record {
  escrow_id = omega arith;
  job_pubkey = omega arith;
  validator = omega arith;
  tee_pubkey = omega arith;
  mpp_session_id = omega arith;
  issued_at = refl;
  expires_at = refl;
}

parse-print_escrow_report_example :
    parse_attestation_report (RoundTrip.print_report 5 6 7 escrow_report) ≡ ok escrow_report
parse-print_escrow_report_example = parse-print_escrow_report 5 6 7 escrow_report escrow_report-Fits

abbrev escrow_attestation : VerifyTeeAttestation
escrow_attestation = record {
  escrow_id = 4;
  attestation_report = RoundTrip.print_report 5 6 7 escrow_report;
  tee_pubkey = 77;
  escrow = escrow_key;
  validator = localnet_tee_validator;
  payer = 1;
}

abbrev escrow_sysvar : Sysvar
escrow_sysvar = signed_before localnet_tee_validator (RoundTrip.print_report 5 6 7 escrow_report)

abbrev waiting_world : World
waiting_world = store escrow_key (escrow_account (record escrow { status = active })) session_world

escrow_attestation_is_accepted :
    is_ok (
      verify_tee_attestation demo_runtime
        (at_time 20)
        escrow_sysvar
        escrow_attestation
        waiting_world)
    ≡ true
unfolding verify_tee_attestation parse_attestation_report verify_attestation_signature escrow_seeds
    read_header check_header is_allowed_validator bytes_eq read_number to_le_bytes from_le_bytes
escrow_attestation_is_accepted = refl

verify_tee_attestation-Attests_example :
    Ensures
      (StartsSession demo_runtime (at_time 20) escrow_sysvar escrow_attestation waiting_world)
      (verify_tee_attestation demo_runtime
        (at_time 20)
        escrow_sysvar
        escrow_attestation
        waiting_world)
verify_tee_attestation-Attests_example =
    verify_tee_attestation-Attests demo_runtime (at_time 20) escrow_sysvar escrow_attestation
      waiting_world
