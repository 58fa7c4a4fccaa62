-- ===== src/Tests/Calls.antt =====
-- The calls of two runs of both programs from a world without their accounts. Wallet 1 posts a job and
-- assigns it to wallet 2. In the one, it opens an escrow for the job, whose session starts and takes a
-- payment, and which is settled; in the other, wallet 2 submits a proof, wallet 3 disputes it and wallet
-- 4 votes on the dispute.
use taskforest_protocol.Prelude.{List, ℕ, pos, true}
use taskforest_protocol.Errors.{Result, ok, err}
use taskforest_protocol.State.{DisputeRecord, taskforest_id, payments_id}
use taskforest_protocol.State.{
  Job, status_submitted, localnet_tee_validator, EscrowWrapper, delegated,
}
use taskforest_protocol.Chain.{World}
use taskforest_protocol.Job.{JobTerms, new_job, job_seeds}
use taskforest_protocol.Proof.{VerifiedProof}
use taskforest_protocol.Dispute.{OpenDispute, dispute_seeds, vote_seeds}
use taskforest_protocol.Payments.{
  VerifyTeeAttestation, CreateEscrowWrapper, RecordSettlement, escrow_seeds, settlement_seeds,
}
use taskforest_protocol.Payments.RoundTrip.{print_report}
use taskforest_protocol.Program.{
  Instruction, task, payment, initialize_job, auto_assign_job, submit_verified_proof, open_dispute,
  cast_vote, create_escrow_wrapper, verify_tee_attestation, record_payment, record_settlement,
  execute,
}
use taskforest_protocol.Tests.Setup.{
  signed_before, demo_services, empty_world, at_time, address_of, demo_terms,
}

abbrev pub job_key : ℕ
job_key = address_of (job_seeds 1 7) taskforest_id

abbrev pub dispute_key : ℕ
dispute_key = address_of (dispute_seeds job_key 0) taskforest_id

abbrev pub vote_key : ℕ
vote_key = address_of (vote_seeds dispute_key 4) taskforest_id

abbrev pub escrow_key : ℕ
escrow_key = address_of (escrow_seeds 4) payments_id

abbrev pub record_key : ℕ
record_key = address_of (settlement_seeds 4) payments_id

abbrev pub run_terms : JobTerms
run_terms = record demo_terms { assignment_mode = 1 }

abbrev deposit : CreateEscrowWrapper
deposit = record {
  escrow_id = 4;
  deposit_lamports = 3000;
  mpp_session_id = 9;
  job = job_key;
  escrow = escrow_key;
  poster = 1;
}

abbrev report : List ℕ
report = print_report 5 6 7 (record {
  escrow_id = 4;
  job_pubkey = job_key;
  validator = localnet_tee_validator;
  tee_pubkey = 77;
  mpp_session_id = 9;
  issued_at = pos 10;
  expires_at = pos 90;
})

abbrev attestation : VerifyTeeAttestation
attestation = record {
  escrow_id = 4;
  attestation_report = report;
  tee_pubkey = 77;
  escrow = escrow_key;
  validator = localnet_tee_validator;
  payer = 1;
}

abbrev proof : VerifiedProof
proof = record { proof_hash = 99; receipt_root = 5; receipt_uri = 0; attestation_hash = 6 }

abbrev challenge : OpenDispute
challenge = record {
  disputed_thread = 0;
  challenger_receipt_hash = 3;
  evidence_uri = 0;
  job = job_key;
  dispute = dispute_key;
  challenger = 3;
}

abbrev pub settlement : RecordSettlement
settlement = record {
  escrow_id = 4;
  escrow = escrow_key;
  settlement_record = record_key;
  poster = 1;
  agent = 2;
  payer = 8;
}

abbrev pub world_of : Result World → World
world_of (ok w) = w
world_of (err e) = empty_world

abbrev pub posted : Instruction
posted = task (initialize_job run_terms job_key 1)

abbrev pub posted_world : World
posted_world = world_of (execute demo_services (at_time 10) posted empty_world)

abbrev pub assigned : Instruction
assigned = task (auto_assign_job 2 job_key 1)

abbrev pub assigned_world : World
assigned_world = world_of (execute demo_services (at_time 11) assigned posted_world)

abbrev pub funded : Instruction
funded = payment (create_escrow_wrapper deposit)

abbrev pub funded_world : World
funded_world = world_of (execute demo_services (at_time 12) funded assigned_world)

abbrev pub started : Instruction
started = payment (verify_tee_attestation (signed_before localnet_tee_validator report) attestation)

abbrev pub started_world : World
started_world = world_of (execute demo_services (at_time 13) started funded_world)

abbrev pub paid : Instruction
paid = payment (record_payment 4 1200 escrow_key 2)

abbrev pub paid_world : World
paid_world = world_of (execute demo_services (at_time 14) paid started_world)

abbrev pub submitted : Instruction
submitted = task (submit_verified_proof proof job_key 2)

abbrev pub submitted_world : World
submitted_world = world_of (execute demo_services (at_time 20) submitted assigned_world)

abbrev pub disputed : Instruction
disputed = task (open_dispute challenge)

abbrev pub disputed_world : World
disputed_world = world_of (execute demo_services (at_time 30) disputed submitted_world)

abbrev pub voted : Instruction
voted = task (cast_vote 2 dispute_key vote_key 4)

abbrev pub voted_world : World
voted_world = world_of (execute demo_services (at_time 40) voted disputed_world)

abbrev pub closed : Instruction
closed = payment (record_settlement settlement)

abbrev pub closed_world : World
closed_world = world_of (execute demo_services (at_time 50) closed paid_world)

abbrev pub submitted_job : Job
submitted_job = record (new_job run_terms 1 255) {
  status = status_submitted;
  claimer = 2;
  proof_hash = 99;
  receipt_root = 5;
  attestation_hash = 6;
  submitted_at = pos 20;
  dispute_window_end = pos 86420;
}

abbrev pub paid_escrow : EscrowWrapper
paid_escrow = record {
  escrow_id = 4;
  job_pubkey = job_key;
  poster = 1;
  agent = 2;
  validator = localnet_tee_validator;
  deposited = 3000;
  status = delegated;
  tee_pubkey = 77;
  tee_verified = true;
  mpp_session_id = 9;
  total_paid = 1200;
  request_count = 1;
  created_at = pos 12;
}

abbrev pub opened_dispute : DisputeRecord
opened_dispute = record {
  job = job_key;
  spec_hash = 11;
  challenger = 3;
  challenger_stake = 500;
  disputed_thread = 0;
  challenger_receipt_hash = 3;
  original_receipt_hash = 5;
  status = 0;
  evidence_uri = 0;
  opened_at = pos 30;
  resolved_at = pos 0;
  bump = 255;
}
