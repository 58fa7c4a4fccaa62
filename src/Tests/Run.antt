-- ===== src/Tests/Run.antt =====
-- The run of Calls: every call succeeds, and the worlds on its way are reached.
use taskforest_protocol.Prelude.{◌==◌, ℕ, ◌≤◌, ◌≡◌, ◌+ℤ◌, some, refl, true, false, arith}
use taskforest_protocol.Errors.{ok}
use taskforest_protocol.Words.{to_le_bytes, from_le_bytes, checked_sum_i64}
use taskforest_protocol.State.{taskforest_id, payments_id}
use taskforest_protocol.State.{VerifierVote, SettlementRecord, settlement_record_size}
use taskforest_protocol.Records.{record_of}
use taskforest_protocol.Lifecycle.{job_at}
use taskforest_protocol.Program.Once.{derivation}
use taskforest_protocol.Chain.{
  as_dispute, Lamports, vacant, escrow_account, vote_account, record_account, World, init_account,
  system_transfer, move_lamports, pay_out,
}
use taskforest_protocol.Escrow.{SignsFairly, is_ours}
use taskforest_protocol.Job
use taskforest_protocol.Job.{JobTerms, new_job, job_seeds}
use taskforest_protocol.Proof
use taskforest_protocol.Proof.{VerifiedProof}
use taskforest_protocol.Dispute
use taskforest_protocol.Dispute.{OpenDispute, dispute_seeds, vote_seeds}
use taskforest_protocol.Payments
use taskforest_protocol.Payments.{
  VerifyTeeAttestation, CreateEscrowWrapper, RecordSettlement, escrow_seeds, settlement_seeds,
}
use taskforest_protocol.Bytes.{bytes_eq, read_number}
use taskforest_protocol.Signature.{
  verify_attestation_signature, read_header, check_header, is_allowed_validator,
}
use taskforest_protocol.Program.{Instruction, execute}
use taskforest_protocol.Program.Steps.{Reach, call, here, next}
use taskforest_protocol.Tests.Setup.{
  create, demo_services, demo_runtime, empty_world, at_time, wallets_sign,
}
use taskforest_protocol.Tests.Calls.{
  job_key, dispute_key, vote_key, escrow_key, record_key, run_terms, posted, posted_world, assigned,
  assigned_world, funded, funded_world, started, started_world, paid, paid_world, submitted,
  submitted_world, disputed, disputed_world, voted, voted_world, closed, closed_world,
  submitted_job, paid_escrow, opened_dispute,
}

-- No wallet is an account of the programs.
abbrev pub KeepsWallets : World → Type 0
KeepsWallets w = (k : ℕ) → (at_time 0).signed k ≡ true → is_ours (w.owner k) ≡ false

pub KeepsWallets-SignsFairly :
    (t : ℕ) (w : World) → KeepsWallets w → SignsFairly demo_runtime (at_time t) w
KeepsWallets-SignsFairly t w h = record {
  no_derived = wallets_sign t;
  no_owned = λ q e. ground (arith, h q);
}

-- A call that succeeds and leads to a world in which wallets are still wallets.
abbrev pub Goes : ℕ → Instruction → World → World → Type 0
Goes t i w w' = (execute demo_services (at_time t) i w ≡ ok w') × KeepsWallets w'

-- Every call succeeds, and leaves the wallets alone.
pub run_succeeds :
    Goes 10 posted empty_world posted_world
    × Goes 11 assigned posted_world assigned_world
    × Goes 12 funded assigned_world funded_world
    × Goes 13 started funded_world started_world
    × Goes 14 paid started_world paid_world
    × Goes 50 closed paid_world closed_world
unfolding execute Job.initialize_job Payments.verify_tee_attestation
    Payments.parse_attestation_report Payments.record_payment verify_attestation_signature
    read_header check_header is_allowed_validator bytes_eq read_number Job.auto_assign_job
    Proof.submit_verified_proof Dispute.open_dispute Dispute.handler_open_dispute Dispute.cast_vote
    Payments.create_escrow_wrapper Payments.record_settlement Payments.handler_record_settlement
    init_account system_transfer move_lamports pay_out job_seeds dispute_seeds vote_seeds
    escrow_seeds settlement_seeds to_le_bytes from_le_bytes checked_sum_i64 ◌+ℤ◌
run_succeeds = (
  (refl, λ k h. ground (arith, h)),
  (refl, λ k h. ground (arith, h)),
  (refl, λ k h. ground (arith, h)),
  (refl, λ k h. ground (arith, h)),
  (refl, λ k h. ground (arith, h)),
  (refl, λ k h. ground (arith, h)),
)

dispute_succeeds :
    Goes 20 submitted assigned_world submitted_world
    × Goes 30 disputed submitted_world disputed_world
    × Goes 40 voted disputed_world voted_world
unfolding execute Job.initialize_job Payments.verify_tee_attestation
    Payments.parse_attestation_report Payments.record_payment verify_attestation_signature
    read_header check_header is_allowed_validator bytes_eq read_number Job.auto_assign_job
    Proof.submit_verified_proof Dispute.open_dispute Dispute.handler_open_dispute Dispute.cast_vote
    Payments.create_escrow_wrapper Payments.record_settlement Payments.handler_record_settlement
    init_account system_transfer move_lamports pay_out job_seeds dispute_seeds vote_seeds
    escrow_seeds settlement_seeds to_le_bytes from_le_bytes checked_sum_i64 ◌+ℤ◌
dispute_succeeds = (
  (refl, λ k h. ground (arith, h)),
  (refl, λ k h. ground (arith, h)),
  (refl, λ k h. ground (arith, h)),
)

pub goes :
    (t : ℕ) (i : Instruction) {w w' : World}
    → KeepsWallets w
    → Goes t i w w'
    → Reach demo_services empty_world w
    → Reach demo_services empty_world w'
goes t i {w} keeps g r = next r (call (at_time t) i (KeepsWallets-SignsFairly t w keeps) g.0)

empty_keeps : KeepsWallets empty_world
empty_keeps k h = refl

pub posted_reached : Reach demo_services empty_world posted_world
posted_reached = goes 10 posted empty_keeps run_succeeds.0 here

assigned_reached : Reach demo_services empty_world assigned_world
assigned_reached = goes 11 assigned run_succeeds.0.1 run_succeeds.1 posted_reached

funded_reached : Reach demo_services empty_world funded_world
funded_reached = goes 12 funded run_succeeds.1.1 run_succeeds.2 assigned_reached

started_reached : Reach demo_services empty_world started_world
started_reached = goes 13 started run_succeeds.2.1 run_succeeds.3 funded_reached

pub paid_reached : Reach demo_services empty_world paid_world
paid_reached = goes 14 paid run_succeeds.3.1 run_succeeds.4 started_reached

pub submitted_reached : Reach demo_services empty_world submitted_world
submitted_reached = goes 20 submitted run_succeeds.1.1 dispute_succeeds.0 assigned_reached

disputed_reached : Reach demo_services empty_world disputed_world
disputed_reached = goes 30 disputed dispute_succeeds.0.1 dispute_succeeds.1 submitted_reached

pub voted_reached : Reach demo_services empty_world voted_world
voted_reached = goes 40 voted dispute_succeeds.1.1 dispute_succeeds.2 disputed_reached

pub closed_reached : Reach demo_services empty_world closed_world
closed_reached = goes 50 closed run_succeeds.4.1 run_succeeds.5 paid_reached

pub closing_run : Reach demo_services paid_world closed_world
closing_run = next here (
    call (at_time 50) closed (KeepsWallets-SignsFairly 50 paid_world run_succeeds.4.1)
      run_succeeds.5.0)

-- What stands in the worlds of the run.
pub run_leaves :
    (job_at posted_world job_key ≡ some (new_job run_terms 1 255))
    × (job_at submitted_world job_key ≡ some submitted_job)
    × KeepsWallets submitted_world
    × ((x : VerifierVote) × (record_of voted_world vote_key ≡ vote_account x)
        × (x.dispute ≡ dispute_key)
        × (x.verifier ≡ 4))
    × ((r : SettlementRecord) × (record_of closed_world record_key ≡ record_account r)
        × (r.escrow_id ≡ 4))
    × (derivation (record_of closed_world escrow_key) ≡ some (payments_id, escrow_seeds 4))
    × ((submitted_world.lamports 1 ≤ 1000000) × (submitted_world.lamports 2 ≤ 1000000))
    × (record_of paid_world escrow_key ≡ escrow_account paid_escrow)
    × (paid_world.content record_key ≡ vacant)
    × ((l : Lamports) × (create 8 record_key settlement_record_size paid_world.lamports ≡ some l))
    × ((paid_world.lamports 1 ≤ 1000000) × (paid_world.lamports 2 ≤ 1000000))
    × (job_at voted_world job_key ≡ some submitted_job)
    × ((voted_world.owner dispute_key ≡ taskforest_id)
        × (as_dispute (voted_world.content dispute_key) ≡ some opened_dispute))
    × (voted_world.lamports 3 ≤ 1000000)
    × ((dispute_key == job_key) ≡ false)
    × (submitted_world.away job_key ≡ false)
    × ((voted_world.away job_key ≡ false)
        × (paid_world.away escrow_key ≡ false)
        × (voted_world.away dispute_key ≡ false))
unfolding execute Job.initialize_job Payments.verify_tee_attestation
    Payments.parse_attestation_report Payments.record_payment verify_attestation_signature
    read_header check_header is_allowed_validator bytes_eq read_number Job.auto_assign_job
    Proof.submit_verified_proof Dispute.open_dispute Dispute.handler_open_dispute Dispute.cast_vote
    Payments.create_escrow_wrapper Payments.record_settlement Payments.handler_record_settlement
    init_account system_transfer move_lamports pay_out job_seeds dispute_seeds vote_seeds
    escrow_seeds settlement_seeds to_le_bytes from_le_bytes checked_sum_i64 ◌+ℤ◌
run_leaves = (
  refl,
  refl,
  dispute_succeeds.0.1,
  (_, refl, refl, refl),
  (_, refl, refl),
  refl,
  (omega arith, omega arith),
  refl,
  refl,
  (_, refl),
  (omega arith, omega arith),
  refl,
  (refl, refl),
  omega arith,
  refl,
  refl,
  (refl, refl, refl),
)
