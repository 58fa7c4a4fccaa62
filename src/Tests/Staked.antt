-- ===== src/Tests/Staked.antt =====
-- Another run from the posted job of Calls: wallet 2 bids on it, the enclave is attested, the
-- bidding closes and wallet 2 locks its stake.
use taskforest_protocol.Prelude.{ℕ, ◌≤◌, ◌≡◌, ◌==◌, true, false, refl, some, pos, arith, List}
use taskforest_protocol.Errors.{ok}
use taskforest_protocol.Words.{to_le_bytes, from_le_bytes}
use taskforest_protocol.Bytes.{bytes_eq, read_number}
use taskforest_protocol.State.{Job, status_staked, status_done, localnet_tee_validator}
use taskforest_protocol.Chain.{World, init_account, system_transfer}
use taskforest_protocol.Chain.Payout.{Paid}
use taskforest_protocol.Lifecycle.{job_at}
use taskforest_protocol.Signature.{
  verify_attestation_signature, read_header, check_header, is_allowed_validator,
}
use taskforest_protocol.Job
use taskforest_protocol.Job.{new_job, job_seeds}
use taskforest_protocol.Bidding
use taskforest_protocol.Tee
use taskforest_protocol.Tee.{VerifyBidAttestation}
use taskforest_protocol.Tee.RoundTrip.{print_report}
use taskforest_protocol.Proof.Submitted.{submission}
use taskforest_protocol.Program.{
  Instruction, task, place_bid, verify_bid_attestation, close_bidding, lock_stake, submit_proof,
  settle_job, execute,
}
use taskforest_protocol.Program.Steps.{Reach}
use taskforest_protocol.Program.Work.{IsPassed, pass_accounts, Reach-pays_worker}
use taskforest_protocol.Tests.Setup.{
  demo_services, demo_runtime-IsLawful, empty_world, at_time, signed_before,
}
use taskforest_protocol.Tests.Calls.{job_key, run_terms, posted_world, world_of}
use taskforest_protocol.Tests.Run.{Goes, goes, posted_reached, run_succeeds}

abbrev report : List ℕ
report = print_report 5 6 7 (record {
  job_id = 7;
  poster = 1;
  validator = localnet_tee_validator;
  tee_pubkey = 77;
  issued_at = pos 10;
  expires_at = pos 90;
})

abbrev attestation : VerifyBidAttestation
attestation = record {
  attestation_report = report;
  tee_pubkey = 77;
  job = job_key;
  validator = localnet_tee_validator;
  payer = 1;
}

abbrev bidding : Instruction
bidding = task (place_bid 800 job_key 2)

abbrev bid_world : World
bid_world = world_of (execute demo_services (at_time 11) bidding posted_world)

abbrev attesting : Instruction
attesting = task (verify_bid_attestation (signed_before localnet_tee_validator report) attestation)

abbrev attested_world : World
attested_world = world_of (execute demo_services (at_time 12) attesting bid_world)

abbrev closing : Instruction
closing = task (close_bidding 2 job_key)

abbrev claimed_world : World
claimed_world = world_of (execute demo_services (at_time 13) closing attested_world)

abbrev staking : Instruction
staking = task (lock_stake job_key 2)

abbrev staked_world : World
staked_world = world_of (execute demo_services (at_time 14) staking claimed_world)

abbrev staked_job : Job
staked_job = record (new_job run_terms 1 255) {
  status = status_staked;
  claimer = 2;
  claimer_stake = 800;
  best_bid_stake = 800;
  best_bidder = 2;
  bid_count = 1;
  tee_pubkey = 77;
  tee_verified = true;
}

staking_succeeds :
    Goes 11 bidding posted_world bid_world
    × Goes 12 attesting bid_world attested_world
    × Goes 13 closing attested_world claimed_world
    × Goes 14 staking claimed_world staked_world
    × (job_at staked_world job_key ≡ some staked_job)
    × (staked_world.lamports 2 ≤ 1000000)
    × ((job_key == 2) ≡ false)
    × (staked_world.away job_key ≡ false)
unfolding execute Job.initialize_job Bidding.place_bid Bidding.bid Tee.verify_bid_attestation
    Tee.parse_bid_attestation_report Bidding.close_bidding Bidding.lock_stake
    verify_attestation_signature read_header check_header is_allowed_validator bytes_eq read_number
    init_account system_transfer job_seeds to_le_bytes from_le_bytes
staking_succeeds = (
  (refl, λ k h. ground (arith, h)),
  (refl, λ k h. ground (arith, h)),
  (refl, λ k h. ground (arith, h)),
  (refl, λ k h. ground (arith, h)),
  refl,
  omega arith,
  refl,
  refl,
)

staked_reached : Reach demo_services empty_world staked_world
staked_reached = goes 14 staking staking_succeeds.2.1 staking_succeeds.3 (
    goes 13 closing staking_succeeds.1.1 staking_succeeds.2 (
      goes 12 attesting staking_succeeds.0.1 staking_succeeds.1
        (goes 11 bidding run_succeeds.0.1 staking_succeeds.0 posted_reached)))

staked_job-IsPassed : IsPassed (at_time 20) (at_time 30) staked_world staked_job job_key 99
staked_job-IsPassed = record {
  loaded = staking_succeeds.4;
  at_hand = staking_succeeds.7;
  staked = refl;
  undivided = refl;
  worker_signs = refl;
  in_time = omega arith;
  proved = ground arith;
  poster_signs = refl;
  apart = λ e. ground (arith, staking_succeeds.6, e);
  room = omega (arith, staking_succeeds.5);
}

Reach-pays_worker_example :
    (u : World) × (v : World) × (execute demo_services
        (at_time 20)
        (task (submit_proof 99 job_key 2))
        staked_world
      ≡ ok u)
    × (execute demo_services (at_time 30) (task (settle_job 1 (pass_accounts staked_job job_key))) u
        ≡ ok v)
    × Paid job_key 2 5800 staked_world v
    × (job_at v job_key
        ≡ some (record (submission (at_time 20) 99 staked_job) { status = status_done }))
Reach-pays_worker_example =
    Reach-pays_worker demo_services demo_runtime-IsLawful (λ k. refl) staked_reached (at_time 20)
      (at_time 30) staked_job job_key 99 staked_job-IsPassed
