-- ===== src/Tests/Closing.antt =====
-- The bytes of a settlement, and the leaf of a finished job, on the values of the setup.
use taskforest_protocol.Prelude.{ℕ, ◌+◌, ◌≡◌, ◌≢◌, refl, true, some, none, [], ◌∷◌, pos, arith}
use taskforest_protocol.Errors.{ok}
use taskforest_protocol.Words.{to_le_bytes}
use taskforest_protocol.State.{
  Job, EscrowWrapper, delegated, status_failed, taskforest_id, job_leaf, localnet_tee_validator,
}
use taskforest_protocol.Chain.{World, update}
use taskforest_protocol.Lifecycle.{job_at}
use taskforest_protocol.Payments.{settlement_preimage}
use taskforest_protocol.Payments.Preimage.{
  FitsPreimage, SameSettlement, settlement_preimage-injective,
}
use taskforest_protocol.Compression.{LightArgs, job_leaf_seed, finished_leaf, compress_finished_job}
use taskforest_protocol.Compression.Closed.{IsCompressible, compress_finished_job_closes}
use taskforest_protocol.Tests.Setup.{demo_services, address_of, at_time, demo_job, world_with}

abbrev escrow : EscrowWrapper
escrow = record {
  escrow_id = 4;
  job_pubkey = 50;
  poster = 1;
  agent = 2;
  validator = localnet_tee_validator;
  deposited = 3000;
  status = delegated;
  tee_pubkey = 77;
  tee_verified = true;
  mpp_session_id = 9;
  total_paid = 1200;
  request_count = 6;
  created_at = pos 5;
}

-- The same escrow to the bytes.
abbrev recounted : EscrowWrapper
recounted = record escrow { request_count = 7; tee_pubkey = 78 }

escrow-FitsPreimage : FitsPreimage escrow 1200 (pos 50)
escrow-FitsPreimage = record {
  escrow_id = omega arith;
  job_pubkey = omega arith;
  poster = omega arith;
  agent = omega arith;
  validator = omega arith;
  deposited = omega arith;
  total_paid = omega arith;
  mpp_session_id = omega arith;
  settled_at = refl;
}

recounted-FitsPreimage : FitsPreimage recounted 1200 (pos 50)
recounted-FitsPreimage = record {
  escrow_id = omega arith;
  job_pubkey = omega arith;
  poster = omega arith;
  agent = omega arith;
  validator = omega arith;
  deposited = omega arith;
  total_paid = omega arith;
  mpp_session_id = omega arith;
  settled_at = refl;
}

same_bytes : settlement_preimage escrow 1200 (pos 50) ≡ settlement_preimage recounted 1200 (pos 50)
unfolding settlement_preimage
same_bytes = refl

settlement_preimage-injective_example : SameSettlement escrow recounted 1200 1200 (pos 50) (pos 50)
settlement_preimage-injective_example =
    settlement_preimage-injective escrow recounted 1200 1200 (pos 50) (pos 50) escrow-FitsPreimage
      recounted-FitsPreimage same_bytes

abbrev failed_job : Job
failed_job = record demo_job { status = status_failed }

abbrev leaf_args : LightArgs
leaf_args = record { proof = 1; address_tree_info = 2 }

abbrev leaf_key : ℕ
leaf_key = address_of (job_leaf_seed ∷ to_le_bytes 32 50 ∷ []) (2 + taskforest_id)

failed_job-IsCompressible :
    IsCompressible demo_services.light
      (at_time 90)
      leaf_args
      1
      50
      failed_job
      (world_with failed_job)
failed_job-IsCompressible = record {
  loaded = refl;
  at_hand = refl;
  finished = refl;
  right_poster = refl;
  signs = refl;
  apart = ground arith;
  tree = 2;
  right_tree = refl;
  leaves =
      update leaf_key (some (job_leaf (finished_leaf (at_time 90) failed_job)))
        (world_with failed_job).leaves;
  creation = refl;
  room = omega arith;
}

compress_finished_job_closes_example :
    (w' : World) × (compress_finished_job demo_services.light
        (at_time 90)
        leaf_args
        1
        50
        (world_with failed_job)
      ≡ ok w')
    × (w'.lamports 1 ≡ 1000000 + 7000)
    × (w'.lamports 50 ≡ 0)
    × ((q : ℕ) → q ≢ 50 → q ≢ 1 → w'.lamports q ≡ (world_with failed_job).lamports q)
    × (job_at w' 50 ≡ none)
    × ((q : ℕ) → q ≢ 50 → job_at w' q ≡ job_at (world_with failed_job) q)
    × (w'.leaves ≡ failed_job-IsCompressible.leaves)
compress_finished_job_closes_example =
    compress_finished_job_closes demo_services.light (at_time 90) leaf_args 1 50 failed_job
      (world_with failed_job) failed_job-IsCompressible
