-- ===== src/Tests/Disputed.antt =====
-- Disputes, expiries, attestations and escrows on the jobs and wallets of the setup.
use taskforest_protocol.Prelude.{
  ℕ, ◌+◌, ◌≡◌, ◌≢◌, inl, refl, some, arith, List, [], ◌∷◌, pos, min, ltb, if◌then◌else◌,
}
use taskforest_protocol.Errors.{ok, err, task_forest, quorum_not_reached}
use taskforest_protocol.Words.{u8_max}
use taskforest_protocol.State.{
  Job, DisputeRecord, VerifierVote, taskforest_id, status_claimed, status_failed, panel_quorum,
}
use taskforest_protocol.Chain.{World, dispute_account, vote_account, update, as_dispute}
use taskforest_protocol.Chain.Payout.{Paid}
use taskforest_protocol.Lifecycle.{job_at}
use taskforest_protocol.Payout.{Settles}
use taskforest_protocol.Job.{new_job, expire_claim, expire_unclaimed}
use taskforest_protocol.Job.Payouts.{expire_claim_pays, expire_unclaimed_refunds}
use taskforest_protocol.Dispute.{
  ResolveDispute, resolve_dispute, tally_panel, agent_wins, challenger_wins,
}
use taskforest_protocol.Dispute.Payouts.{
  ResolvesFairly, resolve_dispute_for_agent, resolve_dispute_for_challenger,
}
use taskforest_protocol.Dispute.Panel.{Tallies, votes, distinct, tally_panel_decides}
use taskforest_protocol.Tests.Setup.{demo_runtime, at_time, demo_terms, demo_job, world_with}

abbrev claimed_job : Job
claimed_job = record demo_job { status = status_claimed }

expire_claim_pays_example :
    Settles demo_runtime 50 7 5000
      (record claimed_job { status = status_failed })
      (world_with claimed_job)
      (expire_claim demo_runtime (at_time 200) 50 7 (world_with claimed_job))
expire_claim_pays_example =
    expire_claim_pays demo_runtime (at_time 200) (world_with claimed_job) claimed_job 50 7 refl refl
      (inl refl) (omega arith) (omega arith) (omega arith)

abbrev open_job : Job
open_job = new_job demo_terms 1 255

expire_unclaimed_refunds_example :
    (w' : World) × (expire_unclaimed demo_runtime (at_time 200) 50 1 (world_with open_job) ≡ ok w')
    × Paid 50 1 5000 (world_with open_job) w'
    × (job_at w' 50 ≡ some (record open_job { status = status_failed }))
    × ((q : ℕ) → q ≢ 50 → job_at w' q ≡ job_at (world_with open_job) q)
expire_unclaimed_refunds_example =
    expire_unclaimed_refunds demo_runtime (at_time 200) (world_with open_job) open_job 50 1 refl
      refl (inl refl) refl refl (omega arith) (ground arith) (omega arith) (omega arith)

-- A dispute of wallet 3 at address 60, and votes at addresses 61 to 63, of which the third belongs
-- to nobody's program.
abbrev dispute : DisputeRecord
dispute = record {
  job = 50;
  spec_hash = 11;
  challenger = 3;
  challenger_stake = 500;
  disputed_thread = 0;
  challenger_receipt_hash = 1;
  original_receipt_hash = 2;
  status = 0;
  evidence_uri = 0;
  opened_at = pos 30;
  resolved_at = pos 0;
  bump = 255;
}

abbrev vote : ℕ → ℕ → VerifierVote
vote verifier verdict = record {
  dispute = 60;
  verifier = verifier;
  verdict = verdict;
  voted_at = pos 40;
  bump = 255;
}

abbrev disputed_world : World
disputed_world = record (world_with demo_job) {
  lamports = update 60 900 (world_with demo_job).lamports;
  owner =
      update 62 taskforest_id
        (update 61 taskforest_id (update 60 taskforest_id (world_with demo_job).owner));
  content = update 63 (vote_account (vote 6 2)) (
      update 62 (vote_account (vote 5 1)) (
        update 61 (vote_account (vote 4 2))
          (update 60 (dispute_account dispute) (world_with demo_job).content)));
}

abbrev resolution : ResolveDispute
resolution = record { job = 50; dispute = 60; resolver = 1; challenger_account = 3 }

dispute-ResolvesFairly : ResolvesFairly (at_time 90) disputed_world demo_job dispute resolution
dispute-ResolvesFairly = record {
  job_loaded = refl;
  at_hand = (refl, refl);
  dispute_owned = refl;
  dispute_loaded = refl;
  unresolved = refl;
  over_job = refl;
  right_challenger = refl;
  signs = refl;
  resolver_is_poster = refl;
}

resolve_dispute_for_agent_example :
    (w' : World) × (resolve_dispute demo_runtime (at_time 90) 1 resolution disputed_world ≡ ok w')
    × Paid 60 50 500 disputed_world w'
    × (job_at w' 50 ≡ some demo_job)
    × (as_dispute (w'.content 60) ≡ some (record dispute { status = 1; resolved_at = pos 90 }))
resolve_dispute_for_agent_example =
    resolve_dispute_for_agent demo_runtime (at_time 90) disputed_world demo_job dispute resolution
      dispute-ResolvesFairly (omega arith) (omega arith)

resolve_dispute_for_challenger_example :
    (w' : World) × (resolve_dispute demo_runtime (at_time 90) 2 resolution disputed_world ≡ ok w')
    × (w'.lamports 3 ≡ disputed_world.lamports 3 + 500 + 800)
    × (w'.lamports 60 + 500 ≡ disputed_world.lamports 60)
    × (w'.lamports 50 + 800 ≡ disputed_world.lamports 50)
    × ((q : ℕ) → q ≢ 60 → q ≢ 50 → q ≢ 3 → w'.lamports q ≡ disputed_world.lamports q)
    × (job_at w' 50 ≡ some (record demo_job { status = status_failed }))
    × (as_dispute (w'.content 60) ≡ some (record dispute { status = 2; resolved_at = pos 90 }))
resolve_dispute_for_challenger_example =
    resolve_dispute_for_challenger demo_runtime (at_time 90) disputed_world demo_job dispute
      resolution dispute-ResolvesFairly (omega arith) (omega arith) (omega arith) (omega arith)

dispute-Tallies : Tallies (at_time 90) disputed_world demo_job dispute resolution
dispute-Tallies = record {
  job_loaded = refl;
  at_hand = (refl, refl);
  dispute_owned = refl;
  dispute_loaded = refl;
  unresolved = refl;
  over_job = refl;
  right_challenger = refl;
  signs = refl;
}

abbrev called : List ℕ
called = 61 ∷ 62 ∷ 61 ∷ 63 ∷ []

tally_panel_decides_example :
    tally_panel demo_runtime (at_time 90) called resolution disputed_world ≡ (
      if ltb
        (votes disputed_world.content 60 1 (distinct called)
          + votes disputed_world.content 60 2 (distinct called))
        panel_quorum
      then err (task_forest quorum_not_reached)
      else if ltb
          (min u8_max (votes disputed_world.content 60 2 (distinct called)))
          (min u8_max (votes disputed_world.content 60 1 (distinct called)))
      then agent_wins demo_runtime (at_time 90) resolution demo_job dispute disputed_world
      else challenger_wins demo_runtime (at_time 90) resolution demo_job dispute disputed_world)
tally_panel_decides_example =
    tally_panel_decides demo_runtime (at_time 90) disputed_world demo_job dispute resolution called
      dispute-Tallies
