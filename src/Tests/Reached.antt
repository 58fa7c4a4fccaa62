-- ===== src/Tests/Reached.antt =====
-- What holds in every world that is reached, applied to the worlds of a run.
use taskforest_protocol.Prelude.{◌+◌, ◌≡◌, refl, some, arith, false}
use taskforest_protocol.Errors.{is_ok, ok}
use taskforest_protocol.State.{payments_id, job_size, status_failed}
use taskforest_protocol.Invariant.{JobIsValid}
use taskforest_protocol.Escrow.{FundedAt}
use taskforest_protocol.Records.{record_of, RecordFollows}
use taskforest_protocol.Accounts.{AccountIsSound}
use taskforest_protocol.Bonds.{BondIsHeld}
use taskforest_protocol.Job.{new_job}
use taskforest_protocol.Chain.{World}
use taskforest_protocol.Chain.Payout.{capped}
use taskforest_protocol.Lifecycle.{job_at}
use taskforest_protocol.Dispute.{ResolveDispute}
use taskforest_protocol.Dispute.Payouts.{ResolvesFairly}
use taskforest_protocol.Payments.Redeem.{IsRedeemable, Redeems}
use taskforest_protocol.Payments.{escrow_seeds}
use taskforest_protocol.Program.{
  execute, task, payment, cast_vote, resolve_dispute, record_settlement,
}
use taskforest_protocol.Program.Steps.{Reach-IsValid, Reach-IsFunded, here}
use taskforest_protocol.Program.Reached.{Reach-IsSound, Reach-IsHeld, Reach-RecordFollows}
use taskforest_protocol.Program.Once.{Reach-one_account, Reach-settled_once, Reach-voted_once}
use taskforest_protocol.Program.Progress.{Reach-Redeems, Reach-stake_returned}
use taskforest_protocol.Program.Sessions.{Refines, Reach-Refines}
use taskforest_protocol.Tests.Setup.{demo_services, demo_runtime, at_time, demo_runtime-IsLawful}
use taskforest_protocol.Tests.Calls.{
  opened_dispute, paid_escrow, job_key, dispute_key, vote_key, escrow_key, record_key, run_terms,
  settlement, posted_world, paid_world, voted_world, closed_world, submitted_job,
}
use taskforest_protocol.Tests.Run.{
  posted_reached, paid_reached, voted_reached, closed_reached, closing_run, run_leaves,
}

Reach-IsValid_example : JobIsValid (new_job run_terms 1 255)
Reach-IsValid_example =
    Reach-IsValid demo_services demo_runtime-IsLawful (λ k. refl) posted_reached job_key
      (new_job run_terms 1 255) run_leaves.0

Reach-IsFunded_example :
    FundedAt demo_runtime (some (new_job run_terms 1 255)) (posted_world.lamports job_key)
Reach-IsFunded_example =
    Reach-IsFunded demo_services demo_runtime-IsLawful (λ k. refl) posted_reached job_key
      (new_job run_terms 1 255) run_leaves.0

Reach-IsSound_example : AccountIsSound demo_runtime dispute_key voted_world
Reach-IsSound_example =
    Reach-IsSound demo_services demo_runtime-IsLawful (λ k. refl) voted_reached dispute_key

Reach-IsHeld_example : BondIsHeld demo_runtime dispute_key voted_world
Reach-IsHeld_example =
    Reach-IsHeld demo_services demo_runtime-IsLawful (λ k. refl) voted_reached dispute_key

Reach-RecordFollows_example :
    RecordFollows (record_of paid_world escrow_key) (record_of closed_world escrow_key)
Reach-RecordFollows_example = Reach-RecordFollows demo_services escrow_key closing_run

Reach-one_account_example : escrow_key ≡ escrow_key
Reach-one_account_example =
    Reach-one_account demo_services demo_runtime-IsLawful (λ k. refl) closed_reached escrow_key
      escrow_key payments_id (escrow_seeds 4) run_leaves.5 run_leaves.5

Reach-settled_once_example :
    is_ok (execute demo_services (at_time 60) (payment (record_settlement settlement)) closed_world)
    ≡ false
Reach-settled_once_example =
    Reach-settled_once demo_services demo_runtime-IsLawful (λ k. refl) closed_reached here
      (at_time 60) settlement record_key run_leaves.4.0 run_leaves.4.1 run_leaves.4.2

Reach-voted_once_example :
    is_ok
      (execute demo_services (at_time 60) (task (cast_vote 1 dispute_key vote_key 4)) voted_world)
    ≡ false
Reach-voted_once_example =
    Reach-voted_once demo_services demo_runtime-IsLawful (λ k. refl) voted_reached here (at_time 60)
      1 dispute_key vote_key 4 vote_key run_leaves.3.0 run_leaves.3.1 run_leaves.3.2 run_leaves.3.3

Reach-Refines_example : Refines demo_services demo_runtime-IsLawful escrow_key closed_reached
Reach-Refines_example =
    Reach-Refines demo_services demo_runtime-IsLawful escrow_key (λ k. refl) closed_reached

settlement-IsRedeemable : IsRedeemable demo_runtime (at_time 50) paid_world paid_escrow settlement
settlement-IsRedeemable = record {
  loaded = run_leaves.7;
  at_hand = run_leaves.16.1;
  unsettled = refl;
  right_id = refl;
  right_poster = refl;
  right_agent = refl;
  unused = run_leaves.8;
  own_record = refl;
  payer_signs = refl;
  created = run_leaves.9.0;
  creation = run_leaves.9.1;
  escrow_apart = (ground arith, ground arith, ground arith);
  payees_apart = (ground arith, ground arith, ground arith);
  record_apart = (ground arith, ground arith);
  agent_room = omega (arith, run_leaves.10.1);
  poster_room = omega (arith, run_leaves.10.0);
}

Reach-Redeems_example :
    Redeems settlement paid_escrow paid_world
      (execute demo_services (at_time 50) (payment (record_settlement settlement)) paid_world)
Reach-Redeems_example =
    Reach-Redeems demo_services demo_runtime-IsLawful (λ k. refl) paid_reached (at_time 50)
      settlement paid_escrow settlement-IsRedeemable

abbrev resolution : ResolveDispute
resolution = record { job = job_key; dispute = dispute_key; resolver = 1; challenger_account = 3 }

resolution-ResolvesFairly :
    ResolvesFairly (at_time 50) voted_world submitted_job opened_dispute resolution
resolution-ResolvesFairly = record {
  job_loaded = run_leaves.11;
  at_hand = (run_leaves.16.0, run_leaves.16.2);
  dispute_owned = run_leaves.12.0;
  dispute_loaded = run_leaves.12.1;
  unresolved = refl;
  over_job = refl;
  right_challenger = refl;
  signs = refl;
  resolver_is_poster = refl;
}

Reach-stake_returned_example :
    (v : World) × (execute demo_services
        (at_time 50)
        (task (resolve_dispute 2 resolution))
        voted_world
      ≡ ok v)
    × (v.lamports 3
        ≡ voted_world.lamports 3 + 500 + capped demo_runtime job_size job_key 0 voted_world)
    × (v.lamports dispute_key + 500 ≡ voted_world.lamports dispute_key)
    × (job_at v job_key ≡ some (record submitted_job { status = status_failed }))
Reach-stake_returned_example =
    Reach-stake_returned demo_services demo_runtime-IsLawful (λ k. refl) voted_reached (at_time 50)
      resolution submitted_job opened_dispute resolution-ResolvesFairly
      (λ e. ground (arith, run_leaves.14, e)) (ground arith) (ground arith)
      (omega (arith, run_leaves.13))
