-- ===== src/Tests/Divided.antt =====
-- Wallet 2 has staked on the job at address 50 and gives a part of it to wallet 3.
use taskforest_protocol.Prelude.{ℕ, ◌+◌, ◌≤◌, ◌≡◌, refl, some, pos, arith}
use taskforest_protocol.Errors.{ok}
use taskforest_protocol.Words.{to_le_bytes}
use taskforest_protocol.State.{Job, job_size, taskforest_id, status_staked}
use taskforest_protocol.Chain.{World, moved}
use taskforest_protocol.Lifecycle.{job_at}
use taskforest_protocol.Job.{SubJobTerms, job_seeds, new_sub_job, create_sub_job}
use taskforest_protocol.Job.Divided.{IsDivisible, create_sub_job_divides}
use taskforest_protocol.Tests.Setup.{
  demo_runtime, demo_runtime-IsLawful, at_time, address_of, demo_job, world_with,
}

abbrev staked_job : Job
staked_job = record demo_job { status = status_staked }

abbrev terms : SubJobTerms
terms = record {
  sub_job_id = 8;
  assigned_agent = 3;
  reward_lamports = 1000;
  deadline = pos 90;
  ttd_hash = 12;
}

abbrev sub_key : ℕ
sub_key = address_of (job_seeds 1 8) taskforest_id

staked_job-IsDivisible :
    IsDivisible demo_runtime (at_time 15) (world_with staked_job) terms staked_job 50 sub_key 2
unfolding job_seeds to_le_bytes
staked_job-IsDivisible = record {
  loaded = refl;
  at_hand = refl;
  staked = refl;
  is_worker = refl;
  signs = refl;
  own_address = refl;
  unused = refl;
  created = moved 2 sub_key (job_size + 100) (world_with staked_job).lamports;
  creation = refl;
  positive = omega arith;
  affordable = omega arith;
  few = omega arith;
  apart = ground arith;
  room = omega arith;
}

create_sub_job_divides_example :
    (w' : World) × (create_sub_job demo_runtime
        (at_time 15)
        terms
        50
        sub_key
        2
        (world_with staked_job)
      ≡ ok w')
    × (w'.lamports 50 + 1000 ≡ 7000)
    × (job_size + 100 + 1000 ≤ w'.lamports sub_key)
    × (job_at w' 50 ≡ some (record staked_job { sub_job_count = 1 }))
    × (job_at w' sub_key ≡ some (new_sub_job terms staked_job 50 255))
create_sub_job_divides_example =
    create_sub_job_divides demo_runtime demo_runtime-IsLawful (at_time 15) (world_with staked_job)
      terms staked_job 50 sub_key 2 staked_job-IsDivisible
