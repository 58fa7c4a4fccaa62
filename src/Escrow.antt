-- ===== src/Escrow.antt =====
-- What a job's account must hold: the reward that `initialize_job` and `create_sub_job` of
-- programs/taskforest/src/instructions/job.rs put into it, above its rent-exempt balance.
use taskforest_protocol.Prelude.{
  ℕ, ◌+◌, ◌≤◌, ◌≡◌, Bool, true, false, ◌||◌, ◌&&◌, Option, none, some, List, ◌==◌,
}
use taskforest_protocol.Errors.{Result, Ensures}
use taskforest_protocol.State.{
  Job, job_size, taskforest_id, payments_id, status_claimed, status_staked, status_submitted,
}
use taskforest_protocol.Chain.{World, Runtime, Env}
use taskforest_protocol.Lifecycle.{job_at, is_unclaimed}

-- Nobody may have drawn on the reward: the job is not settled, and no part of it has gone to
-- sub-jobs, which only a staked job has.
abbrev pub holds_reward : Job → Bool
holds_reward j =
    is_unclaimed j.status
    || j.status == status_claimed
    || (j.sub_job_count == 0 && (j.status == status_staked || j.status == status_submitted))

-- Nor on the stake, once it is locked.
abbrev pub holds_stake : Job → Bool
holds_stake j = j.sub_job_count == 0 && j.status == status_staked

abbrev pub FundedAt : Runtime → Option Job → ℕ → Type 0
FundedAt rt none lamports = Unit
FundedAt rt (some j) lamports =
    (rt.minimum_balance job_size ≤ lamports)
    × (holds_reward j ≡ true → rt.minimum_balance job_size + j.reward_lamports ≤ lamports)
    × (holds_stake j ≡ true
        → rt.minimum_balance job_size + (j.reward_lamports + j.claimer_stake) ≤ lamports)

abbrev pub JobIsFunded : Runtime → ℕ → World → Type 0
JobIsFunded rt k w = FundedAt rt (job_at w k) (w.lamports k)

abbrev pub Funds : Runtime → ℕ → Result World → Type 0
Funds rt k = Ensures (JobIsFunded rt k)

abbrev pub is_ours : ℕ → Bool
is_ours owner = owner == taskforest_id || owner == payments_id

-- What is documented of signatures: no address derived from seeds signs, and no account of the two
-- programs does.
pub record SignsFairly (rt : Runtime) (env : Env) (w : World) : Type 0 where
  pub no_derived :
      (seeds : List (List ℕ)) (program : ℕ) → env.signed (rt.find_address seeds program) ≡ false
  pub no_owned : (q : ℕ) → is_ours (w.owner q) ≡ true → env.signed q ≡ false
