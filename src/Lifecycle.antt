-- ===== src/Lifecycle.antt =====
-- How an instruction may change a job account, whichever instruction it is: the edges between the
-- status bytes of programs/taskforest/src/constants.rs, and the fields that stay fixed from one
-- stage of a job to the next.
use taskforest_protocol.Prelude.{
  ℕ, ◌≤◌, ◌≡◌, Bool, true, false, ◌&&◌, ◌||◌, Option, none, some, ◌==◌, if◌then◌else◌,
}
use taskforest_protocol.Errors.{Result, Ensures}
use taskforest_protocol.State.{
  Job, taskforest_id, status_open, status_bidding, status_claimed, status_submitted, status_done,
  status_failed, status_staked,
}
use taskforest_protocol.Chain.{World, as_job}

-- The job that the program reads at an address: its own account, holding a job.
abbrev pub job_at : World → ℕ → Option Job
job_at w k = if w.owner k == taskforest_id then as_job (w.content k) else none

abbrev pub is_status : ℕ → Bool
is_status s =
    s == status_open
    || s == status_bidding
    || s == status_claimed
    || s == status_submitted
    || s == status_done
    || s == status_failed
    || s == status_staked

-- Settled or expired.
abbrev pub is_finished : ℕ → Bool
is_finished s = s == status_done || s == status_failed

-- Open for bids, or taking them: no worker yet.
abbrev pub is_unclaimed : ℕ → Bool
is_unclaimed s = s == status_open || s == status_bidding

abbrev pub has_proof : ℕ → Bool
has_proof s = s == status_submitted || s == status_done

-- The edges: any job may stay as it is or fail; otherwise it goes through bidding or assignment to
-- claimed, perhaps through the stake, to submitted, and from there to done.
abbrev pub may_become : ℕ → ℕ → Bool
may_become s t =
    s == t
    || t == status_failed
    || (t == status_bidding && s == status_open)
    || (t == status_claimed && is_unclaimed s)
    || (t == status_staked && s == status_claimed)
    || (t == status_submitted && (s == status_claimed || s == status_staked))
    || (t == status_done && s == status_submitted)

-- One job account before and after an instruction.
pub record Evolves (j j' : Job) : Type 0 where
  pub edge : may_become j.status j'.status ≡ true
  pub same_poster : j'.poster ≡ j.poster
  pub same_id : j'.job_id ≡ j.job_id
  pub same_reward : j'.reward_lamports ≡ j.reward_lamports
  pub same_spec : j'.spec_hash ≡ j.spec_hash
  pub same_ttd : j'.ttd_hash ≡ j.ttd_hash
  pub same_parent : j'.parent_job ≡ j.parent_job
  pub same_level : j'.verification_level ≡ j.verification_level
  pub same_mode : j'.verification_mode ≡ j.verification_mode
  pub same_claimer : is_unclaimed j.status ≡ false → j'.claimer ≡ j.claimer
  pub same_stake : is_unclaimed j.status ≡ false → j'.claimer_stake ≡ j.claimer_stake
  pub same_proof : has_proof j.status ≡ true → j'.proof_hash ≡ j.proof_hash
  pub same_submission : has_proof j.status ≡ true → j'.submitted_at ≡ j.submitted_at
  pub same_window : has_proof j.status ≡ true → j'.dispute_window_end ≡ j.dispute_window_end
  pub bids_grow : j.best_bid_stake ≤ j'.best_bid_stake
  pub count_grows : j.bid_count ≤ j'.bid_count

-- An address before and after: a job appears open, evolves, or goes away once it is finished.
abbrev pub Follows : Option Job → Option Job → Type 0
Follows none none = Unit
Follows none (some j') = j'.status ≡ status_open
Follows (some j) none = is_finished j.status ≡ true
Follows (some j) (some j') = Evolves j j'

abbrev pub JobFollows : ℕ → World → World → Type 0
JobFollows k w w' = Follows (job_at w k) (job_at w' k)

abbrev pub FollowsAt : ℕ → World → Result World → Type 0
FollowsAt k w = Ensures (JobFollows k w)
