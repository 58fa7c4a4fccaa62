-- ===== src/Invariant.antt =====
-- What holds of every job account that the programs have written: facts that no single instruction
-- of programs/taskforest/src/instructions checks, and that they keep together.
use taskforest_protocol.Prelude.{
  ℕ, ◌/◌, ◌≤◌, ◌<◌, ◌≡◌, Bool, true, false, ◌||◌, Option, none, some, ◌⊎◌, pos, ◌+ℤ◌, ◌==◌,
}
use taskforest_protocol.Errors.{Result, Ensures}
use taskforest_protocol.State.{
  Job, status_open, status_bidding, status_claimed, status_staked, verification_judge,
  dispute_window_secs,
}
use taskforest_protocol.Chain.{World}
use taskforest_protocol.Lifecycle.{job_at, is_status, is_unclaimed}

-- No proof has been handed in.
abbrev pub is_pending : ℕ → Bool
is_pending s = is_unclaimed s || s == status_claimed || s == status_staked

-- The dispute window is closed to this job, or runs for a day from the submission of a job that
-- asks for verification.
abbrev pub WindowIsRight : Job → Type 0
WindowIsRight j =
    (j.dispute_window_end ≡ pos 0)
    ⊎ ((0 < j.verification_level)
        × (is_pending j.status ≡ false)
        × (j.dispute_window_end ≡ j.submitted_at +ℤ dispute_window_secs))

pub record JobIsValid (j : Job) : Type 0 where
  pub known_status : is_status j.status ≡ true
  pub known_mode : j.verification_mode ≤ verification_judge
  pub some_reward : 0 < j.reward_lamports
  pub no_bid_yet : j.status ≡ status_open → (j.bid_count ≡ 0) × (j.best_bid_stake ≡ 0)
  pub has_bid : j.status ≡ status_bidding → (0 < j.bid_count) × (0 < j.best_bid_stake)
  pub bid_floor : 0 < j.best_bid_stake → j.reward_lamports / 10 ≤ j.best_bid_stake
  pub no_stake_yet : is_unclaimed j.status ≡ true → j.claimer_stake ≡ 0
  pub stake_is_bid :
      0 < j.claimer_stake
      → (j.claimer_stake ≡ j.best_bid_stake) × (j.claimer ≡ j.best_bidder) × (j.tee_verified ≡ true)
  pub staked_has_stake : j.status ≡ status_staked → 0 < j.claimer_stake
  pub no_proof_yet : is_pending j.status ≡ true → (j.proof_hash ≡ 0) × (j.submitted_at ≡ pos 0)
  pub window : WindowIsRight j

abbrev pub ValidAt : Option Job → Type 0
ValidAt none = Unit
ValidAt (some j) = JobIsValid j

-- A step that leaves a valid job, or none, at the address.
abbrev pub Validates : ℕ → Result World → Type 0
Validates k = Ensures λ w'. ValidAt (job_at w' k)
