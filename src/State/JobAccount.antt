-- ===== src/State/JobAccount.antt =====
-- programs/taskforest/src/state/job.rs: the job account.
use taskforest_protocol.Prelude.{ℕ, ◌+◌, Bool, ℤ}

pub record Job : Type 0 where
  pub poster : ℕ
  pub job_id : ℕ
  pub reward_lamports : ℕ
  pub deadline : ℤ
  pub spec_hash : ℕ
  pub ttd_hash : ℕ
  pub privacy_level : ℕ
  pub encryption_pubkey : ℕ
  pub encrypted_input_hash : ℕ
  pub encrypted_output_hash : ℕ
  pub status : ℕ
  pub claimer : ℕ
  pub claimer_stake : ℕ
  pub best_bid_stake : ℕ
  pub best_bidder : ℕ
  pub bid_count : ℕ
  pub proof_hash : ℕ
  pub submitted_at : ℤ
  pub assignment_mode : ℕ
  pub parent_job : ℕ
  pub sub_job_count : ℕ
  pub verification_level : ℕ
  pub verification_mode : ℕ
  pub receipt_root : ℕ
  pub receipt_uri : ℕ
  pub attestation_hash : ℕ
  pub dispute_window_end : ℤ
  pub tee_pubkey : ℕ
  pub tee_verified : Bool
  pub bump : ℕ

-- `Job::SIZE`, summand by summand
abbrev pub job_size : ℕ
job_size =
    8 + 32 + 8 + 8 + 8 + 32 + 32 + 1 + 32 + 32 + 32 + 1 + 32 + 8 + 8 + 32 + 4 + 32 + 8 + 1 + 32 + 2
    + 1 + 1 + 32 + 32 + 32 + 8 + 32 + 1 + 1
