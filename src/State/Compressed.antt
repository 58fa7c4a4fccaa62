-- ===== src/State/Compressed.antt =====
-- The compressed records of both programs: programs/taskforest/src/state/compressed.rs and
-- programs/taskforest-payments/src/state/compressed.rs.
use taskforest_protocol.Prelude.{ℕ, ℤ}

pub record CompressedArchive : Type 0 where
  pub job : ℕ
  pub poster : ℕ
  pub claimer : ℕ
  pub reward_lamports : ℕ
  pub claimer_stake : ℕ
  pub verdict : ℕ
  pub proof_hash : ℕ
  pub reason_code : ℕ
  pub settled_at : ℤ

pub record AgentReputation : Type 0 where
  pub agent : ℕ
  pub tasks_completed : ℕ
  pub tasks_failed : ℕ
  pub total_earned : ℕ
  pub total_staked : ℕ
  pub last_active : ℤ

pub record CompressedTtd : Type 0 where
  pub creator : ℕ
  pub ttd_hash : ℕ
  pub ttd_uri_hash : ℕ
  pub version : ℕ
  pub created_at : ℤ

pub record CompressedJob : Type 0 where
  pub poster : ℕ
  pub job_id : ℕ
  pub reward_lamports : ℕ
  pub deadline : ℤ
  pub spec_hash : ℕ
  pub ttd_hash : ℕ
  pub assignment_mode : ℕ
  pub parent_job : ℕ
  pub verification_level : ℕ
  pub verification_mode : ℕ
  pub receipt_root : ℕ
  pub attestation_hash : ℕ
  pub privacy_level : ℕ
  pub status : ℕ
  pub claimer : ℕ
  pub claimer_stake : ℕ
  pub proof_hash : ℕ
  pub submitted_at : ℤ
  pub compressed_at : ℤ

pub record PosterReputation : Type 0 where
  pub poster : ℕ
  pub tasks_posted : ℕ
  pub tasks_settled_pass : ℕ
  pub tasks_settled_fail : ℕ
  pub disputes_initiated : ℕ
  pub disputes_won : ℕ
  pub total_spent : ℕ
  pub avg_settle_secs : ℕ
  pub last_active : ℤ

pub record CompressedSettlement : Type 0 where
  pub escrow_id : ℕ
  pub job_pubkey : ℕ
  pub poster : ℕ
  pub agent : ℕ
  pub total_deposited : ℕ
  pub total_paid : ℕ
  pub settled_at : ℤ
  pub mpp_session_id : ℕ

-- What a leaf of the compressed state holds.
pub data Leaf : Type 0 where
  archive_leaf : CompressedArchive → Leaf
  agent_leaf : AgentReputation → Leaf
  ttd_leaf : CompressedTtd → Leaf
  job_leaf : CompressedJob → Leaf
  poster_leaf : PosterReputation → Leaf
  settlement_leaf : CompressedSettlement → Leaf
