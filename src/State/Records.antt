-- ===== src/State/Records.antt =====
-- The other accounts of the taskforest program: state/dispute.rs, state/settlement.rs,
-- state/ttd.rs and state/vault.rs under programs/taskforest/src.
use taskforest_protocol.Prelude.{ℕ, ◌+◌, Bool, ℤ, List}

-- A dispute's status: 0 is open, 1 the agent wins, 2 the challenger wins.
pub record DisputeRecord : Type 0 where
  pub job : ℕ
  pub spec_hash : ℕ
  pub challenger : ℕ
  pub challenger_stake : ℕ
  pub disputed_thread : ℕ
  pub challenger_receipt_hash : ℕ
  pub original_receipt_hash : ℕ
  pub status : ℕ
  pub evidence_uri : ℕ
  pub opened_at : ℤ
  pub resolved_at : ℤ
  pub bump : ℕ

abbrev pub dispute_size : ℕ
dispute_size = 8 + 32 + 32 + 32 + 8 + 4 + 32 + 32 + 1 + 32 + 8 + 8 + 1

pub record VerifierVote : Type 0 where
  pub dispute : ℕ
  pub verifier : ℕ
  pub verdict : ℕ
  pub voted_at : ℤ
  pub bump : ℕ

abbrev pub vote_size : ℕ
vote_size = 8 + 32 + 32 + 1 + 8 + 1

pub record SettlementArchive : Type 0 where
  pub job : ℕ
  pub poster : ℕ
  pub claimer : ℕ
  pub reward_lamports : ℕ
  pub claimer_stake : ℕ
  pub verdict : ℕ
  pub proof_hash : ℕ
  pub reason_code : ℕ
  pub settled_at : ℤ
  pub bump : ℕ

abbrev pub archive_size : ℕ
archive_size = 8 + 32 + 32 + 32 + 8 + 8 + 1 + 32 + 32 + 8 + 1

-- The URI is the list of its bytes.
pub record TaskTypeDefinition : Type 0 where
  pub creator : ℕ
  pub ttd_hash : ℕ
  pub ttd_uri : List ℕ
  pub version : ℕ
  pub created_at : ℤ
  pub bump : ℕ

abbrev pub max_uri_len : ℕ
max_uri_len = 128

abbrev pub ttd_size : ℕ
ttd_size = 8 + 32 + 32 + (4 + max_uri_len) + 2 + 8 + 1

pub record CredentialVault : Type 0 where
  pub poster : ℕ
  pub job : ℕ
  pub encrypted_cred_hash : ℕ
  pub is_active : Bool
  pub bump : ℕ

abbrev pub vault_size : ℕ
vault_size = 8 + 32 + 32 + 32 + 1 + 1
