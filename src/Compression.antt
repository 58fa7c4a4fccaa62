-- ===== src/Compression.antt =====
-- programs/taskforest/src/instructions/compressed.rs and
-- programs/taskforest-payments/src/instructions/compressed.rs: records kept as leaves of the
-- compressed state, and a finished job that is compressed and closed.
pub mod Escrow
pub mod Invariant
pub mod Conserves
pub mod Lifecycle
pub mod Bonds
pub mod Sound
pub mod Records
pub mod Closed
use taskforest_protocol.Prelude.{
  ℕ, ◌+◌, ◌≡◌, Bool, ◌||◌, Option, none, some, List, [], ◌∷◌, leb, ◌==◌, if◌then◌else◌,
}
use taskforest_protocol.Errors.{
  Error, Result, ok, ◌>>=◌, ◌>>◌, require, ok_or, task_forest, wrong_status, payments,
  compression_failed, not_enough_keys, constraint_has_one,
}
use taskforest_protocol.Words.{to_le_bytes, u64_max}
use taskforest_protocol.State.{
  CompressedJob, Job, Leaf, archive_leaf, agent_leaf, ttd_leaf, job_leaf, poster_leaf,
  settlement_leaf, AgentReputation, PosterReputation, taskforest_id, payments_id, status_done,
  status_failed,
}
use taskforest_protocol.Chain.{World, Env, vacant, as_job, as_escrow, signer, load, update}

-- What the programs take from the compression service: the address tree that the client's tree
-- information names, the address derived from seeds in it, and the creation of a leaf at a new
-- address under a proof. The proof and the tree information are the client's and are opaque.
pub record Light : Type 0 where
  pub tree_pubkey : ℕ → Option ℕ
  pub derive_address : List (List ℕ) → ℕ → ℕ → ℕ
  pub create_leaf : ℕ → ℕ → Leaf → (ℕ → Option Leaf) → Option (ℕ → Option Leaf)

-- What is documented of it: an address is used once, and the leaf stands there afterwards.
pub record IsLawfulLight (light : Light) : Type 0 where
  pub creates :
      (proof address : ℕ) (leaf : Leaf) (ls ls' : ℕ → Option Leaf)
      → light.create_leaf proof address leaf ls ≡ some ls'
      → (ls address ≡ none) × (ls' ≡ update address (some leaf) ls)

-- The client's arguments for the service.
pub record LightArgs : Type 0 where
  pub proof : ℕ
  pub address_tree_info : ℕ

abbrev archive_leaf_seed : List ℕ
archive_leaf_seed =
    b'c' ∷ b'o' ∷ b'm' ∷ b'p' ∷ b'r' ∷ b'e' ∷ b's' ∷ b's' ∷ b'e' ∷ b'd' ∷ b'_' ∷ b'a' ∷ b'r' ∷ b'c'
    ∷ b'h' ∷ b'i' ∷ b'v' ∷ b'e' ∷ []

abbrev agent_leaf_seed : List ℕ
agent_leaf_seed =
    b'a' ∷ b'g' ∷ b'e' ∷ b'n' ∷ b't' ∷ b'_' ∷ b'r' ∷ b'e' ∷ b'p' ∷ b'u' ∷ b't' ∷ b'a' ∷ b't' ∷ b'i'
    ∷ b'o' ∷ b'n' ∷ []

abbrev poster_leaf_seed : List ℕ
poster_leaf_seed =
    b'p' ∷ b'o' ∷ b's' ∷ b't' ∷ b'e' ∷ b'r' ∷ b'_' ∷ b'r' ∷ b'e' ∷ b'p' ∷ b'u' ∷ b't' ∷ b'a' ∷ b't'
    ∷ b'i' ∷ b'o' ∷ b'n' ∷ []

abbrev ttd_leaf_seed : List ℕ
ttd_leaf_seed =
    b'c' ∷ b'o' ∷ b'm' ∷ b'p' ∷ b'r' ∷ b'e' ∷ b's' ∷ b's' ∷ b'e' ∷ b'd' ∷ b'_' ∷ b't' ∷ b't' ∷ b'd'
    ∷ []

abbrev pub job_leaf_seed : List ℕ
job_leaf_seed =
    b'c' ∷ b'o' ∷ b'm' ∷ b'p' ∷ b'r' ∷ b'e' ∷ b's' ∷ b's' ∷ b'e' ∷ b'd' ∷ b'_' ∷ b'j' ∷ b'o' ∷ b'b'
    ∷ []

abbrev settlement_leaf_seed : List ℕ
settlement_leaf_seed =
    b'c' ∷ b'o' ∷ b'm' ∷ b'p' ∷ b'r' ∷ b'e' ∷ b's' ∷ b's' ∷ b'e' ∷ b'd' ∷ b'_' ∷ b's' ∷ b'e' ∷ b't'
    ∷ b't' ∷ b'l' ∷ b'e' ∷ b'm' ∷ b'e' ∷ b'n' ∷ b't' ∷ []

-- The block that every handler here ends with: derive the leaf's address in the client's tree and
-- have the service create it.
unfoldable pub put_leaf :
    Light → LightArgs → ℕ → Error → List (List ℕ) → Leaf → World → Result World
put_leaf light l program failure seeds leaf w = do
  tree ← ok_or (light.tree_pubkey l.address_tree_info) not_enough_keys
  leaves ←
      ok_or (light.create_leaf l.proof (light.derive_address seeds tree program) leaf w.leaves)
        failure
  ok (record w { leaves = leaves })

pub archive_settlement_compressed : Light → Env → LightArgs → ℕ → ℕ → ℕ → World → Result World
unfolding put_leaf
archive_settlement_compressed light env l reason_code signer_key job_key w = do
  signer env signer_key
  job ← load as_job taskforest_id job_key w
  require (job.status == status_done || job.status == status_failed) (task_forest wrong_status)
  put_leaf light l taskforest_id (task_forest wrong_status)
      (archive_leaf_seed ∷ to_le_bytes 32 job_key ∷ [])
      (archive_leaf (record {
        job = job_key;
        poster = job.poster;
        claimer = job.claimer;
        reward_lamports = job.reward_lamports;
        claimer_stake = job.claimer_stake;
        verdict = (if job.status == status_done then 1 else 0);
        proof_hash = job.proof_hash;
        reason_code = reason_code;
        settled_at = env.now;
      }))
      w

-- The numbers are the caller's own; the agent and the time of the record given are replaced by the
-- signer and the clock.
pub init_agent_reputation : Light → Env → LightArgs → AgentReputation → ℕ → World → Result World
unfolding put_leaf
init_agent_reputation light env l r signer_key w = do
  signer env signer_key
  put_leaf light l taskforest_id (task_forest wrong_status)
      (agent_leaf_seed ∷ to_le_bytes 32 signer_key ∷ [])
      (agent_leaf (record r { agent = signer_key; last_active = env.now })) w

pub init_poster_reputation : Light → Env → LightArgs → PosterReputation → ℕ → World → Result World
unfolding put_leaf
init_poster_reputation light env l r signer_key w = do
  signer env signer_key
  put_leaf light l taskforest_id (task_forest wrong_status)
      (poster_leaf_seed ∷ to_le_bytes 32 signer_key ∷ [])
      (poster_leaf (record r { poster = signer_key; last_active = env.now })) w

pub register_ttd_compressed : Light → Env → LightArgs → ℕ → ℕ → ℕ → ℕ → World → Result World
unfolding put_leaf
register_ttd_compressed light env l ttd_hash ttd_uri_hash version signer_key w = do
  signer env signer_key
  put_leaf light l taskforest_id (task_forest wrong_status)
      (ttd_leaf_seed ∷ to_le_bytes 32 signer_key ∷ to_le_bytes 32 ttd_hash ∷ [])
      (ttd_leaf (record {
        creator = signer_key;
        ttd_hash = ttd_hash;
        ttd_uri_hash = ttd_uri_hash;
        version = version;
        created_at = env.now;
      }))
      w

-- The job's lamports all go to the poster; an account that is left with none is gone when the
-- transaction ends, here with this instruction.
pub close_job : ℕ → ℕ → World → Result World
close_job job_key poster w = do
  let emptied = update job_key 0 w.lamports
  require (leb (emptied poster + w.lamports job_key) u64_max) (task_forest wrong_status)
  ok (record w {
    lamports = update poster (emptied poster + w.lamports job_key) emptied;
    owner = update job_key 0 w.owner;
    content = update job_key vacant w.content;
  })

-- What the leaf of a finished job says.
pub finished_leaf : Env → Job → CompressedJob
finished_leaf env job = record {
  poster = job.poster;
  job_id = job.job_id;
  reward_lamports = job.reward_lamports;
  deadline = job.deadline;
  spec_hash = job.spec_hash;
  ttd_hash = job.ttd_hash;
  assignment_mode = job.assignment_mode;
  parent_job = job.parent_job;
  verification_level = job.verification_level;
  verification_mode = job.verification_mode;
  receipt_root = job.receipt_root;
  attestation_hash = job.attestation_hash;
  privacy_level = job.privacy_level;
  status = job.status;
  claimer = job.claimer;
  claimer_stake = job.claimer_stake;
  proof_hash = job.proof_hash;
  submitted_at = job.submitted_at;
  compressed_at = env.now;
}

pub compress_finished_job : Light → Env → LightArgs → ℕ → ℕ → World → Result World
unfolding put_leaf close_job
compress_finished_job light env l poster job_key w = do
  signer env poster
  job ← load as_job taskforest_id job_key w
  require (job.poster == poster) constraint_has_one
  require (job.status == status_done || job.status == status_failed) (task_forest wrong_status)
  w₁ ←
      put_leaf light l taskforest_id (task_forest wrong_status)
        (job_leaf_seed ∷ to_le_bytes 32 job_key ∷ []) (job_leaf (finished_leaf env job)) w
  close_job job_key poster w₁

-- The sum paid is the one that the caller names, and any signer may call it.
pub compress_settlement : Light → Env → LightArgs → ℕ → ℕ → ℕ → World → Result World
unfolding put_leaf
compress_settlement light env l total_paid escrow_key signer_key w = do
  escrow ← load as_escrow payments_id escrow_key w
  signer env signer_key
  put_leaf light l payments_id (payments compression_failed)
      (settlement_leaf_seed ∷ to_le_bytes 32 escrow_key ∷ [])
      (settlement_leaf (record {
        escrow_id = escrow.escrow_id;
        job_pubkey = escrow.job_pubkey;
        poster = escrow.poster;
        agent = escrow.agent;
        total_deposited = escrow.deposited;
        total_paid = total_paid;
        settled_at = env.now;
        mpp_session_id = escrow.mpp_session_id;
      }))
      w
