-- ===== src/Proof.antt =====
-- programs/taskforest/src/instructions/proof.rs: the three ways to submit the proof of a job.
pub mod Escrow
pub mod Invariant
pub mod Conserves
pub mod Lifecycle
pub mod Bonds
pub mod Sound
pub mod Records
pub mod Submitted
use taskforest_protocol.Prelude.{ℕ, Bool, ◌||◌, pos, leb, leb_ℤ, ◌==◌, if◌then◌else◌}
use taskforest_protocol.Errors.{
  Result, ok, ◌>>=◌, ◌>>◌, require, task_forest, wrong_status, invalid_claimer, TaskForestError,
  deadline_passed,
}
use taskforest_protocol.Words.{checked_sum_i64}
use taskforest_protocol.State.{
  taskforest_id, status_claimed, status_staked, status_submitted, dispute_window_secs,
}
use taskforest_protocol.Chain.{World, Env, job_account, as_job, signer, load, store}

pub submit_proof : Env → ℕ → ℕ → ℕ → World → Result World
submit_proof env proof_hash job_key submitter w = do
  job ← load as_job taskforest_id job_key w
  signer env submitter
  require (job.status == status_staked || job.status == status_claimed) (task_forest wrong_status)
  require (job.claimer == submitter) (task_forest invalid_claimer)
  require (leb_ℤ env.now job.deadline) (task_forest deadline_passed)
  ok (
      store job_key
        (job_account (record job {
          proof_hash = proof_hash;
          submitted_at = env.now;
          status = status_submitted;
        }))
        w)

-- The arguments of `submit_verified_proof`.
pub record VerifiedProof : Type 0 where
  pub proof_hash : ℕ
  pub receipt_root : ℕ
  pub receipt_uri : ℕ
  pub attestation_hash : ℕ

-- A job with a verification level gets a dispute window.
unfoldable pub submit_verified_proof : Env → VerifiedProof → ℕ → ℕ → World → Result World
submit_verified_proof env p job_key submitter w = do
  job ← load as_job taskforest_id job_key w
  signer env submitter
  require (job.status == status_staked || job.status == status_claimed) (task_forest wrong_status)
  require (job.claimer == submitter) (task_forest invalid_claimer)
  require (leb_ℤ env.now job.deadline) (task_forest deadline_passed)
  window_end ←
      (if leb 1 job.verification_level
        then checked_sum_i64 env.now dispute_window_secs
        else ok (pos 0))
  ok (
      store job_key
        (job_account (record job {
          proof_hash = p.proof_hash;
          receipt_root = p.receipt_root;
          receipt_uri = p.receipt_uri;
          attestation_hash = p.attestation_hash;
          submitted_at = env.now;
          dispute_window_end = window_end;
          status = status_submitted;
        }))
        w)

pub submit_encrypted_proof : Env → ℕ → ℕ → ℕ → ℕ → World → Result World
submit_encrypted_proof env proof_hash encrypted_output_hash job_key submitter w = do
  job ← load as_job taskforest_id job_key w
  signer env submitter
  require (job.status == status_claimed || job.status == status_staked) (task_forest wrong_status)
  require (job.claimer == submitter) (task_forest TaskForestError.unauthorized)
  require (leb_ℤ env.now job.deadline) (task_forest deadline_passed)
  ok (
      store job_key
        (job_account (record job {
          proof_hash = proof_hash;
          encrypted_output_hash = encrypted_output_hash;
          submitted_at = env.now;
          status = status_submitted;
        }))
        w)
