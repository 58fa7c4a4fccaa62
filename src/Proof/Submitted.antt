-- ===== src/Proof/Submitted.antt =====
-- What `handler_submit_proof` of programs/taskforest/src/instructions/proof.rs leaves of a staked
-- job.
use taskforest_protocol.Prelude.{false, ℕ, ◌≡◌, some, true, arith, ◌≤ℤ◌}
use taskforest_protocol.Errors.{ok}
use taskforest_protocol.State.{Job, status_staked, status_submitted}
use taskforest_protocol.Chain.{World, Env, job_account, store}
use taskforest_protocol.Lifecycle.{job_at}
use taskforest_protocol.Proof.{submit_proof}

abbrev pub submission : Env → ℕ → Job → Job
submission env hash job = record job {
  proof_hash = hash;
  submitted_at = env.now;
  status = status_submitted;
}

pub submit_proof_lem :
    (env : Env) (hash key : ℕ) (job : Job) (w : World)
    → job_at w key ≡ some job
    → w.away key ≡ false
    → job.status ≡ status_staked
    → env.signed job.claimer ≡ true
    → env.now ≤ℤ job.deadline
    → submit_proof env hash key job.claimer w
      ≡ ok (store key (job_account (submission env hash job)) w)
unfolding submit_proof
submit_proof_lem env hash key job w at near st signs in_time = ground arith
