-- ===== src/Proof/Invariant.antt =====
-- Every instruction on the submissions of a proof keeps the job accounts valid.
use taskforest_protocol.Prelude.{ℕ, arith}
use taskforest_protocol.Words.{checked_sum_i64}
use taskforest_protocol.Chain.{World, Env}
use taskforest_protocol.Lifecycle.{job_at}
use taskforest_protocol.Invariant.{ValidAt, Validates}
use taskforest_protocol.Proof.{
  VerifiedProof, submit_proof, submit_verified_proof, submit_encrypted_proof,
}

module _ (k : ℕ) (env : Env) where
  pub submit_proof-Validates :
      (proof job submitter : ℕ) (w : World)
      → ValidAt (job_at w k)
      → Validates k (submit_proof env proof job submitter w)
  unfolding submit_proof
  submit_proof-Validates proof job submitter w valid = ground arith

  pub submit_verified_proof-Validates :
      (p : VerifiedProof) (job submitter : ℕ) (w : World)
      → ValidAt (job_at w k)
      → Validates k (submit_verified_proof env p job submitter w)
  unfolding submit_verified_proof checked_sum_i64
  submit_verified_proof-Validates p job submitter w valid = ground arith

  pub submit_encrypted_proof-Validates :
      (proof output job submitter : ℕ) (w : World)
      → ValidAt (job_at w k)
      → Validates k (submit_encrypted_proof env proof output job submitter w)
  unfolding submit_encrypted_proof
  submit_encrypted_proof-Validates proof output job submitter w valid = ground arith
