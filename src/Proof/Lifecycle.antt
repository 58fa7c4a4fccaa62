-- ===== src/Proof/Lifecycle.antt =====
-- Every instruction on the submissions of a proof changes the job accounts only as Lifecycle
-- allows.
use taskforest_protocol.Prelude.{ℕ, arith}
use taskforest_protocol.Chain.{World, Env}
use taskforest_protocol.Lifecycle.{FollowsAt}
use taskforest_protocol.Proof.{
  VerifiedProof, submit_proof, submit_verified_proof, submit_encrypted_proof,
}

module _ (k : ℕ) (env : Env) where
  pub submit_proof-FollowsAt :
      (proof job submitter : ℕ) (w : World) → FollowsAt k w (submit_proof env proof job submitter w)
  unfolding submit_proof
  submit_proof-FollowsAt proof job submitter w = ground arith

  pub submit_verified_proof-FollowsAt :
      (p : VerifiedProof) (job submitter : ℕ) (w : World)
      → FollowsAt k w (submit_verified_proof env p job submitter w)
  unfolding submit_verified_proof
  submit_verified_proof-FollowsAt p job submitter w = ground arith

  pub submit_encrypted_proof-FollowsAt :
      (proof output job submitter : ℕ) (w : World)
      → FollowsAt k w (submit_encrypted_proof env proof output job submitter w)
  unfolding submit_encrypted_proof
  submit_encrypted_proof-FollowsAt proof output job submitter w = ground arith
