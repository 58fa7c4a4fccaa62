-- ===== src/Proof/Escrow.antt =====
-- Every instruction on the submissions of a proof keeps in the job accounts what they must hold.
use taskforest_protocol.Prelude.{ℕ, arith}
use taskforest_protocol.Chain.{Env, IsLawful, Runtime, World}
use taskforest_protocol.Escrow.{JobIsFunded, Funds, SignsFairly}
use taskforest_protocol.Proof.{
  VerifiedProof, submit_proof, submit_verified_proof, submit_encrypted_proof,
}

module _ (k : ℕ) (env : Env) (rt : Runtime) (law : IsLawful rt) where
  pub submit_proof-Funds :
      (proof job submitter : ℕ) (w : World)
      → JobIsFunded rt k w
      → SignsFairly rt env w
      → Funds rt k (submit_proof env proof job submitter w)
  unfolding submit_proof
  submit_proof-Funds proof job submitter w funded fair = ground arith

  pub submit_verified_proof-Funds :
      (p : VerifiedProof) (job submitter : ℕ) (w : World)
      → JobIsFunded rt k w
      → SignsFairly rt env w
      → Funds rt k (submit_verified_proof env p job submitter w)
  unfolding submit_verified_proof
  submit_verified_proof-Funds p job submitter w funded fair = ground arith

  pub submit_encrypted_proof-Funds :
      (proof output job submitter : ℕ) (w : World)
      → JobIsFunded rt k w
      → SignsFairly rt env w
      → Funds rt k (submit_encrypted_proof env proof output job submitter w)
  unfolding submit_encrypted_proof
  submit_encrypted_proof-Funds proof output job submitter w funded fair = ground arith
