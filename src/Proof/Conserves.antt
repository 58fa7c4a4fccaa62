-- ===== src/Proof/Conserves.antt =====
-- No instruction on the submissions of a proof makes or loses lamports.
use taskforest_protocol.Prelude.{ℕ, arith, List}
use taskforest_protocol.Chain.{Env, World}
use taskforest_protocol.Chain.Keeps.{Conserves}
use taskforest_protocol.Proof.{
  VerifiedProof, submit_encrypted_proof, submit_proof, submit_verified_proof,
}

module _ (ks : List ℕ) (env : Env) where
  pub submit_proof-Conserves :
      (proof job submitter : ℕ) (w : World)
      → Conserves ks w (submit_proof env proof job submitter w)
  unfolding submit_proof
  submit_proof-Conserves proof job submitter w = ground arith

  pub submit_verified_proof-Conserves :
      (p : VerifiedProof) (job submitter : ℕ) (w : World)
      → Conserves ks w (submit_verified_proof env p job submitter w)
  unfolding submit_verified_proof
  submit_verified_proof-Conserves p job submitter w = ground arith

  pub submit_encrypted_proof-Conserves :
      (proof output job submitter : ℕ) (w : World)
      → Conserves ks w (submit_encrypted_proof env proof output job submitter w)
  unfolding submit_encrypted_proof
  submit_encrypted_proof-Conserves proof output job submitter w = ground arith
