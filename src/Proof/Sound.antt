-- ===== src/Proof/Sound.antt =====
-- Every instruction on the submissions of a proof keeps all accounts sound.
use taskforest_protocol.Prelude.{ℕ, arith}
use taskforest_protocol.Chain.{Env, Runtime, World}
use taskforest_protocol.Accounts.{AccountIsSound, StaysSound}
use taskforest_protocol.Proof.{
  VerifiedProof, submit_proof, submit_verified_proof, submit_encrypted_proof,
}

module _ (k : ℕ) (env : Env) (rt : Runtime) where
  pub submit_proof-StaysSound :
      (proof job submitter : ℕ) (w : World)
      → AccountIsSound rt k w
      → StaysSound rt k (submit_proof env proof job submitter w)
  unfolding submit_proof
  submit_proof-StaysSound proof job submitter w sound = ground arith

  pub submit_verified_proof-StaysSound :
      (p : VerifiedProof) (job submitter : ℕ) (w : World)
      → AccountIsSound rt k w
      → StaysSound rt k (submit_verified_proof env p job submitter w)
  unfolding submit_verified_proof
  submit_verified_proof-StaysSound p job submitter w sound = ground arith

  pub submit_encrypted_proof-StaysSound :
      (proof output job submitter : ℕ) (w : World)
      → AccountIsSound rt k w
      → StaysSound rt k (submit_encrypted_proof env proof output job submitter w)
  unfolding submit_encrypted_proof
  submit_encrypted_proof-StaysSound proof output job submitter w sound = ground arith
