-- ===== src/Proof/Records.antt =====
-- Every instruction on the submissions of a proof changes the other accounts only as Records
-- allows.
use taskforest_protocol.Prelude.{ℕ, arith}
use taskforest_protocol.Chain.{World, Env}
use taskforest_protocol.Records.{RecordsFollow}
use taskforest_protocol.Proof.{
  VerifiedProof, submit_proof, submit_verified_proof, submit_encrypted_proof,
}

module _ (k : ℕ) (env : Env) where
  pub submit_proof-RecordsFollow :
      (proof job submitter : ℕ) (w : World)
      → RecordsFollow k w (submit_proof env proof job submitter w)
  unfolding submit_proof
  submit_proof-RecordsFollow proof job submitter w = ground arith

  pub submit_verified_proof-RecordsFollow :
      (p : VerifiedProof) (job submitter : ℕ) (w : World)
      → RecordsFollow k w (submit_verified_proof env p job submitter w)
  unfolding submit_verified_proof
  submit_verified_proof-RecordsFollow p job submitter w = ground arith

  pub submit_encrypted_proof-RecordsFollow :
      (proof output job submitter : ℕ) (w : World)
      → RecordsFollow k w (submit_encrypted_proof env proof output job submitter w)
  unfolding submit_encrypted_proof
  submit_encrypted_proof-RecordsFollow proof output job submitter w = ground arith
