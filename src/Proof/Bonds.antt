-- ===== src/Proof/Bonds.antt =====
-- Every instruction on the submissions of a proof keeps in the accounts of disputes and escrows
-- what they must hold.
use taskforest_protocol.Prelude.{ℕ, arith}
use taskforest_protocol.Chain.{Env, IsLawful, Runtime, World}
use taskforest_protocol.Escrow.{SignsFairly}
use taskforest_protocol.Bonds.{BondIsHeld, Holds}
use taskforest_protocol.Proof.{
  VerifiedProof, submit_proof, submit_verified_proof, submit_encrypted_proof,
}

module _ (k : ℕ) (env : Env) (rt : Runtime) (law : IsLawful rt) where
  pub submit_proof-Holds :
      (proof job submitter : ℕ) (w : World)
      → BondIsHeld rt k w
      → SignsFairly rt env w
      → Holds rt k (submit_proof env proof job submitter w)
  unfolding submit_proof
  submit_proof-Holds proof job submitter w held fair = ground arith

  pub submit_verified_proof-Holds :
      (p : VerifiedProof) (job submitter : ℕ) (w : World)
      → BondIsHeld rt k w
      → SignsFairly rt env w
      → Holds rt k (submit_verified_proof env p job submitter w)
  unfolding submit_verified_proof
  submit_verified_proof-Holds p job submitter w held fair = ground arith

  pub submit_encrypted_proof-Holds :
      (proof output job submitter : ℕ) (w : World)
      → BondIsHeld rt k w
      → SignsFairly rt env w
      → Holds rt k (submit_encrypted_proof env proof output job submitter w)
  unfolding submit_encrypted_proof
  submit_encrypted_proof-Holds proof output job submitter w held fair = ground arith
