-- ===== src/Tee/Bonds.antt =====
-- Every instruction on the attestation of bidding keeps in the accounts of disputes and escrows
-- what they must hold.
use taskforest_protocol.Prelude.{ℕ, arith}
use taskforest_protocol.Signature.{Sysvar}
use taskforest_protocol.Chain.{Env, IsLawful, Runtime, World}
use taskforest_protocol.Escrow.{SignsFairly}
use taskforest_protocol.Bonds.{BondIsHeld, Holds}
use taskforest_protocol.Tee.{VerifyBidAttestation, verify_bid_attestation}

module _ (k : ℕ) (env : Env) (rt : Runtime) (law : IsLawful rt) where
  pub verify_bid_attestation-Holds :
      (sysvar : Sysvar) (a : VerifyBidAttestation) (w : World)
      → BondIsHeld rt k w
      → SignsFairly rt env w
      → Holds rt k (verify_bid_attestation env sysvar a w)
  unfolding verify_bid_attestation
  verify_bid_attestation-Holds sysvar a w held fair = ground arith
