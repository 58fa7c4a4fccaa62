-- ===== src/Tee/Escrow.antt =====
-- Every instruction on the attestation of bidding keeps in the job accounts what they must hold.
use taskforest_protocol.Prelude.{ℕ, arith}
use taskforest_protocol.Signature.{Sysvar}
use taskforest_protocol.Chain.{Env, IsLawful, Runtime, World}
use taskforest_protocol.Escrow.{JobIsFunded, Funds, SignsFairly}
use taskforest_protocol.Tee.{VerifyBidAttestation, verify_bid_attestation}

module _ (k : ℕ) (env : Env) (rt : Runtime) (law : IsLawful rt) where
  pub verify_bid_attestation-Funds :
      (sysvar : Sysvar) (a : VerifyBidAttestation) (w : World)
      → JobIsFunded rt k w
      → SignsFairly rt env w
      → Funds rt k (verify_bid_attestation env sysvar a w)
  unfolding verify_bid_attestation
  verify_bid_attestation-Funds sysvar a w funded fair = ground arith
