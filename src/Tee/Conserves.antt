-- ===== src/Tee/Conserves.antt =====
-- No instruction on the attestation of bidding makes or loses lamports.
use taskforest_protocol.Prelude.{ℕ, arith, List}
use taskforest_protocol.Signature.{Sysvar}
use taskforest_protocol.Chain.{Env, World}
use taskforest_protocol.Chain.Keeps.{Conserves}
use taskforest_protocol.Tee.{VerifyBidAttestation, verify_bid_attestation}

module _ (ks : List ℕ) (env : Env) where
  pub verify_bid_attestation-Conserves :
      (sysvar : Sysvar) (a : VerifyBidAttestation) (w : World)
      → Conserves ks w (verify_bid_attestation env sysvar a w)
  unfolding verify_bid_attestation
  verify_bid_attestation-Conserves sysvar a w = ground arith
