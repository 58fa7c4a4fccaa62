-- ===== src/Tee/Lifecycle.antt =====
-- Every instruction on the attestation of bidding changes the job accounts only as Lifecycle
-- allows.
use taskforest_protocol.Prelude.{ℕ, arith}
use taskforest_protocol.Signature.{Sysvar}
use taskforest_protocol.Chain.{World, Env}
use taskforest_protocol.Lifecycle.{FollowsAt}
use taskforest_protocol.Tee.{VerifyBidAttestation, verify_bid_attestation}

module _ (k : ℕ) (env : Env) where
  pub verify_bid_attestation-FollowsAt :
      (sysvar : Sysvar) (a : VerifyBidAttestation) (w : World)
      → FollowsAt k w (verify_bid_attestation env sysvar a w)
  unfolding verify_bid_attestation
  verify_bid_attestation-FollowsAt sysvar a w = ground arith
