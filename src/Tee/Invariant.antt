-- ===== src/Tee/Invariant.antt =====
-- Every instruction on the attestation of bidding keeps the job accounts valid.
use taskforest_protocol.Prelude.{ℕ, arith}
use taskforest_protocol.Signature.{Sysvar}
use taskforest_protocol.Chain.{World, Env}
use taskforest_protocol.Lifecycle.{job_at}
use taskforest_protocol.Invariant.{ValidAt, Validates}
use taskforest_protocol.Tee.{VerifyBidAttestation, verify_bid_attestation}

module _ (k : ℕ) (env : Env) where
  pub verify_bid_attestation-Validates :
      (sysvar : Sysvar) (a : VerifyBidAttestation) (w : World)
      → ValidAt (job_at w k)
      → Validates k (verify_bid_attestation env sysvar a w)
  unfolding verify_bid_attestation
  verify_bid_attestation-Validates sysvar a w valid = ground arith
