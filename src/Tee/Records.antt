-- ===== src/Tee/Records.antt =====
-- Every instruction on the attestation of bidding changes the other accounts only as Records
-- allows.
use taskforest_protocol.Prelude.{ℕ, arith}
use taskforest_protocol.Signature.{Sysvar}
use taskforest_protocol.Chain.{World, Env}
use taskforest_protocol.Records.{RecordsFollow}
use taskforest_protocol.Tee.{VerifyBidAttestation, verify_bid_attestation}

module _ (k : ℕ) (env : Env) where
  pub verify_bid_attestation-RecordsFollow :
      (sysvar : Sysvar) (a : VerifyBidAttestation) (w : World)
      → RecordsFollow k w (verify_bid_attestation env sysvar a w)
  unfolding verify_bid_attestation
  verify_bid_attestation-RecordsFollow sysvar a w = ground arith
