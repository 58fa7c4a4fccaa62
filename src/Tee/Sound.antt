-- ===== src/Tee/Sound.antt =====
-- Every instruction on the attestation of bidding keeps all accounts sound.
use taskforest_protocol.Prelude.{ℕ, arith}
use taskforest_protocol.Signature.{Sysvar}
use taskforest_protocol.Chain.{Env, Runtime, World}
use taskforest_protocol.Accounts.{AccountIsSound, StaysSound}
use taskforest_protocol.Tee.{VerifyBidAttestation, verify_bid_attestation}

module _ (k : ℕ) (env : Env) (rt : Runtime) where
  pub verify_bid_attestation-StaysSound :
      (sysvar : Sysvar) (a : VerifyBidAttestation) (w : World)
      → AccountIsSound rt k w
      → StaysSound rt k (verify_bid_attestation env sysvar a w)
  unfolding verify_bid_attestation
  verify_bid_attestation-StaysSound sysvar a w sound = ground arith
