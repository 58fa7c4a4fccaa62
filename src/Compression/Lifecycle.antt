-- ===== src/Compression/Lifecycle.antt =====
-- Every instruction on compressed records changes the job accounts only as Lifecycle allows.
use taskforest_protocol.Prelude.{ℕ, arith}
use taskforest_protocol.State.{AgentReputation, PosterReputation}
use taskforest_protocol.Chain.{World, Env}
use taskforest_protocol.Lifecycle.{FollowsAt}
use taskforest_protocol.Compression.{
  Light, LightArgs, archive_settlement_compressed, init_agent_reputation, init_poster_reputation,
  register_ttd_compressed, compress_finished_job, compress_settlement,
}

module _ (k : ℕ) (env : Env) where
  pub archive_settlement_compressed-FollowsAt :
      (light : Light) (l : LightArgs) (reason payer job : ℕ) (w : World)
      → FollowsAt k w (archive_settlement_compressed light env l reason payer job w)
  unfolding archive_settlement_compressed
  archive_settlement_compressed-FollowsAt light l reason payer job w = ground arith

  pub init_agent_reputation-FollowsAt :
      (light : Light) (l : LightArgs) (r : AgentReputation) (payer : ℕ) (w : World)
      → FollowsAt k w (init_agent_reputation light env l r payer w)
  unfolding init_agent_reputation
  init_agent_reputation-FollowsAt light l r payer w = ground arith

  pub init_poster_reputation-FollowsAt :
      (light : Light) (l : LightArgs) (r : PosterReputation) (payer : ℕ) (w : World)
      → FollowsAt k w (init_poster_reputation light env l r payer w)
  unfolding init_poster_reputation
  init_poster_reputation-FollowsAt light l r payer w = ground arith

  pub register_ttd_compressed-FollowsAt :
      (light : Light) (l : LightArgs) (hash uri version payer : ℕ) (w : World)
      → FollowsAt k w (register_ttd_compressed light env l hash uri version payer w)
  unfolding register_ttd_compressed
  register_ttd_compressed-FollowsAt light l hash uri version payer w = ground arith

  pub compress_finished_job-FollowsAt :
      (light : Light) (l : LightArgs) (poster job : ℕ) (w : World)
      → FollowsAt k w (compress_finished_job light env l poster job w)
  unfolding compress_finished_job
  compress_finished_job-FollowsAt light l poster job w = ground arith

  pub compress_settlement-FollowsAt :
      (light : Light) (l : LightArgs) (paid escrow payer : ℕ) (w : World)
      → FollowsAt k w (compress_settlement light env l paid escrow payer w)
  unfolding compress_settlement
  compress_settlement-FollowsAt light l paid escrow payer w = ground arith
