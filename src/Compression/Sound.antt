-- ===== src/Compression/Sound.antt =====
-- Every instruction on compressed records keeps all accounts sound.
use taskforest_protocol.Prelude.{ℕ, arith}
use taskforest_protocol.State.{AgentReputation, PosterReputation}
use taskforest_protocol.Chain.{Env, Runtime, World}
use taskforest_protocol.Accounts.{AccountIsSound, StaysSound}
use taskforest_protocol.Compression.{
  Light, LightArgs, archive_settlement_compressed, init_agent_reputation, init_poster_reputation,
  register_ttd_compressed, compress_finished_job, compress_settlement,
}

module _ (k : ℕ) (env : Env) (rt : Runtime) where
  pub archive_settlement_compressed-StaysSound :
      (light : Light) (l : LightArgs) (reason payer job : ℕ) (w : World)
      → AccountIsSound rt k w
      → StaysSound rt k (archive_settlement_compressed light env l reason payer job w)
  unfolding archive_settlement_compressed
  archive_settlement_compressed-StaysSound light l reason payer job w sound = ground arith

  pub init_agent_reputation-StaysSound :
      (light : Light) (l : LightArgs) (r : AgentReputation) (payer : ℕ) (w : World)
      → AccountIsSound rt k w
      → StaysSound rt k (init_agent_reputation light env l r payer w)
  unfolding init_agent_reputation
  init_agent_reputation-StaysSound light l r payer w sound = ground arith

  pub init_poster_reputation-StaysSound :
      (light : Light) (l : LightArgs) (r : PosterReputation) (payer : ℕ) (w : World)
      → AccountIsSound rt k w
      → StaysSound rt k (init_poster_reputation light env l r payer w)
  unfolding init_poster_reputation
  init_poster_reputation-StaysSound light l r payer w sound = ground arith

  pub register_ttd_compressed-StaysSound :
      (light : Light) (l : LightArgs) (hash uri version payer : ℕ) (w : World)
      → AccountIsSound rt k w
      → StaysSound rt k (register_ttd_compressed light env l hash uri version payer w)
  unfolding register_ttd_compressed
  register_ttd_compressed-StaysSound light l hash uri version payer w sound = ground arith

  pub compress_finished_job-StaysSound :
      (light : Light) (l : LightArgs) (poster job : ℕ) (w : World)
      → AccountIsSound rt k w
      → StaysSound rt k (compress_finished_job light env l poster job w)
  unfolding compress_finished_job
  compress_finished_job-StaysSound light l poster job w sound = ground arith

  pub compress_settlement-StaysSound :
      (light : Light) (l : LightArgs) (paid escrow payer : ℕ) (w : World)
      → AccountIsSound rt k w
      → StaysSound rt k (compress_settlement light env l paid escrow payer w)
  unfolding compress_settlement
  compress_settlement-StaysSound light l paid escrow payer w sound = ground arith
