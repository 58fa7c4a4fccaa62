-- ===== src/Compression/Invariant.antt =====
-- Every instruction on compressed records keeps the job accounts valid.
use taskforest_protocol.Prelude.{ℕ, arith}
use taskforest_protocol.State.{AgentReputation, PosterReputation}
use taskforest_protocol.Chain.{World, Env}
use taskforest_protocol.Lifecycle.{job_at}
use taskforest_protocol.Invariant.{ValidAt, Validates}
use taskforest_protocol.Compression.{
  Light, LightArgs, archive_settlement_compressed, init_agent_reputation, init_poster_reputation,
  register_ttd_compressed, compress_finished_job, compress_settlement,
}

module _ (k : ℕ) (env : Env) where
  pub archive_settlement_compressed-Validates :
      (light : Light) (l : LightArgs) (reason payer job : ℕ) (w : World)
      → ValidAt (job_at w k)
      → Validates k (archive_settlement_compressed light env l reason payer job w)
  unfolding archive_settlement_compressed
  archive_settlement_compressed-Validates light l reason payer job w valid = ground arith

  pub init_agent_reputation-Validates :
      (light : Light) (l : LightArgs) (r : AgentReputation) (payer : ℕ) (w : World)
      → ValidAt (job_at w k)
      → Validates k (init_agent_reputation light env l r payer w)
  unfolding init_agent_reputation
  init_agent_reputation-Validates light l r payer w valid = ground arith

  pub init_poster_reputation-Validates :
      (light : Light) (l : LightArgs) (r : PosterReputation) (payer : ℕ) (w : World)
      → ValidAt (job_at w k)
      → Validates k (init_poster_reputation light env l r payer w)
  unfolding init_poster_reputation
  init_poster_reputation-Validates light l r payer w valid = ground arith

  pub register_ttd_compressed-Validates :
      (light : Light) (l : LightArgs) (hash uri version payer : ℕ) (w : World)
      → ValidAt (job_at w k)
      → Validates k (register_ttd_compressed light env l hash uri version payer w)
  unfolding register_ttd_compressed
  register_ttd_compressed-Validates light l hash uri version payer w valid = ground arith

  pub compress_finished_job-Validates :
      (light : Light) (l : LightArgs) (poster job : ℕ) (w : World)
      → ValidAt (job_at w k)
      → Validates k (compress_finished_job light env l poster job w)
  unfolding compress_finished_job
  compress_finished_job-Validates light l poster job w valid = ground arith

  pub compress_settlement-Validates :
      (light : Light) (l : LightArgs) (paid escrow payer : ℕ) (w : World)
      → ValidAt (job_at w k)
      → Validates k (compress_settlement light env l paid escrow payer w)
  unfolding compress_settlement
  compress_settlement-Validates light l paid escrow payer w valid = ground arith
