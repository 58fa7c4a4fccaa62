-- ===== src/Compression/Escrow.antt =====
-- Every instruction on compressed records keeps in the job accounts what they must hold.
use taskforest_protocol.Prelude.{ℕ, arith}
use taskforest_protocol.State.{AgentReputation, PosterReputation}
use taskforest_protocol.Chain.{Env, IsLawful, Runtime, World}
use taskforest_protocol.Escrow.{JobIsFunded, Funds, SignsFairly}
use taskforest_protocol.Compression.{
  Light, LightArgs, archive_settlement_compressed, init_agent_reputation, init_poster_reputation,
  register_ttd_compressed, compress_finished_job, compress_settlement,
}

module _ (k : ℕ) (env : Env) (rt : Runtime) (law : IsLawful rt) where
  pub archive_settlement_compressed-Funds :
      (light : Light) (l : LightArgs) (reason payer job : ℕ) (w : World)
      → JobIsFunded rt k w
      → SignsFairly rt env w
      → Funds rt k (archive_settlement_compressed light env l reason payer job w)
  unfolding archive_settlement_compressed
  archive_settlement_compressed-Funds light l reason payer job w funded fair = ground arith

  pub init_agent_reputation-Funds :
      (light : Light) (l : LightArgs) (r : AgentReputation) (payer : ℕ) (w : World)
      → JobIsFunded rt k w
      → SignsFairly rt env w
      → Funds rt k (init_agent_reputation light env l r payer w)
  unfolding init_agent_reputation
  init_agent_reputation-Funds light l r payer w funded fair = ground arith

  pub init_poster_reputation-Funds :
      (light : Light) (l : LightArgs) (r : PosterReputation) (payer : ℕ) (w : World)
      → JobIsFunded rt k w
      → SignsFairly rt env w
      → Funds rt k (init_poster_reputation light env l r payer w)
  unfolding init_poster_reputation
  init_poster_reputation-Funds light l r payer w funded fair = ground arith

  pub register_ttd_compressed-Funds :
      (light : Light) (l : LightArgs) (hash uri version payer : ℕ) (w : World)
      → JobIsFunded rt k w
      → SignsFairly rt env w
      → Funds rt k (register_ttd_compressed light env l hash uri version payer w)
  unfolding register_ttd_compressed
  register_ttd_compressed-Funds light l hash uri version payer w funded fair = ground arith

  pub compress_finished_job-Funds :
      (light : Light) (l : LightArgs) (poster job : ℕ) (w : World)
      → JobIsFunded rt k w
      → SignsFairly rt env w
      → Funds rt k (compress_finished_job light env l poster job w)
  unfolding compress_finished_job
  compress_finished_job-Funds light l poster job w funded fair = ground arith

  pub compress_settlement-Funds :
      (light : Light) (l : LightArgs) (paid escrow payer : ℕ) (w : World)
      → JobIsFunded rt k w
      → SignsFairly rt env w
      → Funds rt k (compress_settlement light env l paid escrow payer w)
  unfolding compress_settlement
  compress_settlement-Funds light l paid escrow payer w funded fair = ground arith
