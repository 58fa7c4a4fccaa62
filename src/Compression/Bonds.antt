-- ===== src/Compression/Bonds.antt =====
-- Every instruction on compressed records keeps in the accounts of disputes and escrows what they
-- must hold.
use taskforest_protocol.Prelude.{ℕ, arith}
use taskforest_protocol.State.{AgentReputation, PosterReputation}
use taskforest_protocol.Chain.{Env, IsLawful, Runtime, World}
use taskforest_protocol.Escrow.{SignsFairly}
use taskforest_protocol.Bonds.{BondIsHeld, Holds}
use taskforest_protocol.Compression.{
  Light, LightArgs, archive_settlement_compressed, init_agent_reputation, init_poster_reputation,
  register_ttd_compressed, compress_finished_job, compress_settlement,
}

module _ (k : ℕ) (env : Env) (rt : Runtime) (law : IsLawful rt) where
  pub archive_settlement_compressed-Holds :
      (light : Light) (l : LightArgs) (reason payer job : ℕ) (w : World)
      → BondIsHeld rt k w
      → SignsFairly rt env w
      → Holds rt k (archive_settlement_compressed light env l reason payer job w)
  unfolding archive_settlement_compressed
  archive_settlement_compressed-Holds light l reason payer job w held fair = ground arith

  pub init_agent_reputation-Holds :
      (light : Light) (l : LightArgs) (r : AgentReputation) (payer : ℕ) (w : World)
      → BondIsHeld rt k w
      → SignsFairly rt env w
      → Holds rt k (init_agent_reputation light env l r payer w)
  unfolding init_agent_reputation
  init_agent_reputation-Holds light l r payer w held fair = ground arith

  pub init_poster_reputation-Holds :
      (light : Light) (l : LightArgs) (r : PosterReputation) (payer : ℕ) (w : World)
      → BondIsHeld rt k w
      → SignsFairly rt env w
      → Holds rt k (init_poster_reputation light env l r payer w)
  unfolding init_poster_reputation
  init_poster_reputation-Holds light l r payer w held fair = ground arith

  pub register_ttd_compressed-Holds :
      (light : Light) (l : LightArgs) (hash uri version payer : ℕ) (w : World)
      → BondIsHeld rt k w
      → SignsFairly rt env w
      → Holds rt k (register_ttd_compressed light env l hash uri version payer w)
  unfolding register_ttd_compressed
  register_ttd_compressed-Holds light l hash uri version payer w held fair = ground arith

  pub compress_finished_job-Holds :
      (light : Light) (l : LightArgs) (poster job : ℕ) (w : World)
      → BondIsHeld rt k w
      → SignsFairly rt env w
      → Holds rt k (compress_finished_job light env l poster job w)
  unfolding compress_finished_job
  compress_finished_job-Holds light l poster job w held fair = ground arith

  pub compress_settlement-Holds :
      (light : Light) (l : LightArgs) (paid escrow payer : ℕ) (w : World)
      → BondIsHeld rt k w
      → SignsFairly rt env w
      → Holds rt k (compress_settlement light env l paid escrow payer w)
  unfolding compress_settlement
  compress_settlement-Holds light l paid escrow payer w held fair = ground arith
