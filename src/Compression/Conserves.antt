-- ===== src/Compression/Conserves.antt =====
-- No instruction on compressed records makes or loses lamports.
use taskforest_protocol.Prelude.{ℕ, ◌≡◌, arith, List, ◌+◌}
use taskforest_protocol.State.{Leaf, AgentReputation, PosterReputation}
use taskforest_protocol.Errors.{Error, Ensures}
use taskforest_protocol.Chain.{Env, World, update}
use taskforest_protocol.Chain.Ledger.{count, total-update}
use taskforest_protocol.Chain.Keeps.{Conserves}
use taskforest_protocol.Compression.{
  Light, LightArgs, archive_settlement_compressed, close_job, compress_finished_job,
  compress_settlement, init_agent_reputation, init_poster_reputation, put_leaf,
  register_ttd_compressed,
}

put_leaf-lamports :
    (light : Light) (l : LightArgs) (program : ℕ) (e : Error) (seeds : List (List ℕ)) (leaf : Leaf)
    (w : World)
    → Ensures (λ w'. w'.lamports ≡ w.lamports) (put_leaf light l program e seeds leaf w)
unfolding put_leaf
put_leaf-lamports light l program e seeds leaf w = ground arith

module _ (ks : List ℕ) (env : Env) where
  pub archive_settlement_compressed-Conserves :
      (light : Light) (l : LightArgs) (reason payer job : ℕ) (w : World)
      → Conserves ks w (archive_settlement_compressed light env l reason payer job w)
  unfolding archive_settlement_compressed
  archive_settlement_compressed-Conserves light l reason payer job w =
      grind (arith, put_leaf-lamports)

  pub init_agent_reputation-Conserves :
      (light : Light) (l : LightArgs) (r : AgentReputation) (payer : ℕ) (w : World)
      → Conserves ks w (init_agent_reputation light env l r payer w)
  unfolding init_agent_reputation
  init_agent_reputation-Conserves light l r payer w = grind (arith, put_leaf-lamports)

  pub init_poster_reputation-Conserves :
      (light : Light) (l : LightArgs) (r : PosterReputation) (payer : ℕ) (w : World)
      → Conserves ks w (init_poster_reputation light env l r payer w)
  unfolding init_poster_reputation
  init_poster_reputation-Conserves light l r payer w = grind (arith, put_leaf-lamports)

  pub register_ttd_compressed-Conserves :
      (light : Light) (l : LightArgs) (hash uri version payer : ℕ) (w : World)
      → Conserves ks w (register_ttd_compressed light env l hash uri version payer w)
  unfolding register_ttd_compressed
  register_ttd_compressed-Conserves light l hash uri version payer w =
      grind (arith, put_leaf-lamports)

  close_job-Conserves :
      (job poster : ℕ) (w : World)
      → count job ks ≡ 1
      → count poster ks ≡ 1
      → Conserves ks w (close_job job poster w)
  unfolding close_job
  close_job-Conserves job poster w hj hp =
      let emptied = update job 0 w.lamports in
      ground (
        arith,
        total-update ks job 0 w.lamports hj,
        total-update ks poster (emptied poster + w.lamports job) emptied hp,
      )

  pub compress_finished_job-Conserves :
      (light : Light) (l : LightArgs) (poster job : ℕ) (w : World)
      → count poster ks ≡ 1
      → count job ks ≡ 1
      → Conserves ks w (compress_finished_job light env l poster job w)
  unfolding compress_finished_job
  compress_finished_job-Conserves light l poster job w h0 h1 =
      grind (arith, put_leaf-lamports, close_job-Conserves job poster)

  pub compress_settlement-Conserves :
      (light : Light) (l : LightArgs) (paid escrow payer : ℕ) (w : World)
      → Conserves ks w (compress_settlement light env l paid escrow payer w)
  unfolding compress_settlement
  compress_settlement-Conserves light l paid escrow payer w = grind (arith, put_leaf-lamports)
