-- ===== src/Registry/Conserves.antt =====
-- No instruction on the registry of task types, the vault and the delegation makes or loses
-- lamports.
use taskforest_protocol.Prelude.{ℕ, ◌≡◌, arith, List, Option}
use taskforest_protocol.Chain.{Env, IsLawful, Runtime, World}
use taskforest_protocol.Chain.Ledger.{count}
use taskforest_protocol.Chain.Keeps.{Conserves, init_account-Conserves}
use taskforest_protocol.Registry.{clear_credential, delegate_job, register_ttd, store_credential}

module _ (ks : List ℕ) (env : Env) where
  pub register_ttd-Conserves :
      (rt : Runtime)
      → IsLawful rt
      → (hash : ℕ) (uri : List ℕ) (version ttd creator : ℕ) (w : World) → count creator ks ≡ 1
      → count ttd ks ≡ 1
      → Conserves ks w (register_ttd rt env hash uri version ttd creator w)
  unfolding register_ttd
  register_ttd-Conserves rt law hash uri version ttd creator w h0 h1 =
      grind (arith, init_account-Conserves ks creator ttd h0 h1 rt law)

  pub store_credential-Conserves :
      (rt : Runtime)
      → IsLawful rt
      → (hash vault job poster : ℕ) (w : World) → count poster ks ≡ 1
      → count vault ks ≡ 1
      → Conserves ks w (store_credential rt env hash vault job poster w)
  unfolding store_credential
  store_credential-Conserves rt law hash vault job poster w h0 h1 =
      grind (arith, init_account-Conserves ks poster vault h0 h1 rt law)

  pub clear_credential-Conserves :
      (vault poster : ℕ) (w : World) → Conserves ks w (clear_credential env vault poster w)
  unfolding clear_credential
  clear_credential-Conserves vault poster w = ground arith

  pub delegate_job-Conserves :
      (rt : Runtime) (validator : Option ℕ) (payer job : ℕ) (w : World)
      → Conserves ks w (delegate_job rt env validator payer job w)
  unfolding delegate_job
  delegate_job-Conserves rt validator payer job w = ground arith
