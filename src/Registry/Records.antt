-- ===== src/Registry/Records.antt =====
-- Every instruction on the registry of task types, the vault and the delegation changes the other
-- accounts only as Records allows.
use taskforest_protocol.Prelude.{ℕ, arith, List, Option}
use taskforest_protocol.Chain.{World, Runtime, Env}
use taskforest_protocol.Chain.Keeps.{init_account-fresh}
use taskforest_protocol.Records.{RecordsFollow}
use taskforest_protocol.Registry.{register_ttd, store_credential, clear_credential, delegate_job}

module _ (k : ℕ) (env : Env) where
  pub register_ttd-RecordsFollow :
      (rt : Runtime) (hash : ℕ) (uri : List ℕ) (version ttd creator : ℕ) (w : World)
      → RecordsFollow k w (register_ttd rt env hash uri version ttd creator w)
  unfolding register_ttd
  register_ttd-RecordsFollow rt hash uri version ttd creator w = grind (arith, init_account-fresh)

  pub store_credential-RecordsFollow :
      (rt : Runtime) (hash vault job poster : ℕ) (w : World)
      → RecordsFollow k w (store_credential rt env hash vault job poster w)
  unfolding store_credential
  store_credential-RecordsFollow rt hash vault job poster w = grind (arith, init_account-fresh)

  pub clear_credential-RecordsFollow :
      (vault poster : ℕ) (w : World) → RecordsFollow k w (clear_credential env vault poster w)
  unfolding clear_credential
  clear_credential-RecordsFollow vault poster w = ground arith

  pub delegate_job-RecordsFollow :
      (rt : Runtime) (validator : Option ℕ) (payer job : ℕ) (w : World)
      → RecordsFollow k w (delegate_job rt env validator payer job w)
  unfolding delegate_job
  delegate_job-RecordsFollow rt validator payer job w = ground arith
