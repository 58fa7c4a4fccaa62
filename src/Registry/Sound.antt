-- ===== src/Registry/Sound.antt =====
-- Every instruction on the registry of task types, the vault and the delegation keeps all accounts
-- sound.
use taskforest_protocol.Prelude.{ℕ, arith, List, Option}
use taskforest_protocol.Chain.{Env, Runtime, World}
use taskforest_protocol.Chain.Keeps.{init_account-fresh}
use taskforest_protocol.Accounts.{AccountIsSound, StaysSound}
use taskforest_protocol.Registry.{register_ttd, store_credential, clear_credential, delegate_job}

module _ (k : ℕ) (env : Env) (rt : Runtime) where
  pub register_ttd-StaysSound :
      (hash : ℕ) (uri : List ℕ) (version ttd creator : ℕ) (w : World)
      → AccountIsSound rt k w
      → StaysSound rt k (register_ttd rt env hash uri version ttd creator w)
  unfolding register_ttd
  register_ttd-StaysSound hash uri version ttd creator w sound = grind (arith, init_account-fresh)

  pub store_credential-StaysSound :
      (hash vault job poster : ℕ) (w : World)
      → AccountIsSound rt k w
      → StaysSound rt k (store_credential rt env hash vault job poster w)
  unfolding store_credential
  store_credential-StaysSound hash vault job poster w sound = grind (arith, init_account-fresh)

  pub clear_credential-StaysSound :
      (vault poster : ℕ) (w : World)
      → AccountIsSound rt k w
      → StaysSound rt k (clear_credential env vault poster w)
  unfolding clear_credential
  clear_credential-StaysSound vault poster w sound = ground arith

  pub delegate_job-StaysSound :
      (validator : Option ℕ) (payer job : ℕ) (w : World)
      → AccountIsSound rt k w
      → StaysSound rt k (delegate_job rt env validator payer job w)
  unfolding delegate_job
  delegate_job-StaysSound validator payer job w sound = ground arith
