-- ===== src/Registry/Escrow.antt =====
-- Every instruction on the registry of task types, the vault and the delegation keeps in the job
-- accounts what they must hold.
use taskforest_protocol.Prelude.{ℕ, arith, List, Option}
use taskforest_protocol.Chain.{Env, IsLawful, Runtime, World}
use taskforest_protocol.Chain.Keeps.{init_account-fresh}
use taskforest_protocol.Chain.Floors.{init_account_floor}
use taskforest_protocol.Escrow.{JobIsFunded, Funds, SignsFairly}
use taskforest_protocol.Registry.{register_ttd, store_credential, clear_credential, delegate_job}

module _ (k : ℕ) (env : Env) (rt : Runtime) (law : IsLawful rt) where
  pub register_ttd-Funds :
      (hash : ℕ) (uri : List ℕ) (version ttd creator : ℕ) (w : World)
      → JobIsFunded rt k w
      → SignsFairly rt env w
      → Funds rt k (register_ttd rt env hash uri version ttd creator w)
  unfolding register_ttd
  register_ttd-Funds hash uri version ttd creator w funded fair =
      grind (arith, init_account-fresh, init_account_floor rt law k, fair.no_derived, fair.no_owned)

  pub store_credential-Funds :
      (hash vault job poster : ℕ) (w : World)
      → JobIsFunded rt k w
      → SignsFairly rt env w
      → Funds rt k (store_credential rt env hash vault job poster w)
  unfolding store_credential
  store_credential-Funds hash vault job poster w funded fair =
      grind (arith, init_account-fresh, init_account_floor rt law k, fair.no_derived, fair.no_owned)

  pub clear_credential-Funds :
      (vault poster : ℕ) (w : World)
      → JobIsFunded rt k w
      → SignsFairly rt env w
      → Funds rt k (clear_credential env vault poster w)
  unfolding clear_credential
  clear_credential-Funds vault poster w funded fair = ground arith

  pub delegate_job-Funds :
      (validator : Option ℕ) (payer job : ℕ) (w : World)
      → JobIsFunded rt k w
      → SignsFairly rt env w
      → Funds rt k (delegate_job rt env validator payer job w)
  unfolding delegate_job
  delegate_job-Funds validator payer job w funded fair = ground arith
