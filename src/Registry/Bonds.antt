-- ===== src/Registry/Bonds.antt =====
-- Every instruction on the registry of task types, the vault and the delegation keeps in the
-- accounts of disputes and escrows what they must hold.
use taskforest_protocol.Prelude.{ℕ, arith, List, Option}
use taskforest_protocol.Chain.{Env, IsLawful, Runtime, World}
use taskforest_protocol.Chain.Keeps.{init_account-fresh}
use taskforest_protocol.Chain.Floors.{init_account_floor}
use taskforest_protocol.Escrow.{SignsFairly}
use taskforest_protocol.Bonds.{BondIsHeld, Holds}
use taskforest_protocol.Registry.{register_ttd, store_credential, clear_credential, delegate_job}

module _ (k : ℕ) (env : Env) (rt : Runtime) (law : IsLawful rt) where
  pub register_ttd-Holds :
      (hash : ℕ) (uri : List ℕ) (version ttd creator : ℕ) (w : World)
      → BondIsHeld rt k w
      → SignsFairly rt env w
      → Holds rt k (register_ttd rt env hash uri version ttd creator w)
  unfolding register_ttd
  register_ttd-Holds hash uri version ttd creator w held fair =
      grind (arith, init_account-fresh, init_account_floor rt law k, fair.no_derived, fair.no_owned)

  pub store_credential-Holds :
      (hash vault job poster : ℕ) (w : World)
      → BondIsHeld rt k w
      → SignsFairly rt env w
      → Holds rt k (store_credential rt env hash vault job poster w)
  unfolding store_credential
  store_credential-Holds hash vault job poster w held fair =
      grind (arith, init_account-fresh, init_account_floor rt law k, fair.no_derived, fair.no_owned)

  pub clear_credential-Holds :
      (vault poster : ℕ) (w : World)
      → BondIsHeld rt k w
      → SignsFairly rt env w
      → Holds rt k (clear_credential env vault poster w)
  unfolding clear_credential
  clear_credential-Holds vault poster w held fair = ground arith

  pub delegate_job-Holds :
      (validator : Option ℕ) (payer job : ℕ) (w : World)
      → BondIsHeld rt k w
      → SignsFairly rt env w
      → Holds rt k (delegate_job rt env validator payer job w)
  unfolding delegate_job
  delegate_job-Holds validator payer job w held fair = ground arith
