-- ===== src/Registry/Invariant.antt =====
-- Every instruction on the registry of task types, the vault and the delegation keeps the job
-- accounts valid.
use taskforest_protocol.Prelude.{ℕ, arith, List, Option}
use taskforest_protocol.Chain.{World, Runtime, Env}
use taskforest_protocol.Chain.Keeps.{init_account-fresh}
use taskforest_protocol.Lifecycle.{job_at}
use taskforest_protocol.Invariant.{ValidAt, Validates}
use taskforest_protocol.Registry.{register_ttd, store_credential, clear_credential, delegate_job}

module _ (k : ℕ) (env : Env) where
  pub register_ttd-Validates :
      (rt : Runtime) (hash : ℕ) (uri : List ℕ) (version ttd creator : ℕ) (w : World)
      → ValidAt (job_at w k)
      → Validates k (register_ttd rt env hash uri version ttd creator w)
  unfolding register_ttd
  register_ttd-Validates rt hash uri version ttd creator w valid = grind (arith, init_account-fresh)

  pub store_credential-Validates :
      (rt : Runtime) (hash vault job poster : ℕ) (w : World)
      → ValidAt (job_at w k)
      → Validates k (store_credential rt env hash vault job poster w)
  unfolding store_credential
  store_credential-Validates rt hash vault job poster w valid = grind (arith, init_account-fresh)

  pub clear_credential-Validates :
      (vault poster : ℕ) (w : World)
      → ValidAt (job_at w k)
      → Validates k (clear_credential env vault poster w)
  unfolding clear_credential
  clear_credential-Validates vault poster w valid = ground arith

  pub delegate_job-Validates :
      (rt : Runtime) (validator : Option ℕ) (payer job : ℕ) (w : World)
      → ValidAt (job_at w k)
      → Validates k (delegate_job rt env validator payer job w)
  unfolding delegate_job
  delegate_job-Validates rt validator payer job w valid = ground arith
