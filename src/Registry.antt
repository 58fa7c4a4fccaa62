-- ===== src/Registry.antt =====
-- programs/taskforest/src/instructions: ttd.rs (the registry of task types), credential.rs (the
-- credential vault) and delegation.rs (a job handed to the rollup).
pub mod Escrow
pub mod Invariant
pub mod Conserves
pub mod Lifecycle
pub mod Bonds
pub mod Sound
pub mod Records
pub mod Delegated
use taskforest_protocol.Prelude.{ℕ, Bool, true, false, Option, List, [], ◌∷◌, leb, ◌==◌, length}
use taskforest_protocol.Errors.{
  Result, ok, ◌>>=◌, ◌>>◌, require, task_forest, call_failed, constraint_seeds, wrong_status,
  TaskForestError, uri_too_long,
}
use taskforest_protocol.Words.{to_le_bytes}
use taskforest_protocol.State.{
  ttd_size, vault_size, max_uri_len, taskforest_id, ttd_seed, vault_seed, status_open,
}
use taskforest_protocol.Chain.{
  World, Runtime, Env, ttd_account, vault_account, as_job, as_vault, signer, load, store,
  init_account, hand_over,
}
use taskforest_protocol.Job.{job_seeds}

pub ttd_seeds : ℕ → ℕ → List (List ℕ)
ttd_seeds creator ttd_hash = ttd_seed ∷ to_le_bytes 32 creator ∷ to_le_bytes 32 ttd_hash ∷ []

pub vault_seeds : ℕ → ℕ → List (List ℕ)
vault_seeds poster job_key = vault_seed ∷ to_le_bytes 32 poster ∷ to_le_bytes 32 job_key ∷ []

pub register_ttd : Runtime → Env → ℕ → List ℕ → ℕ → ℕ → ℕ → World → Result World
unfolding ttd_seeds
register_ttd rt env ttd_hash ttd_uri version ttd_key creator w = do
  signer env creator
  w₁ ← init_account rt taskforest_id (ttd_seeds creator ttd_hash) ttd_size creator ttd_key w
  require (leb (length ttd_uri) max_uri_len) (task_forest uri_too_long)
  ok (
      store ttd_key
        (ttd_account (record {
          creator = creator;
          ttd_hash = ttd_hash;
          ttd_uri = ttd_uri;
          version = version;
          created_at = env.now;
          bump = rt.find_bump (ttd_seeds creator ttd_hash) taskforest_id;
        }))
        w₁)

pub store_credential : Runtime → Env → ℕ → ℕ → ℕ → ℕ → World → Result World
unfolding vault_seeds
store_credential rt env encrypted_cred_hash vault_key job_key poster w = do
  job ← load as_job taskforest_id job_key w
  signer env poster
  w₁ ← init_account rt taskforest_id (vault_seeds poster job_key) vault_size poster vault_key w
  ok (
      store vault_key
        (vault_account (record {
          poster = poster;
          job = job_key;
          encrypted_cred_hash = encrypted_cred_hash;
          is_active = true;
          bump = rt.find_bump (vault_seeds poster job_key) taskforest_id;
        }))
        w₁)

pub clear_credential : Env → ℕ → ℕ → World → Result World
clear_credential env vault_key poster w = do
  vault ← load as_vault taskforest_id vault_key w
  signer env poster
  require (poster == vault.poster) (task_forest TaskForestError.unauthorized)
  ok (
      store vault_key (vault_account (record vault { is_active = false; encrypted_cred_hash = 0 }))
        w)

-- The validator is the first of the remaining accounts, if there is one. The delegation program takes
-- the account over with its data.
unfoldable pub delegate_job : Runtime → Env → Option ℕ → ℕ → ℕ → World → Result World
delegate_job rt env validator payer job_key w = do
  signer env payer
  job ← load as_job taskforest_id job_key w
  let seeds = job_seeds payer job.job_id
  require (job_key == rt.address_with_bump seeds job.bump taskforest_id) constraint_seeds
  require (job.poster == payer) (task_forest TaskForestError.unauthorized)
  require (job.status == status_open) (task_forest wrong_status)
  require (rt.delegate job_key validator) call_failed
  ok (hand_over job_key w)
