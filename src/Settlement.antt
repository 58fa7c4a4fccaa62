-- ===== src/Settlement.antt =====
-- programs/taskforest/src/instructions/settlement.rs: how a submitted job is paid and archived.
pub mod Escrow
pub mod Invariant
pub mod Cases
pub mod Payouts
pub mod Overflow
pub mod Lifecycle
pub mod Bonds
pub mod Sound
pub mod Records
pub mod Conserves
use taskforest_protocol.Prelude.{
  ℕ, Bool, ◌||◌, not, List, [], ◌∷◌, pos, ltb, leb, ltb_ℤ, ◌==◌, if◌then◌else◌,
}
use taskforest_protocol.Errors.{
  Result, ok, ◌>>=◌, ◌>>◌, require, task_forest, wrong_status, TaskForestError, invalid_claimer,
  invalid_verdict, missing_proof, review_period_active, dispute_window_active,
  dispute_window_expired,
}
use taskforest_protocol.Words.{checked_sum, checked_sum_i64, u64_max, to_le_bytes}
use taskforest_protocol.State.{
  Job, job_size, archive_size, taskforest_id, archive_seed, status_submitted, status_done,
  status_failed, review_period_secs,
}
use taskforest_protocol.Chain.{
  World, Runtime, Env, job_account, archive_account, as_job, signer, load, store, init_account,
  pay_out,
}

-- What the worker is paid on success: the reward and the stake.
abbrev pub payout : Job → Result ℕ
payout job = checked_sum u64_max job.reward_lamports job.claimer_stake

unfoldable pub auto_settle : Runtime → Env → ℕ → ℕ → World → Result World
auto_settle rt env job_key claimer w = do
  job ← load as_job taskforest_id job_key w
  signer env claimer
  require (job.status == status_submitted) (task_forest wrong_status)
  require (ltb_ℤ (pos 0) job.dispute_window_end) (task_forest dispute_window_expired)
  require (job.claimer == claimer) (task_forest invalid_claimer)
  require (ltb_ℤ job.dispute_window_end env.now) (task_forest dispute_window_active)
  amount ← payout job
  w₁ ← pay_out rt job_size job_key claimer amount w
  ok (store job_key (job_account (record job { status = status_done })) w₁)

-- The accounts of `settle_job`.
pub record SettleJob : Type 0 where
  pub job : ℕ
  pub settler : ℕ
  pub poster_account : ℕ
  pub claimer_account : ℕ

-- PASS: the worker gets the reward and the stake back.
pub pass_job : Runtime → SettleJob → Job → World → Result World
pass_job rt a job w = do
  amount ← payout job
  w₁ ← pay_out rt job_size a.job a.claimer_account amount w
  ok (store a.job (job_account (record job { status = status_done })) w₁)

-- FAIL: the poster gets the reward back, and the stake stays in the job's account.
pub fail_job : Runtime → SettleJob → Job → World → Result World
fail_job rt a job w = do
  w₁ ← pay_out rt job_size a.job a.poster_account job.reward_lamports w
  ok (store a.job (job_account (record job { status = status_failed })) w₁)

unfoldable pub settle_job : Runtime → Env → ℕ → SettleJob → World → Result World
settle_job rt env verdict a w = do
  job ← load as_job taskforest_id a.job w
  signer env a.settler
  require (job.status == status_submitted) (task_forest wrong_status)
  require (not (job.proof_hash == 0)) (task_forest missing_proof)
  require (leb verdict 1) (task_forest invalid_verdict)
  require (job.poster == a.settler) (task_forest TaskForestError.unauthorized)
  require (a.claimer_account == job.claimer) (task_forest invalid_claimer)
  require (a.poster_account == job.poster) (task_forest TaskForestError.unauthorized)
  if verdict == 1 then pass_job rt a job w else fail_job rt a job w

unfoldable pub claim_timeout : Runtime → Env → ℕ → ℕ → World → Result World
claim_timeout rt env job_key claimer w = do
  job ← load as_job taskforest_id job_key w
  signer env claimer
  require (job.status == status_submitted) (task_forest wrong_status)
  require (job.claimer == claimer) (task_forest invalid_claimer)
  review_deadline ← checked_sum_i64 job.submitted_at review_period_secs
  require (ltb_ℤ review_deadline env.now) (task_forest review_period_active)
  amount ← payout job
  w₁ ← pay_out rt job_size job_key claimer amount w
  ok (store job_key (job_account (record job { status = status_done })) w₁)

-- The seeds of an archive's address.
pub archive_seeds : ℕ → List (List ℕ)
archive_seeds job_key = archive_seed ∷ to_le_bytes 32 job_key ∷ []

pub archive_settlement : Runtime → Env → ℕ → ℕ → ℕ → ℕ → World → Result World
unfolding archive_seeds
archive_settlement rt env reason_code payer job_key archive_key w = do
  signer env payer
  job ← load as_job taskforest_id job_key w
  w₁ ← init_account rt taskforest_id (archive_seeds job_key) archive_size payer archive_key w
  require (job.status == status_done || job.status == status_failed) (task_forest wrong_status)
  ok (
      store archive_key
        (archive_account (record {
          job = job_key;
          poster = job.poster;
          claimer = job.claimer;
          reward_lamports = job.reward_lamports;
          claimer_stake = job.claimer_stake;
          verdict = (if job.status == status_done then 1 else 0);
          proof_hash = job.proof_hash;
          reason_code = reason_code;
          settled_at = env.now;
          bump = rt.find_bump (archive_seeds job_key) taskforest_id;
        }))
        w₁)
