-- ===== src/Job.antt =====
-- programs/taskforest/src/instructions/job.rs: the life of a job outside bidding and settlement.
-- Each handler takes the runtime, its transaction, the addresses of its accounts and the state;
-- what its `#[derive(Accounts)]` struct asks for comes first.
pub mod Invariant
pub mod Escrow
pub mod Conserves
pub mod Payouts
pub mod Divided
pub mod Lifecycle
pub mod Bonds
pub mod Sound
pub mod Records
use taskforest_protocol.Prelude.{
  ℕ, ◌+◌, ◌-◌, ◌<◌, Bool, true, false, ◌&&◌, ◌||◌, List, [], ◌∷◌, ℤ, pos, ltb, leb, ltb_ℤ, ◌==◌,
  if◌then◌else◌,
}
use taskforest_protocol.Errors.{
  Result, ok, err, ◌>>=◌, ◌>>◌, require, task_forest, invalid_reward, invalid_deadline,
  wrong_status, TaskForestError, invalid_claimer, deadline_not_passed, not_auto_match,
  insufficient_escrow_for_sub_job, sub_job_exceeds_escrow, invalid_verification_mode,
}
use taskforest_protocol.Words.{to_le_bytes, u16_max}
use taskforest_protocol.State.{
  Job, job_size, taskforest_id, job_seed, status_open, status_bidding, status_claimed,
  status_failed, status_staked, verification_judge,
}
use taskforest_protocol.Chain.{
  World, Runtime, Env, job_account, as_job, signer, load, store, init_account, system_transfer,
  sub_lamports, add_lamports, available, pay_out,
}

-- The seeds of a job's address.
unfoldable pub job_seeds : ℕ → ℕ → List (List ℕ)
job_seeds poster job_id = job_seed ∷ to_le_bytes 32 poster ∷ to_le_bytes 8 job_id ∷ []

-- The arguments of `initialize_job`.
pub record JobTerms : Type 0 where
  pub job_id : ℕ
  pub reward_lamports : ℕ
  pub deadline : ℤ
  pub spec_hash : ℕ
  pub ttd_hash : ℕ
  pub privacy_level : ℕ
  pub encryption_pubkey : ℕ
  pub assignment_mode : ℕ
  pub verification_level : ℕ
  pub verification_mode : ℕ

-- The job account that `initialize_job` writes.
abbrev pub new_job : JobTerms → ℕ → ℕ → Job
new_job t poster bump = record {
  poster = poster;
  job_id = t.job_id;
  reward_lamports = t.reward_lamports;
  deadline = t.deadline;
  spec_hash = t.spec_hash;
  ttd_hash = t.ttd_hash;
  privacy_level = t.privacy_level;
  encryption_pubkey = t.encryption_pubkey;
  encrypted_input_hash = 0;
  encrypted_output_hash = 0;
  status = status_open;
  claimer = 0;
  claimer_stake = 0;
  best_bid_stake = 0;
  best_bidder = 0;
  bid_count = 0;
  proof_hash = 0;
  submitted_at = pos 0;
  assignment_mode = t.assignment_mode;
  parent_job = 0;
  sub_job_count = 0;
  verification_level = t.verification_level;
  verification_mode = t.verification_mode;
  receipt_root = 0;
  receipt_uri = 0;
  attestation_hash = 0;
  dispute_window_end = pos 0;
  tee_pubkey = 0;
  tee_verified = false;
  bump = bump;
}

unfoldable pub initialize_job : Runtime → Env → JobTerms → ℕ → ℕ → World → Result World
unfolding job_seeds
initialize_job rt env t job_key poster w = do
  signer env poster
  w₁ ← init_account rt taskforest_id (job_seeds poster t.job_id) job_size poster job_key w
  require (ltb 0 t.reward_lamports) (task_forest invalid_reward)
  require (leb t.verification_mode verification_judge) (task_forest invalid_verification_mode)
  require (ltb_ℤ env.now t.deadline) (task_forest invalid_deadline)
  w₂ ← system_transfer rt poster job_key t.reward_lamports w₁
  let bump = rt.find_bump (job_seeds poster t.job_id) taskforest_id
  ok (store job_key (job_account (new_job t poster bump)) w₂)

unfoldable pub auto_assign_job : Env → ℕ → ℕ → ℕ → World → Result World
auto_assign_job env assigned_agent job_key poster w = do
  job ← load as_job taskforest_id job_key w
  signer env poster
  require (job.status == status_open) (task_forest wrong_status)
  require (job.assignment_mode == 1) (task_forest not_auto_match)
  require (job.poster == poster) (task_forest TaskForestError.unauthorized)
  ok (
      store job_key (job_account (record job { claimer = assigned_agent; status = status_claimed }))
        w)

-- The arguments of `create_sub_job`.
pub record SubJobTerms : Type 0 where
  pub sub_job_id : ℕ
  pub assigned_agent : ℕ
  pub reward_lamports : ℕ
  pub deadline : ℤ
  pub ttd_hash : ℕ

-- The job account that `create_sub_job` writes: the parent's specification and settings, with the
-- agent as claimer and auto-matching.
abbrev pub new_sub_job : SubJobTerms → Job → ℕ → ℕ → Job
new_sub_job t parent parent_key bump = record {
  poster = parent.poster;
  job_id = t.sub_job_id;
  reward_lamports = t.reward_lamports;
  deadline = t.deadline;
  spec_hash = parent.spec_hash;
  ttd_hash = t.ttd_hash;
  privacy_level = parent.privacy_level;
  encryption_pubkey = parent.encryption_pubkey;
  encrypted_input_hash = 0;
  encrypted_output_hash = 0;
  status = status_open;
  claimer = t.assigned_agent;
  claimer_stake = 0;
  best_bid_stake = 0;
  best_bidder = 0;
  bid_count = 0;
  proof_hash = 0;
  submitted_at = pos 0;
  assignment_mode = 1;
  parent_job = parent_key;
  sub_job_count = 0;
  verification_level = parent.verification_level;
  verification_mode = parent.verification_mode;
  receipt_root = 0;
  receipt_uri = 0;
  attestation_hash = 0;
  dispute_window_end = pos 0;
  tee_pubkey = 0;
  tee_verified = false;
  bump = bump;
}

-- `handler_create_sub_job`, which runs once the accounts are checked and the sub-job is created.
pub handler_create_sub_job : Runtime → SubJobTerms → ℕ → ℕ → ℕ → Job → World → Result World
unfolding job_seeds available
handler_create_sub_job rt t parent_key sub_key orchestrator parent w = do
  require (ltb 0 t.reward_lamports) (task_forest invalid_reward)
  require (parent.status == status_staked) (task_forest wrong_status)
  require (parent.claimer == orchestrator) (task_forest invalid_claimer)
  require (ltb (rt.minimum_balance job_size) (w.lamports parent_key))
      (task_forest insufficient_escrow_for_sub_job)
  require (leb t.reward_lamports (available rt job_size parent_key w))
      (task_forest sub_job_exceeds_escrow)
  w₁ ← sub_lamports parent_key t.reward_lamports w
  w₂ ← add_lamports sub_key t.reward_lamports w₁
  require (ltb parent.sub_job_count u16_max) (task_forest wrong_status)
  let bump = rt.find_bump (job_seeds parent.poster t.sub_job_id) taskforest_id
  let sub_job = new_sub_job t parent parent_key bump
  let parent' = record parent { sub_job_count = parent.sub_job_count + 1 }
  ok (store parent_key (job_account parent') (store sub_key (job_account sub_job) w₂))

pub create_sub_job : Runtime → Env → SubJobTerms → ℕ → ℕ → ℕ → World → Result World
unfolding job_seeds
create_sub_job rt env t parent_key sub_key orchestrator w = do
  parent ← load as_job taskforest_id parent_key w
  signer env orchestrator
  let seeds = job_seeds parent.poster t.sub_job_id
  w₁ ← init_account rt taskforest_id seeds job_size orchestrator sub_key w
  handler_create_sub_job rt t parent_key sub_key orchestrator parent w₁

-- Anyone may call this once the deadline of a claimed job has passed.
unfoldable pub expire_claim : Runtime → Env → ℕ → ℕ → World → Result World
expire_claim rt env job_key poster_account w = do
  job ← load as_job taskforest_id job_key w
  require (job.status == status_claimed || job.status == status_staked) (task_forest wrong_status)
  require (ltb_ℤ job.deadline env.now) (task_forest deadline_not_passed)
  w₁ ← pay_out rt job_size job_key poster_account job.reward_lamports w
  ok (store job_key (job_account (record job { status = status_failed })) w₁)

unfoldable pub expire_unclaimed : Runtime → Env → ℕ → ℕ → World → Result World
expire_unclaimed rt env job_key poster w = do
  job ← load as_job taskforest_id job_key w
  signer env poster
  require (job.status == status_open || job.status == status_bidding) (task_forest wrong_status)
  require (job.poster == poster) (task_forest TaskForestError.unauthorized)
  require (ltb_ℤ job.deadline env.now) (task_forest deadline_not_passed)
  w₁ ← pay_out rt job_size job_key poster job.reward_lamports w
  ok (store job_key (job_account (record job { status = status_failed })) w₁)

unfoldable pub extend_deadline : Env → ℤ → ℕ → ℕ → World → Result World
extend_deadline env new_deadline job_key poster w = do
  job ← load as_job taskforest_id job_key w
  signer env poster
  require (job.status == status_open || job.status == status_bidding) (task_forest wrong_status)
  require (job.poster == poster) (task_forest TaskForestError.unauthorized)
  require (ltb_ℤ env.now new_deadline) (task_forest invalid_deadline)
  ok (store job_key (job_account (record job { deadline = new_deadline })) w)
