-- ===== src/Dispute.antt =====
-- programs/taskforest/src/instructions/dispute.rs: disputes over a submitted job, the votes of
-- verifiers and the two ways to resolve a dispute.
pub mod Escrow
pub mod Invariant
pub mod Conserves
pub mod Panel
pub mod Payouts
pub mod Lifecycle
pub mod Once
pub mod Bonds
pub mod Sound
pub mod Records
use taskforest_protocol.Prelude.{
  ℕ, ◌+◌, ◌-◌, ◌/◌, Bool, true, false, ◌||◌, not, Option, none, some, List, [], ◌∷◌, pos, ltb, leb,
  ltb_ℤ, ◌==◌, min, if◌then◌else◌,
}
use taskforest_protocol.Errors.{
  Result, ok, ◌>>=◌, ◌>>◌, require, task_forest, wrong_status, TaskForestError, invalid_claimer,
  invalid_verdict, dispute_window_expired, dispute_stake_too_low, invalid_dispute_status,
  quorum_not_reached,
}
use taskforest_protocol.Words.{saturating_sum, u8_max, to_le_bytes}
use taskforest_protocol.State.{
  Job, DisputeRecord, VerifierVote, job_size, dispute_size, vote_size, taskforest_id, dispute_seed,
  vote_seed, status_submitted, status_failed, panel_quorum,
}
use taskforest_protocol.Chain.{
  World, Content, Runtime, Env, job_account, dispute_account, vote_account, as_job, as_dispute,
  as_vote, signer, load, store, init_account, system_transfer, pay_out,
}

-- The seeds of the addresses of a dispute and of a vote.
unfoldable pub dispute_seeds : ℕ → ℕ → List (List ℕ)
dispute_seeds job_key thread = dispute_seed ∷ to_le_bytes 32 job_key ∷ to_le_bytes 4 thread ∷ []

unfoldable pub vote_seeds : ℕ → ℕ → List (List ℕ)
vote_seeds dispute_key verifier =
    vote_seed ∷ to_le_bytes 32 dispute_key ∷ to_le_bytes 32 verifier ∷ []

-- The arguments and the accounts of `open_dispute`.
pub record OpenDispute : Type 0 where
  pub disputed_thread : ℕ
  pub challenger_receipt_hash : ℕ
  pub evidence_uri : ℕ
  pub job : ℕ
  pub dispute : ℕ
  pub challenger : ℕ

-- `handler_open_dispute`, which runs once the accounts are checked and the dispute is created.
unfoldable pub handler_open_dispute : Runtime → Env → OpenDispute → Job → World → Result World
unfolding dispute_seeds
handler_open_dispute rt env a job w = do
  require (job.status == status_submitted) (task_forest wrong_status)
  require (ltb_ℤ (pos 0) job.dispute_window_end) (task_forest dispute_window_expired)
  require (ltb_ℤ env.now job.dispute_window_end) (task_forest dispute_window_expired)
  require (not (a.challenger == job.claimer)) (task_forest invalid_claimer)
  let stake_lamports = job.reward_lamports / 10
  require (leb (job.reward_lamports / 10) stake_lamports) (task_forest dispute_stake_too_low)
  w₁ ← system_transfer rt a.challenger a.dispute stake_lamports w
  ok (
      store a.dispute
        (dispute_account (record {
          job = a.job;
          spec_hash = job.spec_hash;
          challenger = a.challenger;
          challenger_stake = stake_lamports;
          disputed_thread = a.disputed_thread;
          challenger_receipt_hash = a.challenger_receipt_hash;
          original_receipt_hash = job.receipt_root;
          status = 0;
          evidence_uri = a.evidence_uri;
          opened_at = env.now;
          resolved_at = pos 0;
          bump = rt.find_bump (dispute_seeds a.job a.disputed_thread) taskforest_id;
        }))
        w₁)

unfoldable pub open_dispute : Runtime → Env → OpenDispute → World → Result World
unfolding dispute_seeds
open_dispute rt env a w = do
  job ← load as_job taskforest_id a.job w
  signer env a.challenger
  let seeds = dispute_seeds a.job a.disputed_thread
  w₁ ← init_account rt taskforest_id seeds dispute_size a.challenger a.dispute w
  handler_open_dispute rt env a job w₁

-- The accounts of `resolve_dispute` and of `tally_panel`.
pub record ResolveDispute : Type 0 where
  pub job : ℕ
  pub dispute : ℕ
  pub resolver : ℕ
  pub challenger_account : ℕ

-- The block that both resolutions end with when the agent wins: the challenger's stake moves to
-- the job.
pub agent_wins : Runtime → Env → ResolveDispute → Job → DisputeRecord → World → Result World
agent_wins rt env a job dispute w = do
  w₁ ← pay_out rt dispute_size a.dispute a.job dispute.challenger_stake w
  let resolved = record dispute { status = 1; resolved_at = env.now }
  ok (store a.dispute (dispute_account resolved) (store a.job (job_account job) w₁))

-- The block for the challenger: the stake goes back, the worker's stake is the penalty, and the
-- job fails.
pub challenger_wins : Runtime → Env → ResolveDispute → Job → DisputeRecord → World → Result World
challenger_wins rt env a job dispute w = do
  w₁ ← pay_out rt dispute_size a.dispute a.challenger_account dispute.challenger_stake w
  w₂ ← pay_out rt job_size a.job a.challenger_account job.claimer_stake w₁
  let failed = record job { status = status_failed }
  let resolved = record dispute { status = 2; resolved_at = env.now }
  ok (store a.dispute (dispute_account resolved) (store a.job (job_account failed) w₂))

pub resolve_dispute : Runtime → Env → ℕ → ResolveDispute → World → Result World
resolve_dispute rt env verdict a w = do
  job ← load as_job taskforest_id a.job w
  dispute ← load as_dispute taskforest_id a.dispute w
  signer env a.resolver
  require (dispute.status == 0) (task_forest invalid_dispute_status)
  require (verdict == 1 || verdict == 2) (task_forest invalid_verdict)
  require (job.poster == a.resolver) (task_forest TaskForestError.unauthorized)
  require (dispute.job == a.job) (task_forest TaskForestError.unauthorized)
  require (dispute.challenger == a.challenger_account) (task_forest TaskForestError.unauthorized)
  if verdict == 1 then agent_wins rt env a job dispute w else challenger_wins rt env a job dispute w

-- `verifier` is any signer.
unfoldable pub cast_vote : Runtime → Env → ℕ → ℕ → ℕ → ℕ → World → Result World
unfolding vote_seeds
cast_vote rt env verdict dispute_key vote_key verifier w = do
  dispute ← load as_dispute taskforest_id dispute_key w
  signer env verifier
  let seeds = vote_seeds dispute_key verifier
  w₁ ← init_account rt taskforest_id seeds vote_size verifier vote_key w
  require (dispute.status == 0) (task_forest invalid_dispute_status)
  require (verdict == 1 || verdict == 2) (task_forest invalid_verdict)
  ok (
      store vote_key
        (vote_account (record {
          dispute = dispute_key;
          verifier = verifier;
          verdict = verdict;
          voted_at = env.now;
          bump = rt.find_bump seeds taskforest_id;
        }))
        w₁)

-- `BTreeSet::insert` answers false on a key that is in the set; only membership is used, so the
-- set is the list of the keys seen.
pub contains : ℕ → List ℕ → Bool
contains k [] = false
contains k (x ∷ xs) = x == k || contains k xs

-- The vote that an account's data reads as, whoever owns the account (`try_deserialize`), if it is
-- for this dispute.
pub vote_for : ℕ → Content → Option ℕ
vote_for dispute_key c = elim (as_vote c) [
  | none ↦ none
  | some v ↦ if v.dispute == dispute_key then some v.verdict else none
]

-- The two counters of the loop, `u8` values that saturate.
pub record Tally : Type 0 where
  pub agent_wins_count : ℕ
  pub challenger_wins_count : ℕ

pub add_vote : Option ℕ → Tally → Tally
add_vote none t = t
add_vote (some verdict) t =
    if verdict == 1
    then record t { agent_wins_count = saturating_sum u8_max t.agent_wins_count 1 }
    else if verdict == 2
    then record t { challenger_wins_count = saturating_sum u8_max t.challenger_wins_count 1 }
    else t

-- The loop over the remaining accounts, which skips an address it has seen.
pub count_votes : (ℕ → Content) → ℕ → List ℕ → List ℕ → Tally → Tally
unfolding contains vote_for add_vote
count_votes content dispute_key [] seen t = t
count_votes content dispute_key (k ∷ ks) seen t =
    count_votes content dispute_key ks (if contains k seen then seen else k ∷ seen)
      (if contains k seen then t else add_vote (vote_for dispute_key (content k)) t)

pub tally_panel : Runtime → Env → List ℕ → ResolveDispute → World → Result World
unfolding count_votes
tally_panel rt env remaining a w = do
  job ← load as_job taskforest_id a.job w
  dispute ← load as_dispute taskforest_id a.dispute w
  signer env a.resolver
  require (dispute.status == 0) (task_forest invalid_dispute_status)
  require (dispute.job == a.job) (task_forest TaskForestError.unauthorized)
  require (dispute.challenger == a.challenger_account) (task_forest TaskForestError.unauthorized)
  let start : Tally = record { agent_wins_count = 0; challenger_wins_count = 0 }
  let t = count_votes w.content a.dispute remaining [] start
  require (leb panel_quorum (saturating_sum u8_max t.agent_wins_count t.challenger_wins_count))
      (task_forest quorum_not_reached)
  if ltb t.challenger_wins_count t.agent_wins_count
      then agent_wins rt env a job dispute w
      else challenger_wins rt env a job dispute w
