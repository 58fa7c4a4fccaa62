-- ===== src/Settlement/Payouts.antt =====
-- Who is paid what by each settlement of programs/taskforest/src/instructions/settlement.rs, from
-- the guards that the handler checks and nothing else.
use taskforest_protocol.Prelude.{
  false, ℕ, ◌+◌, ◌≤◌, ◌≡◌, ◌≢◌, true, some, arith, ℤ, pos, ◌+ℤ◌, ◌<ℤ◌, ltb_ℤ, lt→ltb,
}
use taskforest_protocol.Errors.{ok}
use taskforest_protocol.Words.{u64_max, fits_i64, checked_sum_i64, checked_sum_i64_lem}
use taskforest_protocol.State.{
  Job, status_submitted, status_done, status_failed, review_period_secs,
}
use taskforest_protocol.Chain.{World, Runtime, Env}
use taskforest_protocol.Payout.{Settles, pay_then, pay_then-Settles}
use taskforest_protocol.Lifecycle.{job_at}
use taskforest_protocol.Settlement.{
  SettleJob, pass_job, fail_job, settle_job, auto_settle, claim_timeout,
}

-- The reward and the stake.
abbrev pub payout_of : Job → ℕ
payout_of job = job.reward_lamports + job.claimer_stake

module _ (rt : Runtime) (env : Env) (w : World) (job : Job) where
  claim_timeout-pay_then :
      (key claimer : ℕ) (review_deadline : ℤ)
      → job_at w key ≡ some job
      → w.away key ≡ false
      → env.signed claimer ≡ true
      → job.status ≡ status_submitted
      → job.claimer ≡ claimer
      → checked_sum_i64 job.submitted_at review_period_secs ≡ ok review_deadline
      → ltb_ℤ review_deadline env.now ≡ true
      → payout_of job ≤ u64_max
      → claim_timeout rt env key claimer w
        ≡ pay_then rt key claimer (payout_of job) (record job { status = status_done }) w
  unfolding claim_timeout pay_then
  claim_timeout-pay_then key claimer t at near sg st cl sum late fit = ground arith

  -- Once the review period after the submission, whose end fits into i64, has passed, the worker of
  -- a submitted job that is not delegated away, who signs, is paid the reward and the stake, as far
  -- as the job's account holds them above its rent-exempt balance; nobody else is paid, the job is
  -- done, and no other job changes: provided that the worker's account is not the job's and that
  -- its balance has room for the reward and the stake. No dispute window is looked at.
  pub claim_timeout_pays :
      (key claimer : ℕ)
      → job_at w key ≡ some job
      → w.away key ≡ false
      → env.signed claimer ≡ true
      → job.status ≡ status_submitted
      → job.claimer ≡ claimer
      → fits_i64 (job.submitted_at +ℤ review_period_secs) ≡ true
      → job.submitted_at +ℤ review_period_secs <ℤ env.now
      → key ≢ claimer
      → w.lamports claimer + payout_of job ≤ u64_max
      → Settles rt key claimer
          (payout_of job)
          (record job { status = status_done })
          w
          (claim_timeout rt env key claimer w)
  claim_timeout_pays key claimer at near sg st cl fits late ne room =
      rw
        (claim_timeout-pay_then key claimer _ at near sg st cl (checked_sum_i64_lem _ _ fits)
          (lt→ltb _ _ late) (omega arith))
        (pay_then-Settles rt key claimer (payout_of job) _ w job at ne room)

  auto_settle-pay_then :
      (key claimer : ℕ)
      → job_at w key ≡ some job
      → w.away key ≡ false
      → env.signed claimer ≡ true
      → job.status ≡ status_submitted
      → job.claimer ≡ claimer
      → pos 0 <ℤ job.dispute_window_end
      → job.dispute_window_end <ℤ env.now
      → payout_of job ≤ u64_max
      → auto_settle rt env key claimer w
        ≡ pay_then rt key claimer (payout_of job) (record job { status = status_done }) w
  unfolding auto_settle pay_then
  auto_settle-pay_then key claimer at near sg st cl opened closed fit = ground arith

  -- Once a dispute window was opened and has passed, the worker of a submitted job that is not
  -- delegated away, who signs, is paid the reward and the stake, as far as the job's account holds
  -- them above its rent-exempt balance, and the job is done, whatever disputes over it are open:
  -- provided that the worker's account is not the job's and that its balance has room for the
  -- reward and the stake.
  pub auto_settle_pays :
      (key claimer : ℕ)
      → job_at w key ≡ some job
      → w.away key ≡ false
      → env.signed claimer ≡ true
      → job.status ≡ status_submitted
      → job.claimer ≡ claimer
      → pos 0 <ℤ job.dispute_window_end
      → job.dispute_window_end <ℤ env.now
      → key ≢ claimer
      → w.lamports claimer + payout_of job ≤ u64_max
      → Settles rt key claimer
          (payout_of job)
          (record job { status = status_done })
          w
          (auto_settle rt env key claimer w)
  auto_settle_pays key claimer at near sg st cl opened closed ne room =
      rw (auto_settle-pay_then key claimer at near sg st cl opened closed (omega arith))
        (pay_then-Settles rt key claimer (payout_of job) _ w job at ne room)

  -- The accounts and the signature that a verdict needs.
  pub record SettlesFairly (a : SettleJob) : Type 0 where
    pub loaded : job_at w a.job ≡ some job
    pub at_hand : w.away a.job ≡ false
    pub submitted : job.status ≡ status_submitted
    pub proved : job.proof_hash ≢ 0
    pub signs : env.signed a.settler ≡ true
    pub settler_is_poster : a.settler ≡ job.poster
    pub right_claimer : a.claimer_account ≡ job.claimer
    pub right_poster : a.poster_account ≡ job.poster

  pub settle_job-pay_then :
      (a : SettleJob)
      → SettlesFairly a
      → payout_of job ≤ u64_max
      → (settle_job rt env 1 a w
          ≡ pay_then rt a.job job.claimer (payout_of job) (record job { status = status_done }) w)
        × (settle_job rt env 0 a w
            ≡ pay_then rt a.job job.poster job.reward_lamports
                (record job { status = status_failed })
                w)
  unfolding settle_job pass_job fail_job pay_then
  settle_job-pay_then a f fit = (ground arith, ground arith)

  -- The verdict of the poster, who signs, on a submitted job with a proof that is not delegated
  -- away. When the job's account is neither the worker's nor the poster's, the reward and the stake
  -- fit into the worker's balance and the reward into the poster's, both verdicts succeed. Passed,
  -- it pays the worker the reward and the stake, and the job is done; failed, it pays the poster
  -- the reward and nobody else, so the stake stays behind, and the job has failed. Both as far as
  -- the job's account holds it above its rent-exempt balance.
  pub settle_job_pays :
      (a : SettleJob)
      → SettlesFairly a
      → a.job ≢ job.claimer
      → a.job ≢ job.poster
      → w.lamports job.claimer + payout_of job ≤ u64_max
      → w.lamports job.poster + job.reward_lamports ≤ u64_max
      → Settles rt a.job job.claimer
          (payout_of job)
          (record job { status = status_done })
          w
          (settle_job rt env 1 a w)
        × Settles rt a.job job.poster job.reward_lamports
            (record job { status = status_failed })
            w
            (settle_job rt env 0 a w)
  settle_job_pays a f nc np rc rp =
      let (pass, fail) = settle_job-pay_then a f (omega arith) in
      (
        rw pass (pay_then-Settles rt a.job job.claimer (payout_of job) _ w job f.loaded nc rc),
        rw fail (pay_then-Settles rt a.job job.poster job.reward_lamports _ w job f.loaded np rp),
      )
