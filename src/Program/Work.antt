-- ===== src/Program/Work.antt =====
-- From the stake to the payment: the worker who has staked submits a proof, and the poster passes
-- it.
use taskforest_protocol.Prelude.{false, ℕ, ◌+◌, ◌≤◌, ◌≡◌, ◌≢◌, some, true, arith, refl, ◌∙◌, ◌≤ℤ◌}
use taskforest_protocol.Errors.{ok}
use taskforest_protocol.Words.{u64_max}
use taskforest_protocol.State.{Job, job_size, status_staked, status_done}
use taskforest_protocol.Chain.{World, Env, IsLawful, job_account, store}
use taskforest_protocol.Chain.Payout.{Paid, capped}
use taskforest_protocol.Lifecycle.{job_at}
use taskforest_protocol.Payout.{pay_then-Settles}
use taskforest_protocol.Settlement.{SettleJob}
use taskforest_protocol.Settlement.Payouts.{payout_of, settle_job-pay_then}
use taskforest_protocol.Proof.Submitted.{submission, submit_proof_lem}
use taskforest_protocol.Program.{Services, task, submit_proof, settle_job, execute, taskforest}
use taskforest_protocol.Program.Steps.{Reach, IsGenesis, Reach-IsFunded}

-- A staked job without sub-jobs whose worker signs in time, with a proof that is not zero, and
-- whose poster signs afterwards.
pub record IsPassed (before after : Env) (w : World) (job : Job) (key hash : ℕ) : Type 0 where
  pub loaded : job_at w key ≡ some job
  pub at_hand : w.away key ≡ false
  pub staked : job.status ≡ status_staked
  pub undivided : job.sub_job_count ≡ 0
  pub worker_signs : before.signed job.claimer ≡ true
  pub in_time : before.now ≤ℤ job.deadline
  pub proved : hash ≢ 0
  pub poster_signs : after.signed job.poster ≡ true
  pub apart : key ≢ job.claimer
  pub room : w.lamports job.claimer + payout_of job ≤ u64_max

abbrev pub pass_accounts : Job → ℕ → SettleJob
pass_accounts job key = record {
  job = key;
  settler = job.poster;
  poster_account = job.poster;
  claimer_account = job.claimer;
}

module _ (s : Services) (law : IsLawful s.runtime) {w w' : World} (genesis : IsGenesis w)
    (r : Reach s w w') where
  -- In every world that is reached from one without jobs, by instructions of both programs and
  -- steps of others, under a lawful runtime and fair signatures, the worker of a staked job that
  -- has no sub-jobs and is not delegated away signs and submits a proof other than zero by the
  -- deadline, and the poster then signs and passes it: when the reward and the stake fit into the
  -- balance of the worker, whose account is not the job's, both calls succeed, exactly the reward
  -- and the stake move from the job to the worker, no other balance changes, and the job is done.
  pub Reach-pays_worker :
      (before after : Env) (job : Job) (key hash : ℕ)
      → IsPassed before after w' job key hash
      → (u : World) × (v : World) × (execute s before (task (submit_proof hash key job.claimer)) w'
          ≡ ok u)
        × (execute s after (task (settle_job 1 (pass_accounts job key))) u ≡ ok v)
        × Paid key job.claimer (payout_of job) w' v
        × (job_at v key ≡ some (record (submission before hash job) { status = status_done }))
  unfolding execute taskforest
  Reach-pays_worker before after job key hash h =
      let done = submission before hash job in
      let u = store key (job_account done) w' in
      let funded = Reach-IsFunded s law genesis r key job h.loaded in
      let whole : capped s.runtime job_size key (payout_of job) w' ≡ payout_of job =
        ground (arith, funded, h.staked, h.undivided) in
      let at : job_at u key ≡ some done = ground (arith, h.loaded) in
      let pass =
        (settle_job-pay_then s.runtime after u done (pass_accounts job key)
          (record {
            loaded = at;
            at_hand = h.at_hand;
            submitted = refl;
            proved = h.proved;
            signs = h.poster_signs;
            settler_is_poster = refl;
            right_claimer = refl;
            right_poster = refl;
          })
          (omega (arith, h.room))).0 in
      let (v, run, paid, finished, _) =
        pay_then-Settles s.runtime key job.claimer (payout_of job)
          (record done { status = status_done }) u done at h.apart h.room in
      let through : Paid key job.claimer (capped s.runtime job_size key (payout_of job) w') w' v =
        record { credited = paid.credited; debited = paid.debited; others = paid.others } in
      (
        u,
        v,
        submit_proof_lem before hash key job w' h.loaded h.at_hand h.staked h.worker_signs
            h.in_time,
        pass ∙ run,
        rw whole at through,
        finished,
      )
