-- ===== src/Job/Payouts.antt =====
-- Who is paid what by the two expiries of programs/taskforest/src/instructions/job.rs.
use taskforest_protocol.Prelude.{false, ℕ, ◌+◌, ◌≤◌, ◌≡◌, ◌≢◌, true, ◌⊎◌, some, arith, ◌<ℤ◌}
use taskforest_protocol.Errors.{ok}
use taskforest_protocol.Words.{u64_max}
use taskforest_protocol.State.{
  Job, job_size, status_open, status_bidding, status_claimed, status_staked, status_failed,
}
use taskforest_protocol.Chain.{World, Runtime, Env}
use taskforest_protocol.Chain.Payout.{Paid, capped}
use taskforest_protocol.Lifecycle.{job_at}
use taskforest_protocol.Escrow.{JobIsFunded}
use taskforest_protocol.Payout.{Settles, pay_then, pay_then-Settles}
use taskforest_protocol.Job.{expire_claim, expire_unclaimed}

module _ (rt : Runtime) (env : Env) (w : World) (job : Job) where
  expire_claim-pay_then :
      (key payee : ℕ)
      → job_at w key ≡ some job
      → w.away key ≡ false
      → (job.status ≡ status_claimed) ⊎ (job.status ≡ status_staked)
      → job.deadline <ℤ env.now
      → expire_claim rt env key payee w
        ≡ pay_then rt key payee job.reward_lamports (record job { status = status_failed }) w
  unfolding expire_claim pay_then
  expire_claim-pay_then key payee at near st late = ground arith

  -- Once the deadline of a claimed or staked job has passed, while it is not delegated away, the
  -- reward goes to the account that the call names, whichever other one it is, with room for it,
  -- and whoever signs, as far as the job's account holds it, and the job has failed. The stake
  -- stays behind.
  pub expire_claim_pays :
      (key payee : ℕ)
      → job_at w key ≡ some job
      → w.away key ≡ false
      → (job.status ≡ status_claimed) ⊎ (job.status ≡ status_staked)
      → job.deadline <ℤ env.now
      → key ≢ payee
      → w.lamports payee + job.reward_lamports ≤ u64_max
      → Settles rt key payee job.reward_lamports
          (record job { status = status_failed })
          w
          (expire_claim rt env key payee w)
  expire_claim_pays key payee at near st late ne room =
      rw (expire_claim-pay_then key payee at near st late)
        (pay_then-Settles rt key payee job.reward_lamports _ w job at ne room)

  expire_unclaimed-pay_then :
      (key poster : ℕ)
      → job_at w key ≡ some job
      → w.away key ≡ false
      → (job.status ≡ status_open) ⊎ (job.status ≡ status_bidding)
      → env.signed poster ≡ true
      → job.poster ≡ poster
      → job.deadline <ℤ env.now
      → expire_unclaimed rt env key poster w
        ≡ pay_then rt key poster job.reward_lamports (record job { status = status_failed }) w
  unfolding expire_unclaimed pay_then
  expire_unclaimed-pay_then key poster at near st signs is_poster late = ground arith

  -- Once the deadline of an open job or of one in bidding has passed, and its account is not
  -- delegated away and funded as in every world that is reached from one without jobs, the poster
  -- who signs, whose account is another one and has room, gets the whole reward back: the call
  -- succeeds, the job has failed, and no other balance or job changes.
  pub expire_unclaimed_refunds :
      (key poster : ℕ)
      → job_at w key ≡ some job
      → w.away key ≡ false
      → (job.status ≡ status_open) ⊎ (job.status ≡ status_bidding)
      → env.signed poster ≡ true
      → job.poster ≡ poster
      → job.deadline <ℤ env.now
      → JobIsFunded rt key w
      → key ≢ poster
      → w.lamports poster + job.reward_lamports ≤ u64_max
      → (w' : World) × (expire_unclaimed rt env key poster w ≡ ok w')
        × Paid key poster job.reward_lamports w w'
        × (job_at w' key ≡ some (record job { status = status_failed }))
        × ((q : ℕ) → q ≢ key → job_at w' q ≡ job_at w q)
  expire_unclaimed_refunds key poster at near st signs is_poster late funded ne room =
      let full : capped rt job_size key job.reward_lamports w ≡ job.reward_lamports =
        ground arith in
      let failed = record job { status = status_failed } in
      let settles : Settles rt key poster job.reward_lamports failed w
          (expire_unclaimed rt env key poster w) =
        rw (expire_unclaimed-pay_then key poster at near st signs is_poster late)
          (pay_then-Settles rt key poster job.reward_lamports _ w job at ne room) in
      let (w', e, paid, fails, others) = settles in (w', e, rw full at paid, fails, others)
