-- ===== src/Payout.antt =====
-- The end that the settlements of programs/taskforest/src/instructions share: a payout out of the
-- job's account, and the job written back.
use taskforest_protocol.Prelude.{ℕ, ◌+◌, ◌≤◌, ◌≡◌, ◌≢◌, refl, some, arith, ap}
use taskforest_protocol.Errors.{Result, ok, ◌>>=◌}
use taskforest_protocol.Words.{u64_max}
use taskforest_protocol.State.{Job, job_size}
use taskforest_protocol.Chain.{World, Runtime, job_account, store, pay_out}
use taskforest_protocol.Chain.Payout.{
  Paid, capped, paid_out, pay_out_lem, paid_out-Paid, paid_out-content, paid_out-owner,
}
use taskforest_protocol.Lifecycle.{job_at}

-- The call succeeds: the payee gets the amount, capped at what the account holds above its
-- rent-exempt balance, the job is as given, and no other job changes.
abbrev pub Settles : Runtime → ℕ → ℕ → ℕ → Job → World → Result World → Type 0
Settles rt key payee amount job w r =
    (w' : World) × (r ≡ ok w')
    × Paid key payee (capped rt job_size key amount w) w w'
    × (job_at w' key ≡ some job)
    × ((q : ℕ) → q ≢ key → job_at w' q ≡ job_at w q)

unfoldable pub pay_then : Runtime → ℕ → ℕ → ℕ → Job → World → Result World
pay_then rt key payee amount job w = do
  w₁ ← pay_out rt job_size key payee amount w
  ok (store key (job_account job) w₁)

pub pay_then-Settles :
    (rt : Runtime) (key payee amount : ℕ) (job' : Job) (w : World) (job : Job)
    → job_at w key ≡ some job
    → key ≢ payee
    → w.lamports payee + amount ≤ u64_max
    → Settles rt key payee amount job' w (pay_then rt key payee amount job' w)
unfolding pay_then
pay_then-Settles rt key payee amount job' w job at ne room =
    let n = capped rt job_size key amount w in
    let v = paid_out key payee n w in
    let paid = paid_out-Paid rt job_size key payee amount w ne in
    let c = paid_out-content key payee n w in
    let o = paid_out-owner key payee n w in
    (
      store key (job_account job') v,
      rw (pay_out_lem rt job_size key payee amount w ne (omega arith)) refl,
      record { credited = paid.credited; debited = paid.debited; others = paid.others },
      ground (arith, ap (λ (f : ℕ → ℕ). f key) o),
      λ q h. ground (arith, ap (λ (f : ℕ → ℕ). f q) o, c),
    )
