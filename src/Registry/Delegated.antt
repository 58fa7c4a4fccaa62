-- ===== src/Registry/Delegated.antt =====
-- What a delegation takes from the base layer: `handler_delegate_job` of
-- programs/taskforest/src/instructions/delegation.rs hands the job's account to the delegation program.
use taskforest_protocol.Prelude.{ℕ, ◌≡◌, true, false, Option, ℤ, arith}
use taskforest_protocol.Errors.{ok, is_ok}
use taskforest_protocol.Chain.{World, Runtime, Env}
use taskforest_protocol.Lifecycle.{job_at}
use taskforest_protocol.Job.{expire_claim, expire_unclaimed, extend_deadline, auto_assign_job}
use taskforest_protocol.Bidding.{place_bid, close_bidding}
use taskforest_protocol.Settlement.{SettleJob, settle_job, auto_settle, claim_timeout}
use taskforest_protocol.Registry.{delegate_job}

-- Every call on the job at this address that would take bids, assign it, or end it, fails, whoever signs
-- and whenever it comes.
pub record IsLocked (rt : Runtime) (key : ℕ) (w : World) : Type 0 where
  pub no_bid : (env : Env) (stake bidder : ℕ) → is_ok (place_bid env stake key bidder w) ≡ false
  pub no_claim : (env : Env) (payer : ℕ) → is_ok (close_bidding rt env payer key w) ≡ false
  pub no_assignment :
      (env : Env) (agent poster : ℕ) → is_ok (auto_assign_job env agent key poster w) ≡ false
  pub no_extension :
      (env : Env) (t : ℤ) (poster : ℕ) → is_ok (extend_deadline env t key poster w) ≡ false
  pub no_refund : (env : Env) (poster : ℕ) → is_ok (expire_unclaimed rt env key poster w) ≡ false
  pub no_expiry : (env : Env) (payee : ℕ) → is_ok (expire_claim rt env key payee w) ≡ false
  pub no_timeout : (env : Env) (claimer : ℕ) → is_ok (claim_timeout rt env key claimer w) ≡ false
  pub no_settlement : (env : Env) (claimer : ℕ) → is_ok (auto_settle rt env key claimer w) ≡ false
  pub no_verdict :
      (env : Env) (verdict : ℕ) (a : SettleJob)
      → a.job ≡ key
      → is_ok (settle_job rt env verdict a w) ≡ false

away-IsLocked : (rt : Runtime) (key : ℕ) (w : World) → w.away key ≡ true → IsLocked rt key w
unfolding place_bid close_bidding auto_assign_job extend_deadline expire_unclaimed expire_claim
    claim_timeout auto_settle settle_job
away-IsLocked rt key w away = record {
  no_bid = λ env stake bidder. ground arith;
  no_claim = λ env payer. ground arith;
  no_assignment = λ env agent poster. ground arith;
  no_extension = λ env t poster. ground arith;
  no_refund = λ env poster. ground arith;
  no_expiry = λ env payee. ground arith;
  no_timeout = λ env claimer. ground arith;
  no_settlement = λ env claimer. ground arith;
  no_verdict = λ env verdict a same. ground (arith, same);
}

-- A job that is delegated keeps its data and its lamports, and on the base layer it is locked: in
-- the world after the call nobody can bid on it, close its bidding, assign it, extend it, expire
-- it, pass, fail or time it out, or settle it after its window, at whatever time and whoever signs.
pub delegate_job_locks :
    (rt : Runtime) (env : Env) (validator : Option ℕ) (payer key : ℕ) (w w' : World)
    → delegate_job rt env validator payer key w ≡ ok w'
    → (job_at w' key ≡ job_at w key) × (w'.lamports key ≡ w.lamports key) × IsLocked rt key w'
unfolding delegate_job
delegate_job_locks rt env validator payer key w w' h =
    let away : w'.away key ≡ true = ground (arith, h) in
    (ground (arith, h), ground (arith, h), away-IsLocked rt key w' away)
