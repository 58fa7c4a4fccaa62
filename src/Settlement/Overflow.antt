-- ===== src/Settlement/Overflow.antt =====
-- The sum of the reward and the stake in programs/taskforest/src/instructions/settlement.rs, where
-- it does not fit: a bid is not backed by lamports until `lock_stake`, which a submission does not
-- need.
use taskforest_protocol.Prelude.{false, ℕ, ◌<◌, ◌≡◌, some, arith}
use taskforest_protocol.Errors.{is_ok}
use taskforest_protocol.Words.{u64_max}
use taskforest_protocol.State.{Job}
use taskforest_protocol.Chain.{World, Runtime, Env}
use taskforest_protocol.Lifecycle.{job_at}
use taskforest_protocol.Settlement.{SettleJob, pass_job, settle_job, auto_settle, claim_timeout}
use taskforest_protocol.Settlement.Payouts.{payout_of}

-- When the reward and the stake of a job together exceed u64, none of the calls that would pay its
-- worker both succeeds: at any moment, whoever signs and whatever accounts are named with the
-- job's, the verdict that passes it, the timeout after the review period and the settlement after
-- the dispute window all fail.
pub overflow_never_pays :
    (rt : Runtime) (env : Env) (w : World) (job : Job) (a : SettleJob) (claimer : ℕ)
    → job_at w a.job ≡ some job
    → u64_max < payout_of job
    → (is_ok (settle_job rt env 1 a w) ≡ false)
      × (is_ok (claim_timeout rt env a.job claimer w) ≡ false)
      × (is_ok (auto_settle rt env a.job claimer w) ≡ false)
unfolding settle_job pass_job claim_timeout auto_settle
overflow_never_pays rt env w job a claimer at large = (ground arith, ground arith, ground arith)
