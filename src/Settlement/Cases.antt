-- ===== src/Settlement/Cases.antt =====
-- What the poster's verdict needs, apart from which verdict it is.
use taskforest_protocol.Prelude.{ℕ, ◌≡◌, some, arith}
use taskforest_protocol.Errors.{Ensures}
use taskforest_protocol.State.{Job, status_submitted}
use taskforest_protocol.Chain.{World, Runtime, Env}
use taskforest_protocol.Lifecycle.{job_at}
use taskforest_protocol.Settlement.{SettleJob, pass_job, fail_job, settle_job}

pub settle_job_cases :
    (env : Env) (rt : Runtime) (P : World → Type 0) (verdict : ℕ) (a : SettleJob) (w : World)
    → ((job : Job)
        → job_at w a.job ≡ some job
        → job.status ≡ status_submitted
        → Ensures P (pass_job rt a job w) × Ensures P (fail_job rt a job w))
    → Ensures P (settle_job rt env verdict a w)
unfolding settle_job
settle_job_cases env rt P verdict a w h = grind arith
