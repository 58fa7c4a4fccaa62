-- ===== src/Job/Divided.antt =====
-- What `handler_create_sub_job` of programs/taskforest/src/instructions/job.rs moves: a part of the
-- reward of a staked job into a job of its own.
use taskforest_protocol.Prelude.{false, ℕ, ◌+◌, ◌-◌, ◌∙◌, ◌≤◌, ◌<◌, ◌≡◌, ◌≢◌, true, some, arith, ap}
use taskforest_protocol.Errors.{ok}
use taskforest_protocol.Words.{u16_max, u64_max}
use taskforest_protocol.State.{Job, job_size, taskforest_id, status_staked}
use taskforest_protocol.Chain.{
  World, Runtime, Env, IsLawful, Lamports, vacant, init_account, sub_lamports, add_lamports,
  available, update, store, job_account,
}
use taskforest_protocol.Lifecycle.{job_at}
use taskforest_protocol.Job.{
  SubJobTerms, job_seeds, new_sub_job, create_sub_job, handler_create_sub_job,
}

-- The worker of a staked job signs, the address of the sub-job is its own and unused, its account
-- can be paid for, and the parent's account holds the part above its rent-exempt balance.
pub record IsDivisible (rt : Runtime) (env : Env) (w : World) (t : SubJobTerms) (parent : Job)
    (parent_key sub_key orchestrator : ℕ) : Type 0 where
  pub loaded : job_at w parent_key ≡ some parent
  pub at_hand : w.away parent_key ≡ false
  pub staked : parent.status ≡ status_staked
  pub is_worker : parent.claimer ≡ orchestrator
  pub signs : env.signed orchestrator ≡ true
  pub own_address : sub_key ≡ rt.find_address (job_seeds parent.poster t.sub_job_id) taskforest_id
  pub unused : w.content sub_key ≡ vacant
  pub created : Lamports
  pub creation : rt.create_account orchestrator sub_key job_size w.lamports ≡ some created
  pub positive : 0 < t.reward_lamports
  pub affordable : rt.minimum_balance job_size + t.reward_lamports ≤ w.lamports parent_key
  pub few : parent.sub_job_count < u16_max
  pub apart : parent_key ≢ orchestrator
  pub room : created sub_key + t.reward_lamports ≤ u64_max

module _ (rt : Runtime) (law : IsLawful rt) (env : Env) (w : World) (t : SubJobTerms) (parent : Job)
    (parent_key sub_key orchestrator : ℕ)
    (h : IsDivisible rt env w t parent parent_key sub_key orchestrator) where
  -- The world once the account of the sub-job is created.
  abbrev opened : World
  opened = record w { lamports = h.created; owner = update sub_key taskforest_id w.owner }

  create_sub_job-handler :
      create_sub_job rt env t parent_key sub_key orchestrator w
      ≡ handler_create_sub_job rt t parent_key sub_key orchestrator parent opened
  unfolding create_sub_job init_account
  create_sub_job-handler =
      ground (arith, h.loaded, h.at_hand, h.signs, h.own_address, h.unused, h.creation)

  distinct : parent_key ≢ sub_key
  distinct e = ground (arith, h.loaded, h.unused, e)

  parent_kept : h.created parent_key ≡ w.lamports parent_key
  parent_kept =
      let (n, _, m, _) =
        law.create_moves orchestrator sub_key job_size w.lamports h.created h.creation in
      ground (arith, ap (λ (f : Lamports). f parent_key) m, distinct, h.apart)

  rent_exempt : rt.minimum_balance job_size ≤ h.created sub_key
  rent_exempt =
      let (n, _, _, enough) =
        law.create_moves orchestrator sub_key job_size w.lamports h.created h.creation in
      enough

  -- The worker of a staked job who signs and divides it, under a lawful runtime, while it is not
  -- delegated away: the call succeeds when the part is positive and the parent's account, which is
  -- not the worker's, holds it above its rent-exempt balance, the new account is unused, at its own
  -- address, paid for and with room, and the counter is not full. The part moves from the parent's
  -- account to that of the sub-job, which then holds it above its own rent-exempt balance; the
  -- sub-job belongs to the poster of the parent, names it and waits open for the agent; and the
  -- parent counts it.
  pub create_sub_job_divides :
      (w' : World) × (create_sub_job rt env t parent_key sub_key orchestrator w ≡ ok w')
      × (w'.lamports parent_key + t.reward_lamports ≡ w.lamports parent_key)
      × (rt.minimum_balance job_size + t.reward_lamports ≤ w'.lamports sub_key)
      × (job_at w' parent_key ≡ some (record parent { sub_job_count = parent.sub_job_count + 1 }))
      × (job_at w' sub_key
          ≡ some (
              new_sub_job t parent parent_key
                (rt.find_bump (job_seeds parent.poster t.sub_job_id) taskforest_id)))
  unfolding handler_create_sub_job sub_lamports add_lamports available
  create_sub_job_divides =
      let lent = update parent_key (h.created parent_key - t.reward_lamports) h.created in
      let w' : World =
        store parent_key (job_account (record parent { sub_job_count = parent.sub_job_count + 1 }))
          (store sub_key
            (job_account (
              new_sub_job t parent parent_key
                (rt.find_bump (job_seeds parent.poster t.sub_job_id) taskforest_id)))
            (record opened {
              lamports = update sub_key (lent sub_key + t.reward_lamports) lent;
            })) in
      let run : handler_create_sub_job rt t parent_key sub_key orchestrator parent opened ≡ ok w' =
        ground (
          arith, h.staked, h.is_worker, h.positive, h.affordable, h.few, h.room, parent_kept,
          distinct,
        ) in
      (
        w',
        create_sub_job-handler ∙ run,
        ground (arith, h.affordable, parent_kept, distinct),
        ground (arith, rent_exempt, distinct),
        ground (arith, h.loaded),
        ground (arith, distinct),
      )
