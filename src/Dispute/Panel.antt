-- ===== src/Dispute/Panel.antt =====
-- What `handler_tally_panel` of programs/taskforest/src/instructions/dispute.rs decides, against a
-- count of the votes in the distinct accounts that the call names.
use taskforest_protocol.Prelude.{
  leb, ℕ, ◌+◌, ◌≤◌, ◌≡◌, refl, Bool, true, false, some, List, [], ◌∷◌, arith, min, ap, ltb, ◌==◌,
  ◌&&◌, if◌then◌else◌, Bool-cases, inl, inr,
}
use taskforest_protocol.Errors.{Result, require, ◌>>◌, err, task_forest, quorum_not_reached}
use taskforest_protocol.Words.{u8_max, saturating_sum}
use taskforest_protocol.State.{Job, DisputeRecord, taskforest_id, panel_quorum}
use taskforest_protocol.Chain.{World, Content, vote_account, Runtime, Env, as_dispute, as_job}
use taskforest_protocol.Lifecycle.{job_at}
use taskforest_protocol.Dispute.{
  ResolveDispute, Tally, contains, vote_for, add_vote, count_votes, agent_wins, challenger_wins,
  tally_panel,
}

abbrev pub without : ℕ → List ℕ → List ℕ
without k [] = []
without k (x ∷ xs) = if x == k then without k xs else x ∷ without k xs

-- Each address once.
abbrev pub distinct : List ℕ → List ℕ
distinct [] = []
distinct (k ∷ ks) = k ∷ without k (distinct ks)

-- A vote on the dispute with this verdict, and how many of the accounts hold one.
abbrev pub is_vote : ℕ → ℕ → Content → Bool
is_vote dispute_key verdict (vote_account v) = v.dispute == dispute_key && v.verdict == verdict
is_vote dispute_key verdict c = false

abbrev pub votes : (ℕ → Content) → ℕ → ℕ → List ℕ → ℕ
votes content dispute_key verdict [] = 0
votes content dispute_key verdict (k ∷ ks) =
    (if is_vote dispute_key verdict (content k) then 1 else 0)
    + votes content dispute_key verdict ks

abbrev outside : List ℕ → List ℕ → List ℕ
outside seen [] = []
outside seen (x ∷ xs) = if contains x seen then outside seen xs else x ∷ outside seen xs

outside-nil : (xs : List ℕ) → outside [] xs ≡ xs
unfolding contains
outside-nil [] = refl
outside-nil (x ∷ xs) = ap (λ ys. x ∷ ys) (outside-nil xs)

outside-cons : (k : ℕ) (seen xs : List ℕ) → outside (k ∷ seen) xs ≡ outside seen (without k xs)
unfolding contains
outside-cons k seen [] = refl
outside-cons k seen (x ∷ xs) = ground (arith, outside-cons k seen xs)

outside-without :
    (k : ℕ) (seen xs : List ℕ)
    → contains k seen ≡ true
    → outside seen (without k xs) ≡ outside seen xs
outside-without k seen [] h = refl
outside-without k seen (x ∷ xs) h = ground (arith, outside-without k seen xs h)

module _ (content : ℕ → Content) (dispute_key : ℕ) where
  -- The counters, after this many more votes.
  abbrev raised : Tally → List ℕ → Tally
  raised t ks = record {
    agent_wins_count = min u8_max (t.agent_wins_count + votes content dispute_key 1 ks);
    challenger_wins_count = min u8_max (t.challenger_wins_count + votes content dispute_key 2 ks);
  }

  abbrev counted : Tally → ℕ → Tally
  counted t k = add_vote (vote_for dispute_key (content k)) t

  counted-raised :
      (t : Tally) (k : ℕ) (ks : List ℕ)
      → t.agent_wins_count ≤ u8_max
      → t.challenger_wins_count ≤ u8_max
      → (raised (counted t k) ks ≡ raised t (k ∷ ks))
        × ((counted t k).agent_wins_count ≤ u8_max)
        × ((counted t k).challenger_wins_count ≤ u8_max)
  unfolding add_vote vote_for
  counted-raised t k ks ha hc = ground arith

  count_votes-raised :
      (ks seen : List ℕ) (t : Tally)
      → t.agent_wins_count ≤ u8_max
      → t.challenger_wins_count ≤ u8_max
      → count_votes content dispute_key ks seen t ≡ raised t (outside seen (distinct ks))
  unfolding count_votes
  count_votes-raised [] seen t ha hc = ground arith
  count_votes-raised (k ∷ ks) seen t ha hc = elim (Bool-cases (contains k seen)) [
    | inl old ↦
        rw (old, outside-without k seen (distinct ks) old) (count_votes-raised ks seen t ha hc)
    | inr new ↦
        let (same, ha', hc') = counted-raised t k (outside (k ∷ seen) (distinct ks)) ha hc in
        rw (new, ← outside-cons k seen (distinct ks), ← same)
          (count_votes-raised ks (k ∷ seen) (counted t k) ha' hc')
  ]

-- The accounts that a tally needs: an open dispute over this job and its challenger; any signer.
pub record Tallies (env : Env) (w : World) (job : Job) (d : DisputeRecord) (a : ResolveDispute)
    : Type 0 where
  pub job_loaded : job_at w a.job ≡ some job
  pub at_hand : (w.away a.job ≡ false) × (w.away a.dispute ≡ false)
  pub dispute_owned : w.owner a.dispute ≡ taskforest_id
  pub dispute_loaded : as_dispute (w.content a.dispute) ≡ some d
  pub unresolved : d.status ≡ 0
  pub over_job : d.job ≡ a.job
  pub right_challenger : d.challenger ≡ a.challenger_account
  pub signs : env.signed a.resolver ≡ true

abbrev start : Tally
start = record { agent_wins_count = 0; challenger_wins_count = 0 }

-- What a tally does with its counters, whatever its two outcomes do.
abbrev verdict_of : Tally → Result World → Result World → Result World
verdict_of t for_agent for_challenger = do
  require (leb panel_quorum (saturating_sum u8_max t.agent_wins_count t.challenger_wins_count))
      (task_forest quorum_not_reached)
  if ltb t.challenger_wins_count t.agent_wins_count then for_agent else for_challenger

verdict_of-votes :
    (agent challenger : ℕ) (x y : Result World)
    → verdict_of
        (record {
          agent_wins_count = min u8_max (0 + agent);
          challenger_wins_count = min u8_max (0 + challenger);
        })
        x
        y
      ≡ (if ltb (agent + challenger) panel_quorum
          then err (task_forest quorum_not_reached)
          else if ltb (min u8_max challenger) (min u8_max agent)
          then x
          else y)
verdict_of-votes agent challenger x y = ground arith

module _ (rt : Runtime) (env : Env) (w : World) (job : Job) (d : DisputeRecord) where
  tally_panel-verdict_of :
      (a : ResolveDispute) (remaining : List ℕ)
      → Tallies env w job d a
      → tally_panel rt env remaining a w
        ≡ verdict_of
            (count_votes w.content a.dispute remaining [] start)
            (agent_wins rt env a job d w)
            (challenger_wins rt env a job d w)
  unfolding tally_panel
  tally_panel-verdict_of a remaining f =
      let owned : (w.owner a.job == taskforest_id) ≡ true = ground (arith, f.job_loaded) in
      let held : as_job (w.content a.job) ≡ some job = ground (arith, f.job_loaded) in
      let same_job : (d.job == a.job) ≡ true = ground (arith, f.over_job) in
      let same_challenger : (d.challenger == a.challenger_account) ≡ true =
        ground (arith, f.right_challenger) in
      rw
        (
          owned, held, f.dispute_owned, f.dispute_loaded, f.at_hand.0, f.at_hand.1, f.signs,
          f.unresolved, same_job, same_challenger,
        )
        refl

  -- The tally of an open dispute, by anyone who signs, with the dispute's own job and challenger
  -- and neither account delegated away, over the accounts that its caller names: each address
  -- counts once, whoever owns the account and whoever cast the vote, and only the votes that name
  -- this dispute count, for the agent with verdict 1 and for the challenger with verdict 2. Fewer
  -- than three votes are refused; otherwise the agent wins with more votes than the challenger,
  -- both counted up to 255, and the challenger wins the rest, ties included.
  pub tally_panel_decides :
      (a : ResolveDispute) (remaining : List ℕ)
      → Tallies env w job d a
      → let agent = votes w.content a.dispute 1 (distinct remaining) in
        let challenger = votes w.content a.dispute 2 (distinct remaining) in
        tally_panel rt env remaining a w ≡ (
          if ltb (agent + challenger) panel_quorum
          then err (task_forest quorum_not_reached)
          else if ltb (min u8_max challenger) (min u8_max agent)
          then agent_wins rt env a job d w
          else challenger_wins rt env a job d w)
  tally_panel_decides a remaining f =
      let good = distinct remaining in
      rw
        (
          tally_panel-verdict_of a remaining f,
          count_votes-raised w.content a.dispute remaining [] start (omega arith) (omega arith),
          outside-nil good,
        )
        (verdict_of-votes (votes w.content a.dispute 1 good) (votes w.content a.dispute 2 good) _ _)
