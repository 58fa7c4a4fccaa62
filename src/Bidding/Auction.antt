-- ===== src/Bidding/Auction.antt =====
-- The auction that `place_bid` of programs/taskforest/src/instructions/bidding.rs runs, bid by bid,
-- against what an auction promises: the first of the highest acceptable bids wins.
use mathlib.Core.List.{append-nil, append_assoc}
use taskforest_protocol.Prelude.{
  ℕ, ◌+◌, ◌/◌, ◌≤◌, ◌<◌, ◌≡◌, refl, Bool, true, false, ◌&&◌, ◌⊎◌, inl, inr, List, [], ◌∷◌, ◌++◌,
  arith, ltb, leb, leb_ℤ, if◌then◌else◌, length, All, Bool-cases, lt→ltb,
}
use taskforest_protocol.Errors.{ok, err}
use taskforest_protocol.Words.{u32_max}
use taskforest_protocol.State.{Job, status_open, status_bidding}
use taskforest_protocol.Chain.{Env}
use taskforest_protocol.Bidding.{bid}

-- A call of `place_bid`, with the moment that it runs at.
pub record Offer : Type 0 where
  pub env : Env
  pub stake : ℕ
  pub bidder : ℕ

-- An offer that is refused changes nothing.
unfoldable pub take_offer : Job → Offer → Job
unfolding bid
take_offer job o = elim (bid o.env o.stake o.bidder job) [ ok job' ↦ job' | err e ↦ job ]

unfoldable pub auction : Job → List Offer → Job
unfolding take_offer
auction job [] = job
auction job (o ∷ os) = auction (take_offer job o) os

-- Positive, at least a tenth of the reward, and in time.
abbrev pub is_acceptable : Job → Offer → Bool
is_acceptable job o =
    ltb 0 o.stake && leb (job.reward_lamports / 10) o.stake && leb_ℤ o.env.now job.deadline

abbrev pub acceptable : Job → List Offer → List Offer
acceptable job [] = []
acceptable job (o ∷ os) = if is_acceptable job o then o ∷ acceptable job os else acceptable job os

-- The offers before are lower, and the offers after are no higher.
abbrev pub Wins : List Offer → ℕ → ℕ → Type 0
Wins os stake bidder =
    (before : List Offer) × (o : Offer) × (after : List Offer) × (os ≡ before ++ o ∷ after)
    × (o.stake ≡ stake)
    × (o.bidder ≡ bidder)
    × All (λ x. x.stake < stake) before
    × All (λ x. x.stake ≤ stake) after

-- The job after the offers so far.
record Tracks (job : Job) (seen : List Offer) (j : Job) : Type 0 where
  same_reward : j.reward_lamports ≡ job.reward_lamports
  same_deadline : j.deadline ≡ job.deadline
  counted : j.bid_count ≡ length seen
  leads :
      ((seen ≡ []) × (j.status ≡ status_open) × (j.best_bid_stake ≡ 0))
      ⊎ ((j.status ≡ status_bidding) × Wins seen j.best_bid_stake j.best_bidder)

refused_offer : (j : Job) (o : Offer) → is_acceptable j o ≡ false → take_offer j o ≡ j
unfolding take_offer
refused_offer j o h = ground arith

abbrev accepted : Job → Offer → Job
accepted j o =
    if ltb j.best_bid_stake o.stake
    then record j {
      status = status_bidding;
      bid_count = j.bid_count + 1;
      best_bid_stake = o.stake;
      best_bidder = o.bidder;
    }
    else record j { status = status_bidding; bid_count = j.bid_count + 1 }

accepted_offer :
    (j : Job) (o : Offer)
    → is_acceptable j o ≡ true
    → (j.status ≡ status_open) ⊎ (j.status ≡ status_bidding)
    → j.bid_count < u32_max
    → take_offer j o ≡ accepted j o
unfolding take_offer
accepted_offer j o h st c = ground arith

All-snoc :
    (t : ℕ) (os : List Offer) (o : Offer)
    → All (λ x. x.stake ≤ t) os
    → o.stake ≤ t
    → All (λ x. x.stake ≤ t) (os ++ o ∷ [])
All-snoc t [] o h k = (k, tt)
All-snoc t (x ∷ os) o h k = (h.0, All-snoc t os o h.1 k)

All-below :
    (s t : ℕ) (os : List Offer) → All (λ x. x.stake ≤ s) os → s < t → All (λ x. x.stake < t) os
All-below s t [] h l = tt
All-below s t (x ∷ os) h l = (omega arith, All-below s t os h.1 l)

All-lower :
    (s t : ℕ) (before after : List Offer) (o : Offer)
    → All (λ x. x.stake < s) before
    → All (λ x. x.stake ≤ s) after
    → o.stake ≡ s
    → s < t
    → All (λ x. x.stake < t) (before ++ o ∷ after)
All-lower s t [] after o h k e l = (omega arith, All-below s t after k l)
All-lower s t (x ∷ before) after o h k e l = (omega arith, All-lower s t before after o h.1 k e l)

Wins-higher :
    (os : List Offer) (s b : ℕ) (o : Offer)
    → Wins os s b
    → s < o.stake
    → Wins (os ++ o ∷ []) o.stake o.bidder
Wins-higher os s b o (before, p, after, e, ps, pb, lo, hi) l =
    (os, o, [], refl, refl, refl, rw e (All-lower s o.stake before after p lo hi ps l), tt)

Wins-lower :
    (os : List Offer) (s b : ℕ) (o : Offer) → Wins os s b → o.stake ≤ s → Wins (os ++ o ∷ []) s b
Wins-lower os s b o (before, p, after, e, ps, pb, lo, hi) l = (
  before,
  p,
  after ++ o ∷ [],
  rw e (append_assoc before (p ∷ after) (o ∷ [])),
  ps,
  pb,
  lo,
  All-snoc s after o hi l,
)

length-snoc : (os : List Offer) (o : Offer) → length (os ++ o ∷ []) ≡ length os + 1
length-snoc [] o = omega arith
length-snoc (x ∷ os) o = omega (arith, length-snoc os o)

accepted-leads :
    (job j : Job) (seen : List Offer) (o : Offer)
    → Tracks job seen j
    → 0 < o.stake
    → Wins (seen ++ o ∷ []) (accepted j o).best_bid_stake (accepted j o).best_bidder
accepted-leads job j seen o t h = elim t.leads [
  | inl (e, _, z) ↦
      rw (e, lt→ltb _ _ (let p : j.best_bid_stake < o.stake = omega arith in p))
        ([], o, [], refl, refl, refl, tt, tt)
  | inr (_, w) ↦ elim (Bool-cases (ltb j.best_bid_stake o.stake)) [
    | inl higher ↦ rw higher (Wins-higher seen j.best_bid_stake j.best_bidder o w (ground arith))
    | inr lower ↦ rw lower (Wins-lower seen j.best_bid_stake j.best_bidder o w (ground arith))
  ]
]

accepted-Tracks :
    (job j : Job) (seen : List Offer) (o : Offer)
    → Tracks job seen j
    → 0 < o.stake
    → Tracks job (seen ++ o ∷ []) (accepted j o)
accepted-Tracks job j seen o t h = record {
  same_reward = ground (arith, t.same_reward);
  same_deadline = ground (arith, t.same_deadline);
  counted = ground (arith, t.counted, length-snoc seen o);
  leads = inr (ground arith, accepted-leads job j seen o t h);
}

step-Tracks :
    (job j : Job) (seen : List Offer) (o : Offer)
    → Tracks job seen j
    → length seen < u32_max
    → Tracks job (if is_acceptable job o then seen ++ o ∷ [] else seen) (take_offer j o)
step-Tracks job j seen o t room =
    let same : is_acceptable job o ≡ is_acceptable j o = rw (t.same_reward, t.same_deadline) in
    elim (Bool-cases (is_acceptable j o)) [
      | inl good ↦
          rw
            (
              same,
              good,
              accepted_offer j o good (elim t.leads [ inl (_, e, _) ↦ inl e | inr (e, _) ↦ inr e ])
                  (omega (arith, t.counted)),
            )
            (accepted-Tracks job j seen o t (ground arith))
      | inr bad ↦ rw (same, bad, refused_offer j o bad) t
    ]

auction-Tracks :
    (job j : Job) (seen os : List Offer)
    → Tracks job seen j
    → length seen + length os ≤ u32_max
    → Tracks job (seen ++ acceptable job os) (auction j os)
unfolding auction
auction-Tracks job j seen [] t room = rw (append-nil seen) t
auction-Tracks job j seen (o ∷ os) t room =
    let st = step-Tracks job j seen o t (omega arith) in
    elim (Bool-cases (is_acceptable job o)) [
      | inl good ↦
          rw (good, ← append_assoc seen (o ∷ []) (acceptable job os))
            (auction-Tracks job (take_offer j o) (seen ++ o ∷ []) os (rw good at st)
              (omega (arith, length-snoc seen o)))
      | inr bad ↦ rw bad (auction-Tracks job (take_offer j o) seen os (rw bad at st) (omega arith))
    ]

-- However many offers are made on an open job, at whatever times, up to the width of the counter:
-- the job counts the acceptable ones; with none it stays open with no best bid, and otherwise it is
-- in bidding and its best bid and bidder are those of the first of the highest acceptable offers.
pub auction_winner :
    (job : Job) (os : List Offer)
    → job.status ≡ status_open
    → job.bid_count ≡ 0
    → job.best_bid_stake ≡ 0
    → length os ≤ u32_max
    → let done = auction job os in
      let good = acceptable job os in
      (done.bid_count ≡ length good)
      × (((good ≡ []) × (done.status ≡ status_open) × (done.best_bid_stake ≡ 0))
          ⊎ ((done.status ≡ status_bidding) × Wins good done.best_bid_stake done.best_bidder))
auction_winner job os st c b room =
    let start : Tracks job [] job = record {
      same_reward = refl;
      same_deadline = refl;
      counted = c;
      leads = inl (refl, st, b);
    } in
    let t = auction-Tracks job job [] os start (omega arith) in (t.counted, t.leads)
