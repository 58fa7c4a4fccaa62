-- ===== src/Bidding/Closing.antt =====
-- An auction from the first bid to the claim: calls of `place_bid` on one job, and the
-- `close_bidding` of programs/taskforest/src/instructions/bidding.rs that follows them.
use taskforest_protocol.Prelude.{
  Bool, ap, false, ℕ, ◌<◌, ◌≤◌, ◌≡◌, ◌≢◌, ◌∙◌, true, refl, some, inl, inr, List, [], ◌∷◌, length,
  All, arith,
}
use taskforest_protocol.Errors.{Result, ok, err}
use taskforest_protocol.Words.{u32_max}
use taskforest_protocol.State.{Job, status_open, status_bidding, status_claimed}
use taskforest_protocol.Chain.{World, Runtime, Env, job_account, store}
use taskforest_protocol.Lifecycle.{job_at}
use taskforest_protocol.Bidding.{place_bid, close_bidding, bid}
use taskforest_protocol.Bidding.Auction.{
  Offer, take_offer, auction, acceptable, Wins, auction_winner,
}

-- A call that fails changes nothing.
abbrev pub landed : Result World → World → World
landed (ok w') w = w'
landed (err e) w = w

-- The calls of `place_bid` that these offers are, one after the other.
pub calls : ℕ → List Offer → World → World
calls key [] w = w
calls key (o ∷ os) w = calls key os (landed (place_bid o.env o.stake key o.bidder w) w)

abbrev pub IsSigned : Offer → Type 0
IsSigned o = o.env.signed o.bidder ≡ true

landed-take_offer :
    (key : ℕ) (o : Offer) (w : World) (job : Job)
    → job_at w key ≡ some job
    → w.away key ≡ false
    → IsSigned o
    → job_at (landed (place_bid o.env o.stake key o.bidder w) w) key ≡ some (take_offer job o)
unfolding place_bid take_offer
landed-take_offer key o w job at near signs = ground arith

landed-away :
    (key : ℕ) (o : Offer) (w : World)
    → (landed (place_bid o.env o.stake key o.bidder w) w).away ≡ w.away
unfolding place_bid
landed-away key o w = ground arith

calls-away : (key : ℕ) (os : List Offer) (w : World) → (calls key os w).away ≡ w.away
unfolding calls
calls-away key [] w = refl
calls-away key (o ∷ os) w =
    calls-away key os (landed (place_bid o.env o.stake key o.bidder w) w) ∙ landed-away key o w

calls-auction :
    (key : ℕ) (os : List Offer) (w : World) (job : Job)
    → job_at w key ≡ some job
    → w.away key ≡ false
    → All IsSigned os
    → job_at (calls key os w) key ≡ some (auction job os)
unfolding calls auction
calls-auction key [] w job at near signs = at
calls-auction key (o ∷ os) w job at near signs =
    calls-auction key os (landed (place_bid o.env o.stake key o.bidder w) w) (take_offer job o)
      (landed-take_offer key o w job at near signs.0)
      (ap (λ (f : ℕ → Bool). f key) (landed-away key o w) ∙ near) signs.1

take_offer-tee_verified :
    (job : Job) (o : Offer) → (take_offer job o).tee_verified ≡ job.tee_verified
unfolding take_offer bid
take_offer-tee_verified job o = ground arith

auction-tee_verified :
    (job : Job) (os : List Offer) → (auction job os).tee_verified ≡ job.tee_verified
unfolding auction
auction-tee_verified job [] = refl
auction-tee_verified job (o ∷ os) =
    auction-tee_verified (take_offer job o) os ∙ take_offer-tee_verified job o

-- The job that the best bid is assigned.
abbrev claimed : Job → Job
claimed job = record job {
  claimer = job.best_bidder;
  claimer_stake = job.best_bid_stake;
  status = status_claimed;
}

module _ (rt : Runtime) (env : Env) (payer key : ℕ) (w : World) where
  close_bidding_lem :
      (job : Job)
      → job_at w key ≡ some job
      → w.away key ≡ false
      → env.signed payer ≡ true
      → job.status ≡ status_bidding
      → 0 < job.bid_count
      → job.tee_verified ≡ true
      → rt.commit_and_undelegate payer key ≡ true
      → close_bidding rt env payer key w ≡ ok (store key (job_account (claimed job)) w)
  unfolding close_bidding
  close_bidding_lem job at near signs st counted attested commit = ground arith

  stored-job_at :
      (job job' : Job)
      → job_at w key ≡ some job
      → job_at (store key (job_account job') w) key ≡ some job'
  stored-job_at job job' at = ground arith

-- Signed calls of `place_bid` on an open job that is not delegated away, without bids, in an
-- attested enclave, no more than the counter can hold and one at least acceptable, and the closing
-- of the bidding after them, by a payer who signs and with the commit of the rollup: the closing
-- succeeds, and the job is claimed by the bidder of the first of the highest acceptable bids, with
-- the stake of that bid, however many calls were refused in between.
pub close_bidding_assigns :
    (rt : Runtime) (env : Env) (payer key : ℕ) (w : World) (job : Job) (os : List Offer)
    → job_at w key ≡ some job
    → w.away key ≡ false
    → (job.status ≡ status_open) × (job.bid_count ≡ 0) × (job.best_bid_stake ≡ 0)
    → job.tee_verified ≡ true
    → All IsSigned os
    → length os ≤ u32_max
    → acceptable job os ≢ []
    → env.signed payer ≡ true
    → rt.commit_and_undelegate payer key ≡ true
    → (w' : World) × (j : Job) × (close_bidding rt env payer key (calls key os w) ≡ ok w')
      × (job_at w' key ≡ some j)
      × (j.status ≡ status_claimed)
      × Wins (acceptable job os) j.claimer_stake j.claimer
close_bidding_assigns rt env payer key w job os at near (st, none_yet, no_best) attested signed room
      some_good signs commit =
    let done = auction job os in
    let here = calls-auction key os w job at near signed in
    let (counted, outcome) = auction_winner job os st none_yet no_best room in
    let attested' : done.tee_verified ≡ true = auction-tee_verified job os ∙ attested in
    elim outcome [
      | inl (empty, _, _) ↦ absurd (some_good empty)
      | inr (bidding, wins) ↦
          let some_bid : 0 < done.bid_count = ground (arith, some_good, counted) in
          (
            _,
            claimed done,
            close_bidding_lem rt env payer key (calls key os w) done here
                (ap (λ (f : ℕ → Bool). f key) (calls-away key os w) ∙ near) signs bidding some_bid
                attested' commit,
            stored-job_at rt env payer key (calls key os w) done (claimed done) here,
            refl,
            wins,
          )
    ]
