-- ===== src/Tests/Settled.antt =====
-- The settlements, the auction and the steps of the programs, on the jobs and wallets of the setup.
use taskforest_protocol.Prelude.{
  false, some, true, ◌+ℤ◌, ◌≡◌, ◌⊎◌, refl, arith, List, [], ◌∷◌, length,
}
use taskforest_protocol.State.{
  Job, status_open, status_bidding, status_claimed, status_done, status_failed,
}
use taskforest_protocol.Chain.Keeps.{Conserves}
use taskforest_protocol.Lifecycle.{FollowsAt}
use taskforest_protocol.Payout.{Settles}
use taskforest_protocol.Job.{new_job}
use taskforest_protocol.Bidding.{close_bidding}
use taskforest_protocol.Bidding.Closing.{calls, close_bidding_assigns}
use taskforest_protocol.Settlement.Overflow.{overflow_never_pays}
use taskforest_protocol.Errors.{ok, is_ok}
use taskforest_protocol.Words.{u64_max}
use taskforest_protocol.Chain.{World}
use taskforest_protocol.Lifecycle.{job_at}
use taskforest_protocol.Bidding.Auction.{Offer, auction, acceptable, Wins, auction_winner}
use taskforest_protocol.Settlement.{SettleJob, settle_job, auto_settle, claim_timeout}
use taskforest_protocol.Settlement.Payouts.{
  settle_job_pays, auto_settle_pays, claim_timeout_pays, SettlesFairly,
}
use taskforest_protocol.Program.{Instruction, task, expire_unclaimed, execute}
use taskforest_protocol.Program.Lifecycle.{execute-FollowsAt}
use taskforest_protocol.Program.Conserves.{execute-Conserves}
use taskforest_protocol.Tests.Setup.{
  demo_services, demo_runtime, demo_runtime-IsLawful, at_time, demo_terms, demo_job, world_with,
}

abbrev offers : List Offer
offers =
    record { env = at_time 10; stake = 600; bidder = 2 }
    ∷ record { env = at_time 20; stake = 300; bidder = 3 }
    ∷ record { env = at_time 30; stake = 900; bidder = 4 }
    ∷ record { env = at_time 40; stake = 900; bidder = 5 }
    ∷ record { env = at_time 500; stake = 9000; bidder = 6 }
    ∷ []

abbrev open_job : Job
open_job = new_job demo_terms 1 255

auction_winner_example :
    ((auction open_job offers).bid_count ≡ length (acceptable open_job offers))
    × (((acceptable open_job offers ≡ [])
          × ((auction open_job offers).status ≡ status_open)
          × ((auction open_job offers).best_bid_stake ≡ 0))
        ⊎ (((auction open_job offers).status ≡ status_bidding)
            × Wins
                (acceptable open_job offers)
                (auction open_job offers).best_bid_stake
                (auction open_job offers).best_bidder))
auction_winner_example = auction_winner open_job offers refl refl refl (omega arith)

abbrev verdict_accounts : SettleJob
verdict_accounts = record { job = 50; settler = 1; poster_account = 1; claimer_account = 2 }

demo_job-SettlesFairly :
    SettlesFairly demo_runtime (at_time 30) (world_with demo_job) demo_job verdict_accounts
demo_job-SettlesFairly = record {
  loaded = refl;
  at_hand = refl;
  submitted = refl;
  proved = omega arith;
  signs = refl;
  settler_is_poster = refl;
  right_claimer = refl;
  right_poster = refl;
}

settle_job_pays_example :
    Settles demo_runtime 50 2 5800
      (record demo_job { status = status_done })
      (world_with demo_job)
      (settle_job demo_runtime (at_time 30) 1 verdict_accounts (world_with demo_job))
    × Settles demo_runtime 50 1 5000
        (record demo_job { status = status_failed })
        (world_with demo_job)
        (settle_job demo_runtime (at_time 30) 0 verdict_accounts (world_with demo_job))
settle_job_pays_example =
    settle_job_pays demo_runtime (at_time 30) (world_with demo_job) demo_job verdict_accounts
      demo_job-SettlesFairly (omega arith) (omega arith) (omega arith) (omega arith)

auto_settle_pays_example :
    Settles demo_runtime 50 2 5800
      (record demo_job { status = status_done })
      (world_with demo_job)
      (auto_settle demo_runtime (at_time 90000) 50 2 (world_with demo_job))
auto_settle_pays_example =
    auto_settle_pays demo_runtime (at_time 90000) (world_with demo_job) demo_job 50 2 refl refl refl
      refl refl (omega arith) (omega arith) (omega arith) (omega arith)

claim_timeout_pays_example :
    Settles demo_runtime 50 2 5800
      (record demo_job { status = status_done })
      (world_with demo_job)
      (claim_timeout demo_runtime (at_time 5000) 50 2 (world_with demo_job))
unfolding ◌+ℤ◌
claim_timeout_pays_example =
    claim_timeout_pays demo_runtime (at_time 5000) (world_with demo_job) demo_job 50 2 refl refl
      refl refl refl refl (omega arith) (omega arith) (omega arith)

abbrev expiry : Instruction
expiry = task (expire_unclaimed 50 1)

execute-FollowsAt_example :
    FollowsAt 50
      (world_with open_job)
      (execute demo_services (at_time 200) expiry (world_with open_job))
execute-FollowsAt_example =
    execute-FollowsAt 50 demo_services (at_time 200) expiry (world_with open_job)

execute-Conserves_example :
    Conserves
      (1 ∷ 2 ∷ 50 ∷ [])
      (world_with open_job)
      (execute demo_services (at_time 200) expiry (world_with open_job))
execute-Conserves_example =
    execute-Conserves (1 ∷ 2 ∷ 50 ∷ []) demo_services demo_runtime-IsLawful (at_time 200) expiry
      (world_with open_job) (refl, (refl, tt))

-- The same calls on a job whose enclave is attested, and the closing by wallet 9.
abbrev attested_job : Job
attested_job = record open_job { tee_verified = true }

close_bidding_assigns_example :
    (w' : World) × (j : Job) × (close_bidding demo_runtime
        (at_time 50)
        9
        50
        (calls 50 offers (world_with attested_job))
      ≡ ok w')
    × (job_at w' 50 ≡ some j)
    × (j.status ≡ status_claimed)
    × Wins (acceptable attested_job offers) j.claimer_stake j.claimer
close_bidding_assigns_example =
    close_bidding_assigns demo_runtime (at_time 50) 9 50 (world_with attested_job) attested_job
      offers refl refl (refl, refl, refl) refl (refl, (refl, (refl, (refl, (refl, tt)))))
      (omega arith) (λ e. ground (arith, e)) refl refl

-- A bid that nobody could stake.
abbrev unbacked_job : Job
unbacked_job = record demo_job { claimer_stake = u64_max }

overflow_never_pays_example :
    (is_ok (settle_job demo_runtime (at_time 90000) 1 verdict_accounts (world_with unbacked_job))
      ≡ false)
    × (is_ok (claim_timeout demo_runtime (at_time 90000) 50 2 (world_with unbacked_job)) ≡ false)
    × (is_ok (auto_settle demo_runtime (at_time 90000) 50 2 (world_with unbacked_job)) ≡ false)
overflow_never_pays_example =
    overflow_never_pays demo_runtime (at_time 90000) (world_with unbacked_job) unbacked_job
      verdict_accounts 2 refl (omega arith)
