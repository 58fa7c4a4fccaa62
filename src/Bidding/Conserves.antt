-- ===== src/Bidding/Conserves.antt =====
-- No instruction on bids and stakes makes or loses lamports.
use taskforest_protocol.Prelude.{ℕ, ◌≡◌, arith, List}
use taskforest_protocol.Chain.{Env, IsLawful, Runtime, World}
use taskforest_protocol.Chain.Ledger.{count}
use taskforest_protocol.Chain.Keeps.{Conserves, system_transfer-Conserves}
use taskforest_protocol.Bidding.{close_bidding, lock_stake, place_bid}

module _ (ks : List ℕ) (env : Env) where
  pub place_bid-Conserves :
      (stake job bidder : ℕ) (w : World) → Conserves ks w (place_bid env stake job bidder w)
  unfolding place_bid
  place_bid-Conserves stake job bidder w = ground arith

  pub close_bidding-Conserves :
      (rt : Runtime) (payer job : ℕ) (w : World) → Conserves ks w (close_bidding rt env payer job w)
  unfolding close_bidding
  close_bidding-Conserves rt payer job w = ground arith

  pub lock_stake-Conserves :
      (rt : Runtime)
      → IsLawful rt
      → (job claimer : ℕ) (w : World) → count job ks ≡ 1
      → count claimer ks ≡ 1
      → Conserves ks w (lock_stake rt env job claimer w)
  unfolding lock_stake
  lock_stake-Conserves rt law job claimer w h0 h1 =
      grind (arith, system_transfer-Conserves ks claimer job h1 h0 rt law)
