-- ===== src/Chain/Payout.antt =====
-- What a payout does when it is made: the two balances, all others, and nothing else.
use taskforest_protocol.Prelude.{ℕ, ◌+◌, ◌-◌, ◌≤◌, ◌≡◌, ◌≢◌, arith, min, ltb, if◌then◌else◌}
use taskforest_protocol.Errors.{ok}
use taskforest_protocol.Words.{u64_max}
use taskforest_protocol.Chain.{
  World, Runtime, sub_lamports, add_lamports, move_lamports, available, pay_out, moved,
}

-- n lamports have moved from one address to another, and no other balance has changed.
pub record Paid (from to n : ℕ) (w w' : World) : Type 0 where
  pub credited : w'.lamports to ≡ w.lamports to + n
  pub debited : w'.lamports from + n ≡ w.lamports from
  pub others : (q : ℕ) → q ≢ from → q ≢ to → w'.lamports q ≡ w.lamports q

-- The amount that a payout of an account of this size comes to.
abbrev pub capped : Runtime → ℕ → ℕ → ℕ → World → ℕ
capped rt size from amount w = min amount (w.lamports from - rt.minimum_balance size)

-- The world after it.
abbrev pub paid_out : ℕ → ℕ → ℕ → World → World
paid_out from to n w = if ltb 0 n then record w { lamports = moved from to n w.lamports } else w

module _ (rt : Runtime) (size from to amount : ℕ) (w : World) (ne : from ≢ to) where
  abbrev n : ℕ
  n = capped rt size from amount w

  pub pay_out_lem :
      w.lamports to + n ≤ u64_max → pay_out rt size from to amount w ≡ ok (paid_out from to n w)
  unfolding pay_out available move_lamports sub_lamports add_lamports
  pay_out_lem room = ground arith

  pub paid_out-Paid : Paid from to n w (paid_out from to n w)
  paid_out-Paid = record {
    credited = ground arith;
    debited = ground arith;
    others = λ q hf ht. ground arith;
  }

pub paid_out-content : (from to n : ℕ) (w : World) → (paid_out from to n w).content ≡ w.content
paid_out-content from to n w = ground arith

pub paid_out-owner : (from to n : ℕ) (w : World) → (paid_out from to n w).owner ≡ w.owner
paid_out-owner from to n w = ground arith

-- The same of a movement that the account can pay.
module _ (from to n : ℕ) (w : World) (ne : from ≢ to) (enough : n ≤ w.lamports from) where
  pub move_lamports_lem :
      w.lamports to + n ≤ u64_max → move_lamports from to n w ≡ ok (paid_out from to n w)
  unfolding move_lamports sub_lamports add_lamports
  move_lamports_lem room = ground arith

  pub move-Paid : Paid from to n w (paid_out from to n w)
  move-Paid = record {
    credited = ground arith;
    debited = ground arith;
    others = λ q hf ht. ground arith;
  }
