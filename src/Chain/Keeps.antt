-- ===== src/Chain/Keeps.antt =====
-- The movements of lamports keep the sum over any list that names both addresses once, and touch
-- no account's data; a payout leaves the payer its rent-exempt balance.
use taskforest_protocol.Prelude.{
  ℕ, ◌+◌, ◌-◌, ◌≤◌, ◌≡◌, List, arith, ap, min, inl, inr, Option-cases,
}
use taskforest_protocol.Errors.{Result, Ensures}
use taskforest_protocol.Chain.{
  vacant, Lamports, World, Runtime, IsLawful, update, moved, init_account, system_transfer,
  sub_lamports, add_lamports, move_lamports, available, pay_out,
}
use taskforest_protocol.Chain.Ledger.{count, total, total-update}

-- The step keeps the sum over the list.
abbrev pub Conserves : List ℕ → World → Result World → Type 0
Conserves ks w = Ensures λ w'. total ks w'.lamports ≡ total ks w.lamports

pub total-moved :
    (ks : List ℕ) (from to n : ℕ) (l : Lamports)
    → count from ks ≡ 1
    → count to ks ≡ 1
    → n ≤ l from
    → total ks (moved from to n l) ≡ total ks l
total-moved ks from to n l hf ht h = omega (
  arith,
  total-update ks from (l from - n) l hf,
  total-update ks to (update from (l from - n) l to + n) (update from (l from - n) l) ht,
)

module _ (ks : List ℕ) (from to : ℕ) (hf : count from ks ≡ 1) (ht : count to ks ≡ 1) where
  pub move_lamports-Conserves : (n : ℕ) (w : World) → Conserves ks w (move_lamports from to n w)
  unfolding move_lamports sub_lamports add_lamports
  move_lamports-Conserves n w = ground (arith, total-moved ks from to n w.lamports hf ht)

  pub pay_out-Conserves :
      (rt : Runtime) (size amount : ℕ) (w : World)
      → Conserves ks w (pay_out rt size from to amount w)
  unfolding pay_out
  pay_out-Conserves rt size amount w =
      move_lamports-Conserves (min amount (available rt size from w)) w

  pub system_transfer-Conserves :
      (rt : Runtime)
      → IsLawful rt
      → (n : ℕ) (w : World) → Conserves ks w (system_transfer rt from to n w)
  unfolding system_transfer
  system_transfer-Conserves rt law n w = elim (Option-cases (rt.transfer from to n w.lamports)) [
    | inl e ↦ rw e tt
    | inr (l, e) ↦
        let (h, m) = law.transfer_moves from to n w.lamports l e in
        rw (e, m) (total-moved ks from to n w.lamports hf ht h)
  ]

  pub init_account-Conserves :
      (rt : Runtime)
      → IsLawful rt
      → (program : ℕ) (seeds : List (List ℕ)) (size : ℕ) (w : World)
      → Conserves ks w (init_account rt program seeds size from to w)
  unfolding init_account
  init_account-Conserves rt law program seeds size w =
      elim (Option-cases (rt.create_account from to size w.lamports)) [
        | inl e ↦ ground arith
        | inr (l, e) ↦
            let (n, h, m, _) = law.create_moves from to size w.lamports l e in
            ground (arith, total-moved ks from to n w.lamports hf ht h, ap (total ks) m)
      ]

-- The data and the owners of all accounts are as they were.
abbrev pub SameData : World → Result World → Type 0
SameData w = Ensures λ w'. (w'.content ≡ w.content) × (w'.owner ≡ w.owner)

pub system_transfer-SameData :
    (rt : Runtime) (from to n : ℕ) (w : World) → SameData w (system_transfer rt from to n w)
unfolding system_transfer
system_transfer-SameData rt from to n w = ground arith

pub sub_lamports-SameData : (key n : ℕ) (w : World) → SameData w (sub_lamports key n w)
unfolding sub_lamports
sub_lamports-SameData key n w = ground arith

pub add_lamports-SameData : (key n : ℕ) (w : World) → SameData w (add_lamports key n w)
unfolding add_lamports
add_lamports-SameData key n w = ground arith

pub move_lamports-SameData : (from to n : ℕ) (w : World) → SameData w (move_lamports from to n w)
unfolding move_lamports sub_lamports add_lamports
move_lamports-SameData from to n w = ground arith

pub pay_out-SameData :
    (rt : Runtime) (size from to amount : ℕ) (w : World)
    → SameData w (pay_out rt size from to amount w)
unfolding pay_out
pay_out-SameData rt size from to amount w =
    move_lamports-SameData from to (min amount (available rt size from w)) w

-- A created account was unused; its owner is set, and the data of all accounts is as it was.
pub init_account-fresh :
    (rt : Runtime) (program : ℕ) (seeds : List (List ℕ)) (size payer key : ℕ) (w : World)
    → Ensures
        (λ w'.
          (w.content key ≡ vacant)
          × (w'.content ≡ w.content)
          × (w'.owner ≡ update key program w.owner)
          × (key ≡ rt.find_address seeds program))
        (init_account rt program seeds size payer key w)
unfolding init_account
init_account-fresh rt program seeds size payer key w = ground arith
