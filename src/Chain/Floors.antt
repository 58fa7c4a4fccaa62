-- ===== src/Chain/Floors.antt =====
-- How low a movement of lamports can leave an account: only a payer loses, and a payout leaves the
-- payer its rent-exempt balance.
use taskforest_protocol.Prelude.{ℕ, ◌+◌, ◌≤◌, ◌≡◌, ◌≢◌, List, inl, inr, ap, arith, Option-cases}
use taskforest_protocol.Errors.{Ensures}
use taskforest_protocol.Chain.{
  World, Runtime, IsLawful, init_account, system_transfer, sub_lamports, add_lamports,
  move_lamports, available, pay_out,
}

pub sub_lamports_floor :
    (k key n : ℕ) (w : World)
    → Ensures
        (λ w'. (k ≢ key → w'.lamports k ≡ w.lamports k) × (w'.lamports key + n ≡ w.lamports key))
        (sub_lamports key n w)
unfolding sub_lamports
sub_lamports_floor k key n w = ground arith

pub add_lamports_floor :
    (k key n : ℕ) (w : World)
    → Ensures
        (λ w'. (w.lamports k ≤ w'.lamports k) × (w'.lamports key ≡ w.lamports key + n))
        (add_lamports key n w)
unfolding add_lamports
add_lamports_floor k key n w = ground arith

pub pay_out_floor :
    (k : ℕ) (rt : Runtime) (size from to amount : ℕ) (w : World)
    → Ensures
        (λ w'.
          (k ≢ from → w.lamports k ≤ w'.lamports k)
          × (rt.minimum_balance size ≤ w.lamports k → rt.minimum_balance size ≤ w'.lamports k))
        (pay_out rt size from to amount w)
unfolding pay_out available move_lamports sub_lamports add_lamports
pay_out_floor k rt size from to amount w = ground arith

pub move_lamports_floor :
    (k from to n : ℕ) (w : World)
    → Ensures (λ w'. k ≢ from → w.lamports k ≤ w'.lamports k) (move_lamports from to n w)
unfolding move_lamports sub_lamports add_lamports
move_lamports_floor k from to n w = ground arith

module _ (rt : Runtime) (law : IsLawful rt) where
  pub system_transfer_floor :
      (k from to n : ℕ) (w : World)
      → Ensures
          (λ w'.
            (k ≢ from → w.lamports k ≤ w'.lamports k)
            × (to ≢ from → w'.lamports to ≡ w.lamports to + n))
          (system_transfer rt from to n w)
  unfolding system_transfer
  system_transfer_floor k from to n w = elim (Option-cases (rt.transfer from to n w.lamports)) [
    | inl e ↦ rw e tt
    | inr (l, e) ↦
        let (h, m) = law.transfer_moves from to n w.lamports l e in rw (e, m) (ground arith)
  ]

  pub init_account_floor :
      (k program : ℕ) (seeds : List (List ℕ)) (size payer key : ℕ) (w : World)
      → Ensures
          (λ w'.
            (k ≢ payer → w.lamports k ≤ w'.lamports k)
            × (rt.minimum_balance size ≤ w'.lamports key))
          (init_account rt program seeds size payer key w)
  unfolding init_account
  init_account_floor k program seeds size payer key w =
      elim (Option-cases (rt.create_account payer key size w.lamports)) [
        | inl e ↦ ground arith
        | inr (l, e) ↦
            let (n, h, m, enough) = law.create_moves payer key size w.lamports l e in
            ground (arith, ap (λ (f : ℕ → ℕ). f k) m)
      ]
