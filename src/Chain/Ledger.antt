-- ===== src/Chain/Ledger.antt =====
-- The sum of the lamports over a list of addresses, and how a debit and a credit change it.
use taskforest_protocol.Prelude.{ℕ, suc, ◌+◌, ◌≡◌, refl, List, [], ◌∷◌, arith, ◌==◌, if◌then◌else◌}
use taskforest_protocol.Chain.{Lamports, update}

abbrev pub count : ℕ → List ℕ → ℕ
count k [] = 0
count k (x ∷ xs) = if x == k then suc (count k xs) else count k xs

abbrev pub total : List ℕ → Lamports → ℕ
total [] l = 0
total (x ∷ xs) l = l x + total xs l

total-update_other :
    (ks : List ℕ) (k v : ℕ) (l : Lamports) → count k ks ≡ 0 → total ks (update k v l) ≡ total ks l
total-update_other [] k v l h = refl
total-update_other (x ∷ xs) k v l h = ground (arith, total-update_other xs k v l)

-- An address that the list names once counts once in the sum.
pub total-update :
    (ks : List ℕ) (k v : ℕ) (l : Lamports)
    → count k ks ≡ 1
    → total ks (update k v l) + l k ≡ total ks l + v
total-update [] k v l h = absurd (omega arith)
total-update (x ∷ xs) k v l h = ground (arith, total-update_other xs k v l, total-update xs k v l)
