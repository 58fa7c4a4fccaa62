-- ===== src/Bytes/RoundTrip.antt =====
-- Numbers written in little-endian bytes and read back, at an offset, as the report parsers of
-- programs/taskforest/src/instructions/tee.rs do.
use native.Mathlib.Numerals.{unary_clauses}
use taskforest_protocol.Prelude.{
  ℕ, zero, suc, ◌+◌, ◌/◌, ◌^◌, ◌<◌, ◌≡◌, refl, true, Option, none, some, List, [], ◌∷◌, ◌++◌, arith,
  ℤ, length, take, drop, ap, ◌∙◌, leb,
}
use taskforest_protocol.Errors.{Error, ok, panicked}
use taskforest_protocol.Words.{to_le_bytes, from_le_bytes, fits_i64}
use taskforest_protocol.Bytes.{read_number, to_i64, of_i64}

pub length-to_le_bytes : (n v : ℕ) → length (to_le_bytes n v) ≡ n
unfolding to_le_bytes
length-to_le_bytes zero v = refl
length-to_le_bytes (suc n) v = omega (arith, length-to_le_bytes n (v / 256))

pub from_le_bytes-to_le_bytes : (n v : ℕ) → v < 256 ^ n → from_le_bytes (to_le_bytes n v) ≡ v
unfolding to_le_bytes from_le_bytes
from_le_bytes-to_le_bytes zero v h = omega arith
from_le_bytes-to_le_bytes (suc n) v h =
    let less : v / 256 < 256 ^ n = omega (arith, simp unary_clauses at h) in
    omega (arith, from_le_bytes-to_le_bytes n (v / 256) less)

pub to_i64-of_i64 : (t : ℤ) → fits_i64 t ≡ true → to_i64 (of_i64 t) ≡ t
to_i64-of_i64 t h = ground arith

drop-append : (xs ys : List ℕ) (k : ℕ) → drop (length xs + k) (xs ++ ys) ≡ drop k ys
drop-append [] ys k = let z : 0 + k ≡ k = omega arith in ap (λ i. drop i ys) z
drop-append (x ∷ xs) ys k =
    let z : suc (length xs) + k ≡ suc (length xs + k) = omega arith in
    ap (λ i. drop i (x ∷ (xs ++ ys))) z ∙ drop-append xs ys k

take-append : (xs ys : List ℕ) → take (length xs) (xs ++ ys) ≡ xs
take-append [] ys = refl
take-append (x ∷ xs) ys = ap (λ zs. x ∷ zs) (take-append xs ys)

pub length-append : (xs ys : List ℕ) → length (xs ++ ys) ≡ length xs + length ys
length-append [] ys = omega arith
length-append (x ∷ xs) ys = omega (arith, length-append xs ys)

-- The bytes before the number do not matter, nor those after it.
pub read_number-skip :
    (e : Error) (n k m : ℕ) (xs ys : List ℕ)
    → length xs ≡ m
    → read_number e n (xs ++ ys) (m + k) ≡ read_number e n ys k
unfolding read_number
read_number-skip e n k m xs ys h =
    rw (← h, drop-append xs ys k) (ground (arith, length-append xs ys))

pub read_number-here :
    (e : Error) (n v : ℕ) (ys : List ℕ)
    → v < 256 ^ n
    → read_number e n (to_le_bytes n v ++ ys) 0 ≡ ok v
unfolding read_number
read_number-here e n v ys h =
    let bytes = to_le_bytes n v in
    let width = length-to_le_bytes n v in
    let cut : take n (bytes ++ ys) ≡ bytes = rw width at (take-append bytes ys) in
    let inside : leb (0 + n) (length (bytes ++ ys)) ≡ true =
      ground (arith, length-append bytes ys, width) in
    rw (inside, cut, from_le_bytes-to_le_bytes n v h) refl

pub of_i64-small : (t : ℤ) → fits_i64 t ≡ true → of_i64 t < 256 ^ 8
of_i64-small t h = ground arith

-- Numbers one after the other, each as its width in bytes and its value.
abbrev pub print_fields : List (ℕ × ℕ) → List ℕ
print_fields [] = []
print_fields ((n, v) ∷ fs) = to_le_bytes n v ++ print_fields fs

abbrev pub width_of : List (ℕ × ℕ) → ℕ
width_of [] = 0
width_of ((n, v) ∷ fs) = n + width_of fs

pub length-print_fields : (fs : List (ℕ × ℕ)) → length (print_fields fs) ≡ width_of fs
length-print_fields [] = refl
length-print_fields ((n, v) ∷ fs) = omega (
  arith,
  length-append (to_le_bytes n v) (print_fields fs),
  length-to_le_bytes n v,
  length-print_fields fs,
)

abbrev pub field_at : ℕ → List (ℕ × ℕ) → Option (ℕ × ℕ)
field_at i [] = none
field_at zero (f ∷ fs) = some f
field_at (suc i) (f ∷ fs) = field_at i fs

read_number-print_fields :
    (e : Error) (n v : ℕ) (fs : List (ℕ × ℕ)) (i : ℕ)
    → field_at i fs ≡ some (n, v)
    → v < 256 ^ n
    → read_number e n (print_fields fs) (width_of (take i fs)) ≡ ok v
read_number-print_fields e n v [] i at h = absurd (ground arith)
read_number-print_fields e n v ((m, u) ∷ fs) zero at h =
    let same : (m ≡ n) × (u ≡ v) = ground (arith, at) in
    rw (same.0, same.1) (read_number-here e n v (print_fields fs) h)
read_number-print_fields e n v ((m, u) ∷ fs) (suc i) at h =
    read_number-skip e n (width_of (take i fs)) m (to_le_bytes m u) (print_fields fs)
      (length-to_le_bytes m u)
    ∙ read_number-print_fields e n v fs i at h

-- A number is read back at its offset, behind a header and the numbers before it.
pub read_number-field :
    (e : Error) (header : List ℕ) (fs : List (ℕ × ℕ)) (i n v : ℕ)
    → field_at i fs ≡ some (n, v)
    → v < 256 ^ n
    → read_number e n (header ++ print_fields fs) (length header + width_of (take i fs)) ≡ ok v
read_number-field e header fs i n v at h =
    read_number-skip e n (width_of (take i fs)) (length header) header (print_fields fs) refl
    ∙ read_number-print_fields e n v fs i at h

-- What is printed alike, in fields of the same widths, is alike.
pub field-same :
    (fs gs : List (ℕ × ℕ)) (i n v u : ℕ)
    → print_fields fs ≡ print_fields gs
    → width_of (take i fs) ≡ width_of (take i gs)
    → field_at i fs ≡ some (n, v)
    → field_at i gs ≡ some (n, u)
    → v < 256 ^ n
    → u < 256 ^ n
    → v ≡ u
field-same fs gs i n v u same width at at' h h' =
    let e : Error = panicked in
    let here : read_number e n (print_fields fs) (width_of (take i fs)) ≡ ok v =
      read_number-print_fields e n v fs i at h in
    let there : read_number e n (print_fields fs) (width_of (take i fs)) ≡ ok u =
      rw (same, width) (read_number-print_fields e n u gs i at' h') in
    ground (arith, here, there)

pub append-nil : (xs : List ℕ) → xs ++ [] ≡ xs
append-nil [] = refl
append-nil (x ∷ xs) = ap (λ zs. x ∷ zs) (append-nil xs)
