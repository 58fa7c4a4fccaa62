-- ===== src/Bytes.antt =====
-- Byte strings as lists of numbers: the `slice.get(start..start + n)` of the report parsers in
-- programs/taskforest/src/instructions/tee.rs and
-- programs/taskforest-payments/src/instructions/payment.rs, and numbers in little-endian bytes.
pub mod RoundTrip
use taskforest_protocol.Prelude.{
  ℕ, ◌+◌, ◌-◌, Bool, true, false, ◌&&◌, Option, none, some, List, [], ◌∷◌, ℤ, pos, negsuc, leb,
  ◌==◌, take, drop, length, if◌then◌else◌,
}
use taskforest_protocol.Errors.{Error, Result, ok, ◌>>=◌, ok_or}
use taskforest_protocol.Words.{from_le_bytes, i64_max, u64_max}

abbrev pub slice : List ℕ → ℕ → ℕ → Option (List ℕ)
slice bytes start n =
    if leb (start + n) (length bytes) then some (take n (drop start bytes)) else none

-- `a == b` on byte slices
unfoldable pub bytes_eq : List ℕ → List ℕ → Bool
bytes_eq [] [] = true
bytes_eq [] (y ∷ ys) = false
bytes_eq (x ∷ xs) [] = false
bytes_eq (x ∷ xs) (y ∷ ys) = x == y && bytes_eq xs ys

-- The number in the n bytes at `start`, or the parser's error where they are not there.
unfoldable pub read_number : Error → ℕ → List ℕ → ℕ → Result ℕ
read_number e n bytes start = do b ← ok_or (slice bytes start n) e; ok (from_le_bytes b)

-- `i64::from_le_bytes` and `i64::to_le_bytes` by two's complement
abbrev pub to_i64 : ℕ → ℤ
to_i64 n = if leb n i64_max then pos n else negsuc (u64_max - n)

abbrev pub of_i64 : ℤ → ℕ
of_i64 (pos n) = n
of_i64 (negsuc n) = u64_max - n

abbrev pub first : List ℕ → ℕ
first [] = 0
first (b ∷ bs) = b

-- `report.get(0..n) == Some(magic)`
abbrev pub has_magic : List ℕ → ℕ → List ℕ → Bool
has_magic magic n report = elim (slice report 0 n) [ none ↦ false | some b ↦ bytes_eq b magic ]

-- `report.get(i).copied() == Some(byte)`
abbrev pub has_byte : ℕ → ℕ → List ℕ → Bool
has_byte i byte report = elim (slice report i 1) [ none ↦ false | some b ↦ first b == byte ]
