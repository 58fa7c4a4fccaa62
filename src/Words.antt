-- ===== src/Words.antt =====
-- Machine integers. A value of `u8`, `u16`, `u32` or `u64` is a natural number and one of `i64` an
-- integer; a sum that leaves its type panics, as the release profile asks (overflow-checks in
-- Cargo.toml). `Pubkey` and `[u8; 32]` are the number whose little-endian bytes they hold, so the
-- all-zero value is 0.
use taskforest_protocol.Prelude.{
  ℕ, zero, suc, ◌+◌, ◌*◌, ◌/◌, ◌%◌, ◌≡◌, Bool, true, ◌&&◌, List, [], ◌∷◌, leb, if◌then◌else◌, ℤ,
  pos, negsuc, ◌+ℤ◌, leb_ℤ,
}
use taskforest_protocol.Errors.{Result, ok, err, panicked}

abbrev pub u8_max : ℕ
u8_max = 255

abbrev pub u16_max : ℕ
u16_max = 65535

abbrev pub u32_max : ℕ
u32_max = 4294967295

abbrev pub u64_max : ℕ
u64_max = 18446744073709551615

abbrev pub i64_max : ℕ
i64_max = 9223372036854775807

-- `a + b` on an unsigned type with this greatest value
abbrev pub checked_sum : ℕ → ℕ → ℕ → Result ℕ
checked_sum greatest a b = if leb (a + b) greatest then ok (a + b) else err panicked

-- `saturating_add`
abbrev pub saturating_sum : ℕ → ℕ → ℕ → ℕ
saturating_sum greatest a b = if leb (a + b) greatest then a + b else greatest

abbrev pub fits_i64 : ℤ → Bool
fits_i64 t = leb_ℤ (negsuc i64_max) t && leb_ℤ t (pos i64_max)

-- `a + b` on `i64`
unfoldable pub checked_sum_i64 : ℤ → ℤ → Result ℤ
checked_sum_i64 a b = if fits_i64 (a +ℤ b) then ok (a +ℤ b) else err panicked

-- `to_le_bytes` at a width in bytes, and `from_le_bytes`
unfoldable pub to_le_bytes : ℕ → ℕ → List ℕ
to_le_bytes zero n = []
to_le_bytes (suc width) n = (n % 256) ∷ to_le_bytes width (n / 256)

unfoldable pub from_le_bytes : List ℕ → ℕ
from_le_bytes [] = 0
from_le_bytes (b ∷ bs) = b + 256 * from_le_bytes bs

pub checked_sum_i64_lem : (a b : ℤ) → fits_i64 (a +ℤ b) ≡ true → checked_sum_i64 a b ≡ ok (a +ℤ b)
unfolding checked_sum_i64
checked_sum_i64_lem a b h = rw h
