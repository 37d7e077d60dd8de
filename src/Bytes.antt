-- ===== src/Bytes.antt =====
-- The bytes of fixed-width integers on a little-endian machine, `__builtin_bswap16`, `32` and
-- `64`, and the sign of two's complement patterns.
pub mod Order
use mosss.Common.{
  ℕ, zero, suc, ◌+◌, ◌-◌, ◌*◌, ◌/◌, ◌%◌, ◌^◌, ◌<◌, Bool, List, [], ◌∷◌, ltb, if◌then◌else◌,
}
use mathlib.Core.List.{reverse}

-- The `n` bytes of `x` in memory, lowest first.
unfoldable pub le_bytes : ℕ → ℕ → List ℕ
le_bytes zero x = []
le_bytes (suc n) x = (x % 256) ∷ le_bytes n (x / 256)

-- The value that such bytes have when they are read as one integer.
unfoldable pub from_le : List ℕ → ℕ
from_le [] = 0
from_le (x ∷ xs) = x + 256 * from_le xs

-- The integer with its `n` bytes in the reverse order.
unfoldable pub bswap : ℕ → ℕ → ℕ
unfolding le_bytes from_le
bswap n x = from_le (reverse (le_bytes n x))

-- An `int32_t` is its bit pattern, below 2 ^ 32.
abbrev pub is_negative_32 : ℕ → Bool
is_negative_32 x = ltb (2 ^ 31 - 1) x

-- `x >> 7` on an `int32_t` and on an `int64_t`: the sign bit comes in from the left.
unfoldable pub sar7_32 : ℕ → ℕ
sar7_32 x = if ltb (2 ^ 31 - 1) x then x / 128 + (2 ^ 32 - 2 ^ 25) else x / 128

unfoldable pub sar7_64 : ℕ → ℕ
sar7_64 x = if ltb (2 ^ 63 - 1) x then x / 128 + (2 ^ 64 - 2 ^ 57) else x / 128

-- An `int32_t` converted to `size_t`.
unfoldable pub sign_extend : ℕ → ℕ
sign_extend x = if ltb (2 ^ 31 - 1) x then x + (2 ^ 64 - 2 ^ 32) else x
