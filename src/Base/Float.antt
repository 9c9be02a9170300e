-- ===== src/Base/Float.antt =====
-- A float64 by its 64 bits: comparison as IEEE 754 defines it.
use Prim.Native.Nat.{ℕ, ◌+◌, ◌-◌, ◌%◌, ◌^◌}
use mathlib.Core.Bool.{Bool, not, ◌&&◌}
use buffered_llm_proxy.Base.Tests.{leb, ltb, if◌then◌else◌}

-- An infinity is the exponent of all ones with fraction 0; a larger magnitude is not a number.
unfoldable pub is_nan : ℕ → Bool
is_nan a = ltb 0x7FF0000000000000 (a % 2 ^ 63)

-- The place of a number in the order of all numbers; both zeros have the same.
unfoldable pub rank : ℕ → ℕ
rank a = if leb (2 ^ 63) a then 2 ^ 63 - a % 2 ^ 63 else 2 ^ 63 + a

-- `a < b` and `a <= b`
unfoldable pub float_lt : ℕ → ℕ → Bool
unfolding is_nan rank
float_lt a b = not (is_nan a) && not (is_nan b) && ltb (rank a) (rank b)

unfoldable pub float_le : ℕ → ℕ → Bool
unfolding is_nan rank
float_le a b = not (is_nan a) && not (is_nan b) && leb (rank a) (rank b)

abbrev pub float_zero : ℕ
float_zero = 0

abbrev pub float_one : ℕ
float_one = 0x3FF0000000000000
