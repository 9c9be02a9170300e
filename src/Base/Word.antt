-- ===== src/Base/Word.antt =====
-- Go's int64 as its 64 bits, a number below 2 ^ 64: addition wraps, comparison is signed.
use Prim.Native.Nat.{ℕ, ◌+◌, ◌%◌, ◌^◌, ◌<◌, ◌≤◌}
use mathlib.Core.Path.{◌≡◌}
use mathlib.Core.Bool.{Bool, true}
use mathlib.Core.Logic.{◌↔◌}
use native.Mathlib.Omega.{arith}
use buffered_llm_proxy.Base.Tests.{leb}

unfoldable pub add64 : ℕ → ℕ → ℕ
add64 a b = (a + b) % 2 ^ 64

-- `a <= b`, signed: shifted by 2 ^ 63 both are compared as unsigned numbers.
unfoldable pub signed_le : ℕ → ℕ → Bool
signed_le a b = leb ((a + 2 ^ 63) % 2 ^ 64) ((b + 2 ^ 63) % 2 ^ 64)

pub add64-lt : (a b : ℕ) → add64 a b < 2 ^ 64
unfolding add64
add64-lt a b = omega arith

pub add64-small : (a b : ℕ) → a + b < 2 ^ 64 → add64 a b ≡ a + b
unfolding add64
add64-small a b h = omega arith

-- On values that are not negative the signed order is the order of numbers.
pub signed_le_iff : (a b : ℕ) → a < 2 ^ 63 → b < 2 ^ 63 → (signed_le a b ≡ true) ↔ (a ≤ b)
unfolding signed_le
signed_le_iff a b h k = ground arith
