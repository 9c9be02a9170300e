-- ===== src/Base/Int.antt =====
-- Go's signed `int` and `int64` where a value may be negative, over the native numbers.
use Prim.Native.Nat.{ℕ, zero, suc, ◌-◌, ◌*◌, ◌/◌, ◌%◌, ◌^◌, ◌≤◌, ◌<◌}
use mathlib.Core.Path.{◌≡◌, refl}
use mathlib.Core.Logic.{◌↔◌, inl, inr}
use mathlib.Core.Bool.{Bool, true, false}
use native.Mathlib.Omega.{arith}
use buffered_llm_proxy.Base.Tests.{◌==◌, leb, Bool-cases, if◌then◌else◌, Eq}

-- `negsuc n` is -(n + 1).
pub data ℤ : Type 0 where
  pos : ℕ → ℤ
  negsuc : ℕ → ℤ

unfoldable pub int_equal : ℤ → ℤ → Bool
int_equal (pos a) (pos b) = a == b
int_equal (negsuc a) (negsuc b) = a == b
int_equal _ _ = false

pub int_equal_iff : (a b : ℤ) → (int_equal a b ≡ true) ↔ (a ≡ b)
unfolding int_equal
int_equal_iff (pos a) (pos b) = ground arith
int_equal_iff _ _ = ground arith

instance abbrev pub int_eq : Eq ℤ
int_eq = record { beq = int_equal; beq_iff = int_equal_iff }

-- The value of 64 bits.
abbrev pub of_bits : ℕ → ℤ
of_bits n = if leb (2 ^ 63) n then negsuc (2 ^ 64 - 1 - n) else pos n

-- `a * k` for an `int64` and a constant, which wraps.
unfoldable pub mul64 : ℤ → ℕ → ℤ
mul64 (pos a) k = of_bits (a * k % 2 ^ 64)
mul64 (negsuc a) k = of_bits ((2 ^ 64 - (suc a * k) % 2 ^ 64) % 2 ^ 64)

abbrev neg : ℕ → ℤ
neg zero = pos 0
neg (suc n) = negsuc n

-- `a / k` for a positive constant, towards 0.
unfoldable pub quotient : ℤ → ℕ → ℤ
quotient (pos a) k = pos (a / k)
quotient (negsuc a) k = neg (suc a / k)

-- `a <= b`
abbrev pub int_le : ℤ → ℤ → Bool
int_le (pos a) (pos b) = leb a b
int_le (pos a) (negsuc b) = false
int_le (negsuc a) (pos b) = true
int_le (negsuc a) (negsuc b) = leb b a

pub mul64-small : (a k : ℕ) → a * k < 2 ^ 63 → mul64 (pos a) k ≡ pos (a * k)
unfolding mul64
mul64-small a k h = ground (arith, h)

int_le-neg : (n m : ℕ) → 1 ≤ n → int_le (pos n) (neg m) ≡ false
int_le-neg n zero h = ground (arith, h)
int_le-neg n (suc m) h = refl

-- Three quarters are less, even where the multiplication wraps.
pub quotient-mul64 : (n : ℕ) → 1 ≤ n → int_le (pos n) (quotient (mul64 (pos n) 3) 4) ≡ false
unfolding mul64 quotient
quotient-mul64 n h =
    let v = n * 3 % 2 ^ 64 in
    elim (Bool-cases (leb (2 ^ 63) v)) [
      | inl t ↦ rw t (int_le-neg n (suc (2 ^ 64 - 1 - v) / 4) h)
      | inr f ↦ rw f (ground (arith, h))
    ]
