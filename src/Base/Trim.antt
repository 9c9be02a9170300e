-- ===== src/Base/Trim.antt =====
-- `strings.TrimSpace` and `bytes.TrimSpace`: white space as Unicode defines it, in UTF-8.
use Prim.Native.Nat.{ℕ, zero, suc}
use mathlib.Core.Bool.{Bool, ◌&&◌, ◌||◌}
use mathlib.Core.List.{[], ◌∷◌, reverse}
use mathlib.Core.Option.{Option, none, some}
use buffered_llm_proxy.Base.Strings.{Bytes, length}
use buffered_llm_proxy.Base.Tests.{◌==◌, leb, if◌then◌else◌}

-- Tab, line feed, vertical tab, form feed, carriage return, space.
abbrev is_ascii_space : ℕ → Bool
is_ascii_space c = leb 9 c && leb c 13 || c == 32

-- U+0085 and U+00A0.
abbrev is_space_2 : ℕ → ℕ → Bool
is_space_2 a b = a == 0xC2 && (b == 0x85 || b == 0xA0)

-- U+1680, U+2000 to U+200A, U+2028, U+2029, U+202F, U+205F, U+3000.
abbrev is_space_3 : ℕ → ℕ → ℕ → Bool
is_space_3 a b c =
    a == 0xE1 && b == 0x9A && c == 0x80
    || a == 0xE2 && b == 0x80 && (leb 0x80 c && leb c 0x8A || c == 0xA8 || c == 0xA9 || c == 0xAF)
    || a == 0xE2 && b == 0x81 && c == 0x9F
    || a == 0xE3 && b == 0x80 && c == 0x80

-- The text behind one leading space; `none` if it begins with none.
unfoldable pub after_space : Bytes → Option Bytes
after_space [] = none
after_space (a ∷ []) = if is_ascii_space a then some [] else none
after_space (a ∷ b ∷ []) =
    if is_ascii_space a then some (b ∷ []) else if is_space_2 a b then some [] else none
after_space (a ∷ b ∷ c ∷ s) =
    if is_ascii_space a
    then some (b ∷ c ∷ s)
    else if is_space_2 a b
    then some (c ∷ s)
    else if is_space_3 a b c
    then some s
    else none

-- The reversed text behind one trailing space.
unfoldable pub before_space : Bytes → Option Bytes
before_space [] = none
before_space (a ∷ []) = if is_ascii_space a then some [] else none
before_space (b ∷ a ∷ []) =
    if is_ascii_space b then some (a ∷ []) else if is_space_2 a b then some [] else none
before_space (c ∷ b ∷ a ∷ s) =
    if is_ascii_space c
    then some (b ∷ a ∷ s)
    else if is_space_2 b c
    then some (a ∷ s)
    else if is_space_3 a b c
    then some s
    else none

-- Each round drops at least one byte, so the length of the text is fuel enough.
unfoldable pub strip : ℕ → (Bytes → Option Bytes) → Bytes → Bytes
strip zero f s = s
strip (suc fuel) f s = elim (f s) [ none ↦ s | some t ↦ strip fuel f t ]

unfoldable pub trim_space : Bytes → Bytes
unfolding strip after_space before_space
trim_space s =
    let left = strip (length s) after_space s in
    reverse (strip (length left) before_space (reverse left))
