-- ===== src/Base/Lower.antt =====
-- `strings.ToLower`, where its result is compared with ASCII text. ASCII letters are mapped, and so
-- are the two other letters whose lower case is ASCII: U+0130 and U+212A. Every other letter beyond
-- ASCII has a lower case beyond ASCII, so to leave it alone changes no such comparison.
use Prim.Native.Nat.{ℕ, ◌+◌}
use mathlib.Core.List.{[], ◌∷◌}
use mathlib.Core.Bool.{◌&&◌}
use buffered_llm_proxy.Base.Strings.{Bytes}
use buffered_llm_proxy.Base.Tests.{◌==◌, leb, if◌then◌else◌}

abbrev pub lower : ℕ → ℕ
lower c = if leb b'A' c && leb c b'Z' then c + 32 else c

unfoldable pub to_lower : Bytes → Bytes
to_lower [] = []
to_lower (a ∷ []) = lower a ∷ []
to_lower (a ∷ b ∷ []) =
    let rest = to_lower (b ∷ []) in if a == 0xC4 && b == 0xB0 then b'i' ∷ [] else lower a ∷ rest
to_lower (a ∷ b ∷ c ∷ s) =
    let rest = to_lower (b ∷ c ∷ s) in
    let after_two = b'i' ∷ to_lower (c ∷ s) in
    let after_three = b'k' ∷ to_lower s in
    if a == 0xC4 && b == 0xB0
    then after_two
    else if a == 0xE2 && b == 0x84 && c == 0xAA
    then after_three
    else lower a ∷ rest
