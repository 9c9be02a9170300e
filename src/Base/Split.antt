-- ===== src/Base/Split.antt =====
-- `strings.Split` and `strings.IndexByte`, at one byte.
use Prim.Native.Nat.{ℕ}
use mathlib.Core.Bool.{Bool, false, ◌||◌}
use mathlib.Core.List.{List, [], ◌∷◌, ◌++◌}
use mathlib.Core.Option.{Option, none, some}
use buffered_llm_proxy.Base.Strings.{Bytes, has_prefix, is_empty}
use buffered_llm_proxy.Base.Tests.{◌==◌, if◌then◌else◌}

abbrev onto_first : ℕ → List Bytes → List Bytes
onto_first c [] = (c ∷ []) ∷ []
onto_first c (part ∷ parts) = (c ∷ part) ∷ parts

-- `strings.Split(s, string(at))`
unfoldable pub split : ℕ → Bytes → List Bytes
split at [] = [] ∷ []
split at (c ∷ s) = let parts = split at s in if c == at then [] ∷ parts else onto_first c parts

-- `s[:i]` and `s[i+1:]` for the first index `i` of the byte; `none` if there is none.
unfoldable pub cut_at : ℕ → Bytes → Option (Bytes × Bytes)
cut_at at [] = none
cut_at at (c ∷ s) =
    if c == at
    then some ([], s)
    else elim (cut_at at s) [ none ↦ none | some (before, after) ↦ some (c ∷ before, after) ]

-- The same at the last index.
unfoldable pub cut_last : ℕ → Bytes → Option (Bytes × Bytes)
cut_last at [] = none
cut_last at (c ∷ s) = elim (cut_last at s) [
  | some (before, after) ↦ some (c ∷ before, after)
  | none ↦ if c == at then some ([], s) else none
]

-- `strings.Contains(s, sub)`
unfoldable pub contains : Bytes → Bytes → Bool
unfolding has_prefix
contains sub [] = is_empty sub
contains sub (c ∷ s) = has_prefix (c ∷ s) sub || contains sub s

-- `strings.Contains(s, string(at))`
unfoldable pub has_byte : ℕ → Bytes → Bool
has_byte at [] = false
has_byte at (c ∷ s) = c == at || has_byte at s

-- `strings.Join(parts, sep)`
unfoldable pub join : Bytes → List Bytes → Bytes
join sep [] = []
join sep (part ∷ []) = part
join sep (part ∷ next ∷ parts) = part ++ sep ++ join sep (next ∷ parts)
