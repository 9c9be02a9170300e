-- ===== src/Semantic/Chat/Entries.antt =====
-- The merge loop of tool calls without its lookups: the calls that `Order` names, in that order,
-- merged one by one.
use buffered_llm_proxy.Base.{
  ◌≡◌, ◌∙◌, refl, List, [], ◌∷◌, Option, none, some, arith, Option-cases, inl, inr,
}
use buffered_llm_proxy.Base.Int.{ℤ, int_equal_iff, int_eq}
use buffered_llm_proxy.Base.Map.{lookup}
use buffered_llm_proxy.Semantic.Chat.{
  ToolCallAccumulator, ToolCallSegment, Calls, merge_one, merge_calls,
}

unfoldable pub keys : Calls → List ℤ
keys [] = []
keys ((i, _) ∷ cs) = i ∷ keys cs

-- The calls that a list of indexes names; `none` if one is missing.
unfoldable pub entries_of : List ℤ → Calls → Option Calls
entries_of [] calls = some []
entries_of (i ∷ is) calls = elim (lookup i calls) [
  | none ↦ none
  | some c ↦ elim (entries_of is calls) [ none ↦ none | some es ↦ some ((i, c) ∷ es) ]
]

unfoldable pub merge_entries : ToolCallSegment → Calls → ToolCallSegment
merge_entries s [] = s
merge_entries s ((i, c) ∷ es) = merge_entries (merge_one s i c (lookup i s.calls)) es

abbrev pub merged_with : ToolCallSegment → Option Calls → Option ToolCallSegment
merged_with s none = none
merged_with s (some es) = some (merge_entries s es)

pub merge_calls-entries :
    (s : ToolCallSegment) (order : List ℤ) (calls : Calls)
    → merge_calls s order calls ≡ merged_with s (entries_of order calls)
unfolding merge_calls entries_of merge_entries
merge_calls-entries s [] calls = refl
merge_calls-entries s (i ∷ is) calls = elim (Option-cases (lookup i calls)) [
  | inl e ↦ rw (e, merge_calls, entries_of) refl
  | inr (c, e) ↦
      rw (e, merge_calls, entries_of)
        (ground (arith, merge_calls-entries (merge_one s i c (lookup i s.calls)) is calls))
]

-- No index has two entries.
abbrev pub Distinct : Calls → Type 0
Distinct [] = Unit {0}
Distinct ((i, _) ∷ m) = (lookup i m ≡ none) × Distinct m

abbrev Agrees : Calls → Calls → Type 0
Agrees [] m = Unit {0}
Agrees ((i, c) ∷ es) m = (lookup i m ≡ some c) × Agrees es m

Agrees-cons :
    (es m : Calls) (i : ℤ) (c : ToolCallAccumulator)
    → lookup i es ≡ none
    → Agrees es m
    → Agrees es ((i, c) ∷ m)
unfolding lookup
Agrees-cons [] m i c h a = tt
Agrees-cons ((j, d) ∷ es) m i c h a =
    ground (arith, int_equal_iff i j, int_equal_iff j i, Agrees-cons es m i c)

Agrees-refl : (m : Calls) → Distinct m → Agrees m m
unfolding lookup
Agrees-refl [] d = tt
Agrees-refl ((i, c) ∷ m) d =
    ground (arith, int_equal_iff i i, Agrees-cons m m i c d.0 (Agrees-refl m d.1))

entries_of-Agrees : (es m : Calls) → Agrees es m → entries_of (keys es) m ≡ some es
unfolding entries_of keys
entries_of-Agrees [] m a = refl
entries_of-Agrees ((i, c) ∷ es) m a = ground (arith, entries_of-Agrees es m a.1)

-- In a map with one entry for each index, the keys name the whole map.
pub entries_of-keys : (m : Calls) → Distinct m → entries_of (keys m) m ≡ some m
entries_of-keys m d = entries_of-Agrees m m (Agrees-refl m d)

merge_one-choice_index :
    (s : ToolCallSegment) (i : ℤ) (c : ToolCallAccumulator) (x : Option ToolCallAccumulator)
    → (merge_one s i c x).choice_index ≡ s.choice_index
unfolding merge_one
merge_one-choice_index s i c none = refl
merge_one-choice_index s i c (some x) = refl

pub merge_entries-choice_index :
    (es : Calls) (s : ToolCallSegment) → (merge_entries s es).choice_index ≡ s.choice_index
unfolding merge_entries
merge_entries-choice_index [] s = refl
merge_entries-choice_index ((i, c) ∷ es) s =
    merge_entries-choice_index es (merge_one s i c (lookup i s.calls))
    ∙ merge_one-choice_index s i c (lookup i s.calls)
