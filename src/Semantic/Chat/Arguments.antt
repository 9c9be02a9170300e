-- ===== src/Semantic/Chat/Arguments.antt =====
-- The argument bytes of each call under merging, and the identifiers that tell calls apart.
use buffered_llm_proxy.Base.{
  ◌≡◌, refl, sym, ap, ◌∙◌, false, [], ◌∷◌, ◌++◌, append_assoc, append-nil, Option, none, some,
  arith, Bytes, is_empty, if◌then◌else◌, inl, inr, Option-cases,
}
use buffered_llm_proxy.Base.Int.{ℤ, int_equal, int_equal_iff, int_eq}
use buffered_llm_proxy.Base.Map.{lookup, lookup-insert}
use buffered_llm_proxy.Semantic.Chat.{
  ToolCallAccumulator, ToolCallSegment, Calls, merge_call, merge_one,
}
use buffered_llm_proxy.Semantic.Chat.Entries.{merge_entries, Distinct}

abbrev pub arguments_or_nil : Option ToolCallAccumulator → Bytes
arguments_or_nil none = []
arguments_or_nil (some c) = c.arguments

-- The argument bytes of the call at an index; none if there is no such call.
unfoldable pub arguments_of : ℤ → Calls → Bytes
arguments_of i m = arguments_or_nil (lookup i m)

-- All argument bytes that a list of entries brings for an index.
unfoldable pub arguments_in : ℤ → Calls → Bytes
arguments_in i [] = []
arguments_in i ((j, c) ∷ es) =
    if int_equal j i then c.arguments ++ arguments_in i es else arguments_in i es

arguments_in-missing : (i : ℤ) (m : Calls) → lookup i m ≡ none → arguments_in i m ≡ []
unfolding arguments_in lookup
arguments_in-missing i [] h = refl
arguments_in-missing i ((j, c) ∷ m) h = ground (arith, arguments_in-missing i m)

pub arguments_in-Distinct : (i : ℤ) (m : Calls) → Distinct m → arguments_in i m ≡ arguments_of i m
unfolding arguments_in arguments_of lookup
arguments_in-Distinct i [] d = refl
arguments_in-Distinct i ((j, c) ∷ m) d = ground (
  arith,
  int_equal_iff j i,
  arguments_in-missing j m d.0,
  arguments_in-Distinct i m d.1,
  append-nil c.arguments,
)

merge_one-arguments :
    (i j : ℤ) (s : ToolCallSegment) (c : ToolCallAccumulator)
    → arguments_of i (merge_one s j c (lookup j s.calls)).calls
      ≡ arguments_of i s.calls ++ (if int_equal j i then c.arguments else [])
unfolding merge_one arguments_of merge_call
merge_one-arguments i j s c = elim (Option-cases (lookup j s.calls)) [
  | inl e ↦
      rw (e, merge_one)
        (ground (
          arith,
          int_equal_iff j i,
          lookup-insert j i c s.calls,
          append-nil (arguments_of i s.calls),
        ))
  | inr (x, e) ↦
      rw (e, merge_one)
        (ground (
          arith,
          int_equal_iff j i,
          lookup-insert j i (merge_call x c) s.calls,
          append-nil (arguments_of i s.calls),
        ))
]

pub merge_entries-arguments :
    (i : ℤ) (es : Calls) (s : ToolCallSegment)
    → arguments_of i (merge_entries s es).calls ≡ arguments_of i s.calls ++ arguments_in i es
unfolding merge_entries arguments_in
merge_entries-arguments i [] s = sym (append-nil (arguments_of i s.calls))
merge_entries-arguments i ((j, c) ∷ es) s =
    merge_entries-arguments i es (merge_one s j c (lookup j s.calls))
    ∙ rw (merge_one-arguments i j s c) (
        ground (
          arith,
          append_assoc (arguments_of i s.calls) c.arguments (arguments_in i es),
          append-nil (arguments_of i s.calls),
        ))

abbrev id_or_nil : Option ToolCallAccumulator → Bytes
id_or_nil none = []
id_or_nil (some c) = c.id

-- The identifier of the call at an index; empty if there is none.
unfoldable pub id_of : ℤ → Calls → Bytes
id_of i m = id_or_nil (lookup i m)

merge_one-id_of :
    (i j : ℤ) (s : ToolCallSegment) (c : ToolCallAccumulator)
    → is_empty (id_of i s.calls) ≡ false
    → id_of i (merge_one s j c (lookup j s.calls)).calls ≡ id_of i s.calls
unfolding merge_one id_of merge_call
merge_one-id_of i j s c h = elim (Option-cases (lookup j s.calls)) [
  | inl e ↦ rw (e, merge_one) (ground (arith, int_equal_iff j i, lookup-insert j i c s.calls))
  | inr (x, e) ↦
      rw (e, merge_one)
        (ground (arith, int_equal_iff j i, lookup-insert j i (merge_call x c) s.calls))
]

-- Merging never replaces an identifier that is known.
pub merge_entries-id_of :
    (i : ℤ) (es : Calls) (s : ToolCallSegment)
    → is_empty (id_of i s.calls) ≡ false
    → id_of i (merge_entries s es).calls ≡ id_of i s.calls
unfolding merge_entries
merge_entries-id_of i [] s h = refl
merge_entries-id_of i ((j, c) ∷ es) s h =
    let one = merge_one-id_of i j s c h in
    merge_entries-id_of i es (merge_one s j c (lookup j s.calls)) (ap is_empty one ∙ h) ∙ one
