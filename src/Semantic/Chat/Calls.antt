-- ===== src/Semantic/Chat/Calls.antt =====
-- Well-formed tool-call segments, and the size of a merged one.
use buffered_llm_proxy.Base.{
  ◌+◌, ◌≤◌, ◌≡◌, refl, sym, ap, ◌∙◌, [], ◌∷◌, ◌++◌, none, some, arith, Bytes, length, length-append,
  has_prefix-length, inl, inr, Option-cases,
}
use buffered_llm_proxy.Base.Int.{ℤ, int_equal_iff, int_eq}
use buffered_llm_proxy.Base.Map.{lookup, insert, lookup-insert}
use buffered_llm_proxy.Semantic.Chat.{
  ToolCallAccumulator, ToolCallSegment, Calls, call_bytes, calls_bytes, merge_function_name,
  merge_call, merge_one, tool_call_merge,
}
use buffered_llm_proxy.Semantic.Chat.Entries.{
  keys, merge_entries, merge_calls-entries, Distinct, entries_of-keys,
}

-- `Order` lists the indexes of the map, each once.
pub record IsWellFormed (s : ToolCallSegment) : Type 0 where
  pub ordered : s.order ≡ keys s.calls
  pub distinct : Distinct s.calls

-- Such a segment merges into any other, and the loop runs over its whole map.
pub tool_call_merge_lem :
    (s n : ToolCallSegment) → IsWellFormed n → tool_call_merge s n ≡ some (merge_entries s n.calls)
unfolding tool_call_merge
tool_call_merge_lem s n w =
    rw (w.ordered, merge_calls-entries s (keys n.calls) n.calls, entries_of-keys n.calls w.distinct)

pub keys-insert_new :
    (i : ℤ) (c : ToolCallAccumulator) (m : Calls)
    → lookup i m ≡ none
    → keys (insert i c m) ≡ keys m ++ (i ∷ [])
unfolding keys insert lookup
keys-insert_new i c [] h = refl
keys-insert_new i c ((j, d) ∷ m) h = ground (arith, keys-insert_new i c m)

keys-insert_old :
    (i : ℤ) (c x : ToolCallAccumulator) (m : Calls)
    → lookup i m ≡ some x
    → keys (insert i c m) ≡ keys m
unfolding keys insert lookup
keys-insert_old i c x [] h = cc
keys-insert_old i c x ((j, d) ∷ m) h = ground (arith, int_equal_iff j i, keys-insert_old i c x m)

pub insert-Distinct :
    (i : ℤ) (c : ToolCallAccumulator) (m : Calls) → Distinct m → Distinct (insert i c m)
unfolding insert lookup
insert-Distinct i c [] d = ground arith
insert-Distinct i c ((j, x) ∷ m) d =
    ground (
      arith,
      int_equal_iff i j,
      int_equal_iff j i,
      lookup-insert i j c m,
      insert-Distinct i c m d.1,
    )

merge_one-IsWellFormed :
    (s : ToolCallSegment) (i : ℤ) (c : ToolCallAccumulator)
    → IsWellFormed s
    → IsWellFormed (merge_one s i c (lookup i s.calls))
unfolding merge_one
merge_one-IsWellFormed s i c w = elim (Option-cases (lookup i s.calls)) [
  | inl e ↦
      rw (e, merge_one)
        (record {
          ordered = ap (λ o. o ++ (i ∷ [])) w.ordered ∙ sym (keys-insert_new i c s.calls e);
          distinct = insert-Distinct i c s.calls w.distinct;
        })
  | inr (x, e) ↦
      rw (e, merge_one)
        (record {
          ordered = w.ordered ∙ sym (keys-insert_old i (merge_call x c) x s.calls e);
          distinct = insert-Distinct i (merge_call x c) s.calls w.distinct;
        })
]

-- A merged segment is well formed again.
pub merge_entries-IsWellFormed :
    (es : Calls) (s : ToolCallSegment) → IsWellFormed s → IsWellFormed (merge_entries s es)
unfolding merge_entries
merge_entries-IsWellFormed [] s w = w
merge_entries-IsWellFormed ((i, c) ∷ es) s w =
    merge_entries-IsWellFormed es (merge_one s i c (lookup i s.calls))
      (merge_one-IsWellFormed s i c w)

merge_function_name-bounds :
    (old new : Bytes)
    → (length old ≤ length (merge_function_name old new))
      × (length (merge_function_name old new) ≤ length old + length new)
unfolding merge_function_name
merge_function_name-bounds old new =
    ground (arith, has_prefix-length new old, length-append old new)

-- A merged call has at least the bytes of the old one, and no more than both.
merge_call-bounds :
    (x n : ToolCallAccumulator)
    → (call_bytes x ≤ call_bytes (merge_call x n))
      × (call_bytes (merge_call x n) ≤ call_bytes x + call_bytes n)
unfolding merge_call
merge_call-bounds x n = ground (
  arith,
  merge_function_name-bounds x.function_name n.function_name,
  length-append x.arguments n.arguments,
)

calls_bytes-insert_new :
    (i : ℤ) (c : ToolCallAccumulator) (m : Calls)
    → lookup i m ≡ none
    → calls_bytes (insert i c m) ≡ calls_bytes m + call_bytes c
unfolding calls_bytes insert lookup
calls_bytes-insert_new i c [] h = omega arith
calls_bytes-insert_new i c ((j, d) ∷ m) h = ground (arith, calls_bytes-insert_new i c m)

calls_bytes-insert_old :
    (i : ℤ) (c x : ToolCallAccumulator) (m : Calls)
    → lookup i m ≡ some x
    → calls_bytes (insert i c m) + call_bytes x ≡ calls_bytes m + call_bytes c
unfolding calls_bytes insert lookup
calls_bytes-insert_old i c x [] h = cc
calls_bytes-insert_old i c x ((j, d) ∷ m) h = ground (arith, calls_bytes-insert_old i c x m)

merge_one-bounds :
    (s : ToolCallSegment) (i : ℤ) (c : ToolCallAccumulator)
    → let t = merge_one s i c (lookup i s.calls) in
      (calls_bytes s.calls ≤ calls_bytes t.calls)
      × (calls_bytes t.calls ≤ calls_bytes s.calls + call_bytes c)
unfolding merge_one
merge_one-bounds s i c = elim (Option-cases (lookup i s.calls)) [
  | inl e ↦
      rw (e, merge_one) (let h = calls_bytes-insert_new i c s.calls e in (omega arith, omega arith))
  | inr (x, e) ↦
      rw (e, merge_one)
        (let h = calls_bytes-insert_old i (merge_call x c) x s.calls e in
          let b = merge_call-bounds x c in (omega arith, omega arith))
]

pub merge_entries-bounds :
    (es : Calls) (s : ToolCallSegment)
    → (calls_bytes s.calls ≤ calls_bytes (merge_entries s es).calls)
      × (calls_bytes (merge_entries s es).calls ≤ calls_bytes s.calls + calls_bytes es)
unfolding merge_entries calls_bytes
merge_entries-bounds [] s = (omega arith, omega arith)
merge_entries-bounds ((i, c) ∷ es) s =
    let h = merge_one-bounds s i c in
    let ih = merge_entries-bounds es (merge_one s i c (lookup i s.calls)) in
    (omega arith, omega arith)
