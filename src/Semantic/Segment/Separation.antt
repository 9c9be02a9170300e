-- ===== src/Semantic/Segment/Separation.antt =====
-- A barrier in front of a segment stays a barrier while the segment grows.
use buffered_llm_proxy.Base.{
  ◌≡◌, refl, true, false, [], ◌∷◌, Option, none, some, arith, Option-cases, inl, inr,
}
use buffered_llm_proxy.Base.Int.{ℤ, int_equal_iff, int_eq}
use buffered_llm_proxy.Base.Map.{lookup, insert}
use buffered_llm_proxy.Semantic.Chat.{
  ToolCallAccumulator, ToolCallSegment, Calls, reasoning_can_merge, reasoning_merge,
  content_can_merge, content_merge, id_conflict, calls_can_merge, tool_call_can_merge, merge_call,
  merge_one,
}
use buffered_llm_proxy.Semantic.Chat.Entries.{merge_entries, merge_entries-choice_index}
use buffered_llm_proxy.Semantic.Responses.{
  response_text_can_merge, response_text_merge, response_reasoning_can_merge,
  response_reasoning_merge, response_tool_can_merge, response_tool_merge,
}
use buffered_llm_proxy.Semantic.Segment.{
  Segment, reasoning, content, tool_call, role, response_text, response_reasoning, response_tool,
  can_merge,
}
use buffered_llm_proxy.Semantic.Segment.Merging.{
  Merging, reasonings, contents, tool_calls, roles, response_texts, response_reasonings,
  response_tools,
}

module _ (p : Calls) where
  calls_can_merge-insert_new :
      (i : ℤ) (c : ToolCallAccumulator) (m : Calls)
      → lookup i m ≡ none
      → calls_can_merge p m ≡ false
      → calls_can_merge p (insert i c m) ≡ false
  unfolding calls_can_merge insert lookup
  calls_can_merge-insert_new i c [] e h = cc
  calls_can_merge-insert_new i c ((j, d) ∷ m) e h = ground (arith, calls_can_merge-insert_new i c m)

  id_conflict-merge_call :
      (o : Option ToolCallAccumulator) (x c : ToolCallAccumulator)
      → id_conflict o x ≡ true
      → id_conflict o (merge_call x c) ≡ true
  unfolding id_conflict merge_call
  id_conflict-merge_call none x c h = cc
  id_conflict-merge_call (some y) x c h = ground arith

  calls_can_merge-insert_old :
      (i : ℤ) (c x : ToolCallAccumulator) (m : Calls)
      → lookup i m ≡ some x
      → calls_can_merge p m ≡ false
      → calls_can_merge p (insert i (merge_call x c) m) ≡ false
  unfolding calls_can_merge insert lookup
  calls_can_merge-insert_old i c x [] e h = cc
  calls_can_merge-insert_old i c x ((j, d) ∷ m) e h = ground (
    arith,
    int_equal_iff j i,
    id_conflict-merge_call (lookup i p) x c,
    calls_can_merge-insert_old i c x m,
  )

  calls_can_merge-merge_one :
      (s : ToolCallSegment) (i : ℤ) (c : ToolCallAccumulator)
      → calls_can_merge p s.calls ≡ false
      → calls_can_merge p (merge_one s i c (lookup i s.calls)).calls ≡ false
  unfolding merge_one
  calls_can_merge-merge_one s i c h = elim (Option-cases (lookup i s.calls)) [
    | inl e ↦ rw (e, merge_one) (calls_can_merge-insert_new i c s.calls e h)
    | inr (x, e) ↦ rw (e, merge_one) (calls_can_merge-insert_old i c x s.calls e h)
  ]

  calls_can_merge-merge_entries :
      (es : Calls) (s : ToolCallSegment)
      → calls_can_merge p s.calls ≡ false
      → calls_can_merge p (merge_entries s es).calls ≡ false
  unfolding merge_entries
  calls_can_merge-merge_entries [] s h = h
  calls_can_merge-merge_entries ((i, c) ∷ es) s h =
      calls_can_merge-merge_entries es (merge_one s i c (lookup i s.calls))
        (calls_can_merge-merge_one s i c h)

-- What cannot merge with a segment cannot merge with it once others are merged into it.
pub Merging-can_merge :
    {s n t : Segment} (p : Segment) → Merging s n t → can_merge p s ≡ false → can_merge p t ≡ false
unfolding can_merge reasoning_can_merge reasoning_merge content_can_merge content_merge
    tool_call_can_merge response_text_can_merge response_text_merge response_reasoning_can_merge
    response_reasoning_merge response_tool_can_merge response_tool_merge
Merging-can_merge (reasoning p) (reasonings s n h) e = e
Merging-can_merge (content p) (contents s n h) e = e
Merging-can_merge (tool_call p) (tool_calls s n h w) e =
    ground
      (arith, merge_entries-choice_index n.calls s, calls_can_merge-merge_entries p.calls n.calls s)
Merging-can_merge (role p) (roles s n h) e = e
Merging-can_merge (response_text p) (response_texts s n h) e = e
Merging-can_merge (response_reasoning p) (response_reasonings s n h) e = e
Merging-can_merge (response_tool p) (response_tools s n h) e = e
Merging-can_merge _ (reasonings s n h) e = refl
Merging-can_merge _ (contents s n h) e = refl
Merging-can_merge _ (tool_calls s n h w) e = refl
Merging-can_merge _ (roles s n h) e = refl
Merging-can_merge _ (response_texts s n h) e = refl
Merging-can_merge _ (response_reasonings s n h) e = refl
Merging-can_merge _ (response_tools s n h) e = refl
