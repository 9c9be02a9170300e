-- ===== src/Semantic/Segment/Merging.antt =====
-- `Merge` on two segments that can merge, as a relation with a case for each kind.
use buffered_llm_proxy.Base.{◌≡◌, ◌⊎◌, refl, sym, ap, ◌∙◌, true, some, arith, Bool-cases, inl, inr}
use buffered_llm_proxy.Semantic.Chat.{
  ReasoningSegment, ContentSegment, ToolCallSegment, RoleSegment, reasoning_can_merge,
  reasoning_merge, content_can_merge, content_merge, tool_call_can_merge, role_can_merge,
}
use buffered_llm_proxy.Semantic.Chat.Calls
use buffered_llm_proxy.Semantic.Chat.Calls.{tool_call_merge_lem}
use buffered_llm_proxy.Semantic.Chat.Entries.{merge_entries}
use buffered_llm_proxy.Semantic.Responses.{
  ResponseTextDeltaSegment, ResponseReasoningDeltaSegment, ResponseToolCallDeltaSegment,
  response_text_can_merge, response_text_merge, response_reasoning_can_merge,
  response_reasoning_merge, response_tool_can_merge, response_tool_merge,
}
use buffered_llm_proxy.Semantic.Segment.{
  Segment, reasoning, content, tool_call, role, response_text, response_reasoning, response_tool,
  can_merge, merge_into, merge,
}

-- Tool calls list the indexes of their map, each once; other segments have no such condition.
abbrev pub IsWellFormed : Segment → Type 0
IsWellFormed (tool_call s) = Calls.IsWellFormed s
IsWellFormed _ = Unit {0}

pub data Merging : Segment → Segment → Segment → Type 0 where
  reasonings :
      (s n : ReasoningSegment)
      → reasoning_can_merge s n ≡ true
      → Merging (reasoning s) (reasoning n) (reasoning (reasoning_merge s n))
  contents :
      (s n : ContentSegment)
      → content_can_merge s n ≡ true
      → Merging (content s) (content n) (content (content_merge s n))
  tool_calls :
      (s n : ToolCallSegment)
      → tool_call_can_merge s n ≡ true
      → Calls.IsWellFormed n
      → Merging (tool_call s) (tool_call n) (tool_call (merge_entries s n.calls))
  roles : (s n : RoleSegment) → role_can_merge s n ≡ true → Merging (role s) (role n) (role s)
  response_texts :
      (s n : ResponseTextDeltaSegment)
      → response_text_can_merge s n ≡ true
      → Merging (response_text s) (response_text n) (response_text (response_text_merge s n))
  response_reasonings :
      (s n : ResponseReasoningDeltaSegment)
      → response_reasoning_can_merge s n ≡ true
      → Merging
          (response_reasoning s)
          (response_reasoning n)
          (response_reasoning (response_reasoning_merge s n))
  response_tools :
      (s n : ResponseToolCallDeltaSegment)
      → response_tool_can_merge s n ≡ true
      → Merging (response_tool s) (response_tool n) (response_tool (response_tool_merge s n))

-- Two segments that can merge have a merged segment, and `Merge` returns it.
pub merge-Merging :
    (s n : Segment)
    → IsWellFormed n
    → can_merge s n ≡ true
    → (t : Segment) × (merge s n ≡ some (t, true)) × Merging s n t
unfolding can_merge merge merge_into
merge-Merging (reasoning s) (reasoning n) w h = (_, rw h, reasonings s n h)
merge-Merging (content s) (content n) w h = (_, rw h, contents s n h)
merge-Merging (tool_call s) (tool_call n) w h =
    (_, ground (arith, tool_call_merge_lem s n w), tool_calls s n h w)
merge-Merging (role s) (role n) w h = (_, rw h, roles s n h)
merge-Merging (response_text s) (response_text n) w h = (_, rw h, response_texts s n h)
merge-Merging (response_reasoning s) (response_reasoning n) w h =
    (_, rw h, response_reasonings s n h)
merge-Merging (response_tool s) (response_tool n) w h = (_, rw h, response_tools s n h)
merge-Merging _ _ w h = cc

-- `Merge` never panics on a well-formed argument: it returns what `CanMerge` says, and leaves the
-- receiver alone unless they merge.
pub merge-can_merge :
    (s n : Segment)
    → IsWellFormed n
    → (t : Segment) × (merge s n ≡ some (t, can_merge s n)) × ((can_merge s n ≡ true) ⊎ (t ≡ s))
unfolding merge
merge-can_merge s n w = elim (Bool-cases (can_merge s n)) [
  | inl h ↦ let (t, e, _) = merge-Merging s n w h in (t, e ∙ ap (λ b. some (t, b)) (sym h), inl h)
  | inr h ↦ (s, rw (h, merge) refl, inr refl)
]
