-- ===== src/Semantic/Segment/Channels.antt =====
-- The text that a segment carries on each of the client's channels, and that merging joins it.
use buffered_llm_proxy.Base.{
  ◌≡◌, refl, Bool, true, ◌&&◌, [], ◌++◌, Option, none, some, arith, Bytes, equal, equal_iff,
  if◌then◌else◌,
}
use buffered_llm_proxy.Base.Int.{ℤ, int_equal, int_equal_iff}
use buffered_llm_proxy.Semantic.Chat.{
  reasoning_can_merge, reasoning_merge, content_can_merge, content_merge, tool_call_can_merge,
}
use buffered_llm_proxy.Semantic.Chat.Arguments.{
  arguments_of, arguments_in-Distinct, merge_entries-arguments,
}
use buffered_llm_proxy.Semantic.Responses.{
  same_index, response_text_can_merge, response_text_merge, response_reasoning_can_merge,
  response_reasoning_merge, response_tool_can_merge, response_tool_merge,
}
use buffered_llm_proxy.Semantic.Chat.Entries.{merge_entries-choice_index}
use buffered_llm_proxy.Semantic.Segment.{
  Segment, reasoning, content, tool_call, response_text, response_reasoning, response_tool,
  can_merge, merge,
}
use buffered_llm_proxy.Semantic.Segment.Merging.{
  IsWellFormed, Merging, merge-Merging, reasonings, contents, tool_calls, response_texts,
  response_reasonings, response_tools,
}

-- Where a client collects text: a field of a choice, the arguments of one tool call, or a part of
-- a Responses item.
pub data Channel : Type 0 where
  on_reasoning : ℤ → Bytes → Channel
  on_content : ℤ → Channel
  on_tool_call : ℤ → ℤ → Channel
  on_response_text : Bytes → Bytes → ℤ → ℤ → Channel
  on_response_reasoning : Bytes → Bytes → ℤ → Option ℤ → Option ℤ → Channel
  on_response_tool : Bytes → Bytes → ℤ → Channel

abbrev when : Bool → Bytes → Bytes
when b t = if b then t else []

unfoldable pub text_on : Channel → Segment → Bytes
text_on (on_reasoning i f) (reasoning s) =
    when (int_equal i s.choice_index && equal f s.field_name) s.text
text_on (on_content i) (content s) = when (int_equal i s.choice_index) s.text
text_on (on_tool_call i k) (tool_call s) =
    when (int_equal i s.choice_index) (arguments_of k s.calls)
text_on (on_response_text e item o c) (response_text s) =
    when
      (equal e s.event_type
        && (equal item s.item_id && (int_equal o s.output_index && int_equal c s.content_index)))
      s.delta
text_on (on_response_reasoning e item o u c) (response_reasoning s) =
    when
      (equal e s.event_type
        && (equal item s.item_id
            && (int_equal o s.output_index
                && (same_index u s.summary_index && same_index c s.content_index))))
      s.delta
text_on (on_response_tool e item o) (response_tool s) =
    when (equal e s.event_type && (equal item s.item_id && int_equal o s.output_index)) s.delta
text_on _ _ = []

same_index-eq : (a b : Option ℤ) → same_index a b ≡ true → a ≡ b
unfolding same_index
same_index-eq none none h = refl
same_index-eq (some a) (some b) h = ground (arith, int_equal_iff a b)
same_index-eq _ _ h = cc

-- On every channel the merged segment carries the text of the first and then that of the second.
pub Merging-text_on :
    {s n t : Segment} (c : Channel) → Merging s n t → text_on c t ≡ text_on c s ++ text_on c n
unfolding text_on reasoning_can_merge reasoning_merge content_can_merge content_merge
    tool_call_can_merge response_text_can_merge response_text_merge response_reasoning_can_merge
    response_reasoning_merge response_tool_can_merge response_tool_merge
Merging-text_on (on_reasoning i f) (reasonings s n h) =
    ground (arith, int_equal_iff s.choice_index n.choice_index, equal_iff s.field_name n.field_name)
Merging-text_on (on_content i) (contents s n h) =
    ground (arith, int_equal_iff s.choice_index n.choice_index)
Merging-text_on (on_tool_call i k) (tool_calls s n h w) = ground (
  arith,
  int_equal_iff s.choice_index n.choice_index,
  merge_entries-choice_index n.calls s,
  merge_entries-arguments k n.calls s,
  arguments_in-Distinct k n.calls w.distinct,
)
Merging-text_on (on_response_text e item o c) (response_texts s n h) = ground (
  arith,
  equal_iff s.event_type n.event_type,
  equal_iff s.item_id n.item_id,
  int_equal_iff s.output_index n.output_index,
  int_equal_iff s.content_index n.content_index,
)
Merging-text_on (on_response_reasoning e item o u c) (response_reasonings s n h) = ground (
  arith,
  equal_iff s.event_type n.event_type,
  equal_iff s.item_id n.item_id,
  int_equal_iff s.output_index n.output_index,
  same_index-eq s.summary_index n.summary_index,
  same_index-eq s.content_index n.content_index,
)
Merging-text_on (on_response_tool e item o) (response_tools s n h) = ground (
  arith,
  equal_iff s.event_type n.event_type,
  equal_iff s.item_id n.item_id,
  int_equal_iff s.output_index n.output_index,
)
Merging-text_on _ _ = refl

-- Merging is lossless: on every channel a client reads from the merged segment the text of the two
-- segments, in their order.
pub merge-text_on :
    (s n : Segment)
    → IsWellFormed n
    → can_merge s n ≡ true
    → (t : Segment) × (merge s n ≡ some (t, true))
      × ((c : Channel) → text_on c t ≡ text_on c s ++ text_on c n)
merge-text_on s n w h = let (t, e, m) = merge-Merging s n w h in (t, e, λ c. Merging-text_on c m)
