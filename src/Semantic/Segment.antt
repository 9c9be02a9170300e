-- ===== src/Semantic/Segment.antt =====
-- The `Segment` interface of pkg/semantic/types.go: one constructor for each implementation, and
-- the methods by dispatch on it.
pub mod Merging
pub mod Growth
pub mod Channels
pub mod Coalescing
pub mod Separation
use buffered_llm_proxy.Base.{
  ℕ, ◌+◌, Bool, true, false, not, Option, none, some, length, if◌then◌else◌,
}
use buffered_llm_proxy.Semantic.Types.{
  EventType, event_unknown, event_role, event_reasoning, event_content, event_tool_call,
  event_finish, event_usage, event_error, event_done, is_nil,
}
use buffered_llm_proxy.Semantic.Chat.{
  ReasoningSegment, ContentSegment, ToolCallSegment, RoleSegment, FinishSegment, UsageSegment,
  RawSegment, reasoning_can_merge, reasoning_merge, content_can_merge, content_merge,
  tool_call_bytes_len, tool_call_can_merge, tool_call_merge, role_can_merge,
}
use buffered_llm_proxy.Semantic.Responses.{
  ResponseTextDeltaSegment, ResponseReasoningDeltaSegment, ResponseToolCallDeltaSegment,
  ResponseControlSegment, response_text_can_merge, response_text_merge,
  response_reasoning_can_merge, response_reasoning_merge, response_tool_can_merge,
  response_tool_merge,
}

pub data Segment : Type 0 where
  reasoning : ReasoningSegment → Segment
  content : ContentSegment → Segment
  tool_call : ToolCallSegment → Segment
  role : RoleSegment → Segment
  finish : FinishSegment → Segment
  usage : UsageSegment → Segment
  raw : RawSegment → Segment
  response_text : ResponseTextDeltaSegment → Segment
  response_reasoning : ResponseReasoningDeltaSegment → Segment
  response_tool : ResponseToolCallDeltaSegment → Segment
  response_control : ResponseControlSegment → Segment

unfoldable pub control_type : ResponseControlSegment → EventType
control_type s =
    if s.is_done
    then event_done
    else if s.is_error
    then event_error
    else if not (is_nil s.usage)
    then event_usage
    else event_unknown

-- `Type()`
unfoldable pub event_type : Segment → EventType
unfolding control_type
event_type (reasoning _) = event_reasoning
event_type (content _) = event_content
event_type (tool_call _) = event_tool_call
event_type (role _) = event_role
event_type (finish _) = event_finish
event_type (usage _) = event_usage
event_type (raw s) = s.segment_type
event_type (response_text _) = event_content
event_type (response_reasoning _) = event_reasoning
event_type (response_tool _) = event_tool_call
event_type (response_control s) = control_type s

-- `BytesLen()`
unfoldable pub bytes_len : Segment → ℕ
bytes_len (reasoning s) = length s.text + 64
bytes_len (content s) = length s.text + 64
bytes_len (tool_call s) = tool_call_bytes_len s
bytes_len (role s) = length s.role + 64
bytes_len (finish s) = length s.finish_reason + 64
bytes_len (usage _) = 128
bytes_len (raw s) = length s.raw_data
bytes_len (response_text s) = length s.delta + 128
bytes_len (response_reasoning s) = length s.delta + 128
bytes_len (response_tool s) = length s.delta + 128
bytes_len (response_control s) = length s.raw_data + length s.event_type + length s.id + 32

-- `CanMerge(next)`: the type assertion fails on every pair of two kinds.
unfoldable pub can_merge : Segment → Segment → Bool
can_merge (reasoning s) (reasoning n) = reasoning_can_merge s n
can_merge (content s) (content n) = content_can_merge s n
can_merge (tool_call s) (tool_call n) = tool_call_can_merge s n
can_merge (role s) (role n) = role_can_merge s n
can_merge (response_text s) (response_text n) = response_text_can_merge s n
can_merge (response_reasoning s) (response_reasoning n) = response_reasoning_can_merge s n
can_merge (response_tool s) (response_tool n) = response_tool_can_merge s n
can_merge _ _ = false

-- The part of `Merge` behind its guard, for two segments that can merge.
unfoldable pub merge_into : Segment → Segment → Option Segment
merge_into (reasoning s) (reasoning n) = some (reasoning (reasoning_merge s n))
merge_into (content s) (content n) = some (content (content_merge s n))
merge_into (tool_call s) (tool_call n) = elim (tool_call_merge s n) [
  | none ↦ none
  | some t ↦ some (tool_call t)
]
merge_into (response_text s) (response_text n) = some (response_text (response_text_merge s n))
merge_into (response_reasoning s) (response_reasoning n) =
    some (response_reasoning (response_reasoning_merge s n))
merge_into (response_tool s) (response_tool n) = some (response_tool (response_tool_merge s n))
merge_into s _ = some s

-- `Merge(next)`: the receiver afterwards and the returned flag. `none` is a panic.
unfoldable pub merge : Segment → Segment → Option (Segment × Bool)
merge s n =
    if can_merge s n
    then elim (merge_into s n) [ none ↦ none | some t ↦ some (t, true) ]
    else some (s, false)
