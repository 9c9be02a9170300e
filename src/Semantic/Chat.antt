-- ===== src/Semantic/Chat.antt =====
-- pkg/semantic/segments.go, lines 1 to 229: the segments of Chat Completions. A method that changes
-- its receiver returns the new receiver. `none` is a panic: a nil entry of `Calls`.
pub mod Entries
pub mod Calls
pub mod Arguments
use buffered_llm_proxy.Base.{
  ℕ, ◌+◌, Bool, true, false, not, ◌&&◌, List, [], ◌∷◌, ◌++◌, Option, none, some, Bytes, length,
  equal, is_empty, has_prefix, if◌then◌else◌,
}
use buffered_llm_proxy.Base.Int.{ℤ, int_equal, int_eq}
use buffered_llm_proxy.Base.Map.{lookup, insert}
use buffered_llm_proxy.Semantic.Types.{CommonMetadata, EventType, Value}

pub record ReasoningSegment : Type 0 where
  pub choice_index : ℤ
  pub field_name : Bytes
  pub text : Bytes
  pub metadata : CommonMetadata

pub record ContentSegment : Type 0 where
  pub choice_index : ℤ
  pub text : Bytes
  pub metadata : CommonMetadata

pub record ToolCallAccumulator : Type 0 where
  pub index : ℤ
  pub id : Bytes
  pub type : Bytes
  pub function_name : Bytes
  pub arguments : Bytes

abbrev pub Calls : Type 0
Calls = List (ℤ × ToolCallAccumulator)

pub record ToolCallSegment : Type 0 where
  pub choice_index : ℤ
  pub order : List ℤ
  pub calls : Calls
  pub metadata : CommonMetadata

pub record RoleSegment : Type 0 where
  pub choice_index : ℤ
  pub role : Bytes
  pub metadata : CommonMetadata

pub record FinishSegment : Type 0 where
  pub choice_index : ℤ
  pub finish_reason : Bytes
  pub usage : Value
  pub metadata : CommonMetadata

pub record UsageSegment : Type 0 where
  pub usage : Value
  pub metadata : CommonMetadata

pub record RawSegment : Type 0 where
  pub segment_type : EventType
  pub raw_data : Bytes
  pub metadata : CommonMetadata

unfoldable pub reasoning_can_merge : ReasoningSegment → ReasoningSegment → Bool
reasoning_can_merge s n = int_equal s.choice_index n.choice_index && equal s.field_name n.field_name

unfoldable pub reasoning_merge : ReasoningSegment → ReasoningSegment → ReasoningSegment
reasoning_merge s n = record s { text = s.text ++ n.text }

unfoldable pub content_can_merge : ContentSegment → ContentSegment → Bool
content_can_merge s n = int_equal s.choice_index n.choice_index

unfoldable pub content_merge : ContentSegment → ContentSegment → ContentSegment
content_merge s n = record s { text = s.text ++ n.text }

abbrev pub call_bytes : ToolCallAccumulator → ℕ
call_bytes c = length c.id + length c.type + length c.function_name + length c.arguments + 32

-- The loop of `BytesLen` over the map of calls.
unfoldable pub calls_bytes : Calls → ℕ
calls_bytes [] = 0
calls_bytes ((_, c) ∷ cs) = call_bytes c + calls_bytes cs

unfoldable pub tool_call_bytes_len : ToolCallSegment → ℕ
tool_call_bytes_len s = 128 + calls_bytes s.calls

-- `existing.ID != "" && nextCall.ID != "" && existing.ID != nextCall.ID`, where the call exists
unfoldable pub id_conflict : Option ToolCallAccumulator → ToolCallAccumulator → Bool
id_conflict none next = false
id_conflict (some x) next =
    not (is_empty x.id) && not (is_empty next.id) && not (equal x.id next.id)

-- The loop of `CanMerge` over `n.Calls`.
unfoldable pub calls_can_merge : Calls → Calls → Bool
calls_can_merge calls [] = true
calls_can_merge calls ((idx, next) ∷ rest) =
    not (id_conflict (lookup idx calls) next) && calls_can_merge calls rest

unfoldable pub tool_call_can_merge : ToolCallSegment → ToolCallSegment → Bool
tool_call_can_merge s n = int_equal s.choice_index n.choice_index && calls_can_merge s.calls n.calls

unfoldable pub merge_function_name : Bytes → Bytes → Bytes
merge_function_name old new =
    if is_empty new
    then old
    else if is_empty old
    then new
    else if equal old new
    then old
    else if has_prefix new old
    then new
    else if has_prefix old new
    then old
    else old ++ new

abbrev fill : Bytes → Bytes → Bytes
fill old new = if is_empty old && not (is_empty new) then new else old

-- The body of the loop of `Merge` for a call that exists.
unfoldable pub merge_call : ToolCallAccumulator → ToolCallAccumulator → ToolCallAccumulator
merge_call x next = record x {
  id = fill x.id next.id;
  type = fill x.type next.type;
  function_name = merge_function_name x.function_name next.function_name;
  arguments = x.arguments ++ next.arguments;
}

unfoldable pub merge_one :
    ToolCallSegment → ℤ → ToolCallAccumulator → Option ToolCallAccumulator → ToolCallSegment
merge_one s idx next none = record s {
  order = s.order ++ (idx ∷ []);
  calls = insert idx next s.calls;
}
merge_one s idx next (some x) = record s { calls = insert idx (merge_call x next) s.calls }

-- The loop of `Merge` over `n.Order`.
unfoldable pub merge_calls : ToolCallSegment → List ℤ → Calls → Option ToolCallSegment
merge_calls s [] calls = some s
merge_calls s (idx ∷ rest) calls = elim (lookup idx calls) [
  | none ↦ none
  | some next ↦ merge_calls (merge_one s idx next (lookup idx s.calls)) rest calls
]

unfoldable pub tool_call_merge : ToolCallSegment → ToolCallSegment → Option ToolCallSegment
tool_call_merge s n = merge_calls s n.order n.calls

unfoldable pub role_can_merge : RoleSegment → RoleSegment → Bool
role_can_merge s n = int_equal s.choice_index n.choice_index && equal s.role n.role
