-- ===== src/Semantic/Serializer.antt =====
-- pkg/semantic/serializer.go: from segments to the bytes of server-sent events. `now` is the clock,
-- `extras` the content of the map that the `Extra` of the segments' metadata shares.
pub mod Override
pub mod Models
use buffered_llm_proxy.Base.{
  ℕ, Bool, true, false, List, [], ◌∷◌, Option, none, some, Bytes, codes, is_empty, if◌then◌else◌,
  map, bytes_eq,
}
use buffered_llm_proxy.Base.Int.{ℤ, pos, int_equal, int_eq}
use buffered_llm_proxy.Base.Map.{lookup, insert, insert_all}
use buffered_llm_proxy.Semantic.Types.{
  Value, null, integer, text, array, object, Items, nil, cons, end, CommonMetadata, ExtraRef,
  no_extra, parser_extra, EventType, event_done, to_fields,
}
use buffered_llm_proxy.Semantic.Json.{Json}
use buffered_llm_proxy.Semantic.Chat.{
  ToolCallAccumulator, Calls, ReasoningSegment, ContentSegment, ToolCallSegment, RoleSegment,
  FinishSegment, UsageSegment, RawSegment,
}
use buffered_llm_proxy.Semantic.Responses.{
  ResponseTextDeltaSegment, ResponseReasoningDeltaSegment, ResponseToolCallDeltaSegment,
  ResponseControlSegment,
}
use buffered_llm_proxy.Semantic.Segment.{
  Segment, reasoning, content, tool_call, role, finish, usage, raw, response_text,
  response_reasoning, response_tool, response_control,
}
use buffered_llm_proxy.Sse.Encode.{encode_data, encode_event, encode_done}

pub record Serializer : Type 0 where
  pub model_override : Bytes

abbrev pub new_serializer : Serializer
new_serializer = record { model_override = [] }

abbrev pub set_model_override : Serializer → Bytes → Serializer
set_model_override s m = record s { model_override = m }

-- A map[string]interface{}.
abbrev pub Map : Type 0
Map = List (Bytes × Value)

-- `if v != "" { m[k] = v }`
unfoldable pub put_text : Bytes → Bytes → Map → Map
put_text k v m = if is_empty v then m else insert k (text v) m

unfoldable pub put_index : Bytes → Option ℤ → Map → Map
put_index k none m = m
put_index k (some i) m = insert k (integer i) m

abbrev pub extra_of : ExtraRef → Map → Map
extra_of no_extra extras = []
extra_of parser_extra extras = extras

abbrev pub value_of : Map → Value
value_of m = object (to_fields m)

abbrev one : Value → Value
one v = array (cons v nil)

abbrev items_of : List Value → Items
items_of [] = nil
items_of (v ∷ vs) = cons v (items_of vs)

-- A []interface{}: a nil slice is encoded as null.
abbrev slice_value : Option (List Value) → Value
slice_value none = null
slice_value (some vs) = array (items_of vs)

abbrev or_default : Bytes → Bytes → Bytes
or_default v d = if is_empty v then d else v

-- `created := meta.Created`, or the clock if it is 0.
abbrev created_or : ℤ → ℤ → ℤ
created_or c now = if int_equal c (pos 0) then now else c

abbrev is_done_type : EventType → Bool
is_done_type event_done = true
is_done_type _ = false

abbrev pub model_of : Serializer → CommonMetadata → Bytes
model_of s meta = if is_empty s.model_override then meta.model else s.model_override

-- The entries that `baseMap` writes before the loop over `Extra`.
unfoldable pub base_entries : Serializer → ℤ → CommonMetadata → Map
base_entries s now meta = put_text (codes "service_tier") meta.service_tier (
    put_text (codes "system_fingerprint") meta.system_fingerprint (
      put_text (codes "model") (model_of s meta) (
        insert (codes "created") (integer (created_or meta.created now)) (
          insert (codes "object")
            (text (or_default meta.object_name (codes "chat.completion.chunk")))
            (put_text (codes "id") meta.id [])))))

unfoldable pub base_map : Serializer → ℤ → Map → CommonMetadata → Map
base_map s now extras meta = insert_all (base_entries s now meta) (extra_of meta.extra extras)

abbrev choice_of : ℤ → Map → Value
choice_of index delta =
    one (value_of ((codes "index", integer index) ∷ (codes "delta", value_of delta) ∷ []))

-- One element of the array of tool calls.
unfoldable pub call_value : ToolCallAccumulator → Value
unfolding put_text
call_value c = value_of (
    put_text (codes "type") c.type (
      put_text (codes "id") c.id (
        (codes "index", integer c.index)
        ∷ (
          codes "function",
          value_of
              ((codes "name", text c.function_name) ∷ (codes "arguments", text c.arguments) ∷ []),
        )
        ∷ [])))

-- The loop over `seg.Order`. A nil entry of `Calls` is a panic.
unfoldable pub call_values : List ℤ → Calls → Option Items
call_values [] calls = some nil
call_values (idx ∷ rest) calls = elim (lookup idx calls) [
  | none ↦ none
  | some c ↦ elim (call_values rest calls) [ none ↦ none | some vs ↦ some (cons (call_value c) vs) ]
]

module _ (json : Json) (s : Serializer) (now : ℤ) (extras : Map) where
  abbrev send : CommonMetadata → Bytes → Value → Bytes
  send meta key v = encode_data (json.encode (value_of (insert key v (base_map s now extras meta))))

  unfoldable pub serialize_reasoning : ReasoningSegment → Bytes
  serialize_reasoning seg =
      send seg.metadata (codes "choices")
        (choice_of seg.choice_index ((seg.field_name, text seg.text) ∷ []))

  unfoldable pub serialize_content : ContentSegment → Bytes
  serialize_content seg =
      send seg.metadata (codes "choices")
        (choice_of seg.choice_index ((codes "content", text seg.text) ∷ []))

  unfoldable pub serialize_tool_call : ToolCallSegment → Option Bytes
  serialize_tool_call seg = elim (call_values seg.order seg.calls) [
    | none ↦ none
    | some vs ↦ some (
        send seg.metadata (codes "choices")
          (choice_of seg.choice_index ((codes "tool_calls", array vs) ∷ [])))
  ]

  unfoldable pub serialize_role : RoleSegment → Bytes
  serialize_role seg =
      send seg.metadata (codes "choices")
        (choice_of seg.choice_index ((codes "role", text seg.role) ∷ []))

  unfoldable pub serialize_finish : FinishSegment → Bytes
  serialize_finish seg = send seg.metadata (codes "choices") (
      one (
        value_of (
          (codes "index", integer seg.choice_index)
          ∷ (codes "delta", object end)
          ∷ (codes "finish_reason", text seg.finish_reason)
          ∷ [])))

  unfoldable pub serialize_usage : UsageSegment → Bytes
  serialize_usage seg = encode_data (
      json.encode (
        value_of (
          insert (codes "usage") seg.usage
            (insert (codes "choices") (array nil) (base_map s now extras seg.metadata)))))

  unfoldable pub serialize_raw : RawSegment → Bytes
  serialize_raw seg =
      if is_done_type seg.segment_type then encode_done else encode_data seg.raw_data

  abbrev send_event : Bytes → Bytes → Map → Bytes
  send_event type id m =
      encode_event (record { type = type; id = id; payload = json.encode (value_of m) })

  unfoldable pub serialize_response_text : ResponseTextDeltaSegment → Bytes
  serialize_response_text seg =
      let m = insert_all [] seg.extra in
      let m = insert (codes "type") (text seg.event_type) m in
      let m = insert (codes "item_id") (text seg.item_id) m in
      let m = insert (codes "output_index") (integer seg.output_index) m in
      let m = insert (codes "content_index") (integer seg.content_index) m in
      let m = insert (codes "delta") (text seg.delta) m in
      let m = insert (codes "sequence_number") (integer seg.sequence_number) m in
      let m = put_text (codes "response_id") seg.response_id m in
      send_event seg.event_type seg.sse_id
        (if seg.has_logprobs then insert (codes "logprobs") (slice_value seg.logprobs) m else m)

  unfoldable pub serialize_response_reasoning : ResponseReasoningDeltaSegment → Bytes
  serialize_response_reasoning seg =
      let m = insert_all [] seg.extra in
      let m = insert (codes "type") (text seg.event_type) m in
      let m = insert (codes "item_id") (text seg.item_id) m in
      let m = insert (codes "output_index") (integer seg.output_index) m in
      let m = put_index (codes "summary_index") seg.summary_index m in
      let m = put_index (codes "content_index") seg.content_index m in
      let m = insert (codes "delta") (text seg.delta) m in
      let m = insert (codes "sequence_number") (integer seg.sequence_number) m in
      let m = put_text (codes "response_id") seg.response_id m in
      send_event seg.event_type seg.sse_id m

  unfoldable pub serialize_response_tool : ResponseToolCallDeltaSegment → Bytes
  serialize_response_tool seg =
      let m = insert_all [] seg.extra in
      let m = insert (codes "type") (text seg.event_type) m in
      let m = insert (codes "item_id") (text seg.item_id) m in
      let m = insert (codes "output_index") (integer seg.output_index) m in
      let m = insert (codes "delta") (text seg.delta) m in
      let m = insert (codes "sequence_number") (integer seg.sequence_number) m in
      let m = put_text (codes "call_id") seg.call_id m in
      let m = put_text (codes "response_id") seg.response_id m in
      send_event seg.event_type seg.sse_id m

  unfoldable pub serialize_response_control : ResponseControlSegment → Bytes
  serialize_response_control seg =
      if seg.is_done
      then encode_done
      else encode_event (record { type = seg.event_type; id = seg.id; payload = seg.raw_data })

  unfoldable pub serialize_segment : Segment → Option Bytes
  serialize_segment (reasoning seg) = some (serialize_reasoning seg)
  serialize_segment (content seg) = some (serialize_content seg)
  serialize_segment (tool_call seg) = serialize_tool_call seg
  serialize_segment (role seg) = some (serialize_role seg)
  serialize_segment (finish seg) = some (serialize_finish seg)
  serialize_segment (usage seg) = some (serialize_usage seg)
  serialize_segment (raw seg) = some (serialize_raw seg)
  serialize_segment (response_text seg) = some (serialize_response_text seg)
  serialize_segment (response_reasoning seg) = some (serialize_response_reasoning seg)
  serialize_segment (response_tool seg) = some (serialize_response_tool seg)
  serialize_segment (response_control seg) = some (serialize_response_control seg)
