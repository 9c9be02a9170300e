-- ===== src/Semantic/ChatParser.antt =====
-- pkg/semantic/parser.go: `parseChoice` and `parseChatCompletionsEvent`.
pub mod Parsed
pub mod Roles
pub mod Segments
use buffered_llm_proxy.Base.{
  ℕ, Bool, true, false, not, ◌&&◌, List, [], ◌∷◌, ◌++◌, Option, none, some, Bytes, codes, is_empty,
  equal, if◌then◌else◌, map, bytes_eq,
}
use buffered_llm_proxy.Base.Int.{ℤ, int_eq}
use buffered_llm_proxy.Base.Map.{lookup, insert}
use buffered_llm_proxy.Base.Trim.{trim_space}
use buffered_llm_proxy.Sse.Reader.{Event}
use buffered_llm_proxy.Semantic.Types.{
  Value, null, CommonMetadata, ChoiceChunk, ToolCallDelta, FunctionCallDelta, EventType,
  event_unknown, event_error, event_done,
}
use buffered_llm_proxy.Semantic.Json.{Json}
use buffered_llm_proxy.Semantic.Chat.{ToolCallAccumulator, Calls, ToolCallSegment}
use buffered_llm_proxy.Semantic.Segment.{
  Segment, reasoning, content, tool_call, role, finish, usage, raw,
}
use buffered_llm_proxy.Semantic.Metadata.{
  Parser, RawMap, extract_metadata, decode_extras, decoded, present, is_present,
}

abbrev pub Roles : Type 0
Roles = List (ℤ × Bytes)

abbrev pub reasoning_keys : List Bytes
reasoning_keys =
    codes "reasoning_content" ∷ codes "reasoning" ∷ codes "reasoning_text" ∷ codes "thought" ∷ []

abbrev pub known_delta_keys : List Bytes
known_delta_keys = codes "role" ∷ (reasoning_keys ++ (codes "content" ∷ codes "tool_calls" ∷ []))

-- A string that is there and not empty.
abbrev pub filled_text : Option Bytes → Option Bytes
filled_text none = none
filled_text (some v) = if is_empty v then none else some v

abbrev function_name_of : Option FunctionCallDelta → Bytes
function_name_of none = []
function_name_of (some f) = f.name

abbrev arguments_of_delta : Option FunctionCallDelta → Bytes
arguments_of_delta none = []
arguments_of_delta (some f) = f.arguments

unfoldable pub accumulator : ToolCallDelta → ToolCallAccumulator
accumulator tc = record {
  index = tc.index;
  id = tc.id;
  type = tc.type;
  function_name = function_name_of tc.function;
  arguments = arguments_of_delta tc.function;
}

-- The loop over the tool calls of one delta: `Order` and `Calls`.
unfoldable pub collect_calls : List ToolCallDelta → Calls → Calls
unfolding accumulator
collect_calls [] calls = calls
collect_calls (tc ∷ rest) calls = collect_calls rest (insert tc.index (accumulator tc) calls)

abbrev pub index_of : ToolCallDelta → ℤ
index_of tc = tc.index

unfoldable pub tool_segment : ℤ → CommonMetadata → List ToolCallDelta → ToolCallSegment
unfolding collect_calls
tool_segment i meta tcs = record {
  choice_index = i;
  order = map index_of tcs;
  calls = collect_calls tcs [];
  metadata = meta;
}

abbrev raw_segment : CommonMetadata → EventType → Bytes → Segment
raw_segment meta type bytes =
    raw (record { segment_type = type; raw_data = bytes; metadata = meta })

-- `p.seenRoles[i] != s`: a missing entry reads as "".
unfoldable pub is_new_role : ℤ → Bytes → Roles → Bool
is_new_role i s roles = elim (lookup i roles) [
  | none ↦ not (is_empty s)
  | some old ↦ not (equal old s)
]

unfoldable pub read_role : CommonMetadata → ℤ → Roles → Option Bytes → Roles × List Segment
unfolding is_new_role
read_role meta i roles none = (roles, [])
read_role meta i roles (some s) =
    if is_new_role i s roles
    then (insert i s roles, role (record { choice_index = i; role = s; metadata = meta }) ∷ [])
    else (roles, [])

module _ (json : Json) where
  unfoldable pub parse_role : CommonMetadata → ℤ → RawMap → Roles → Roles × List Segment
  unfolding decoded read_role
  parse_role meta i delta roles =
      read_role meta i roles (filled_text (decoded json.decode_string (codes "role") delta))

  -- The loop over the names of the reasoning field, up to its `break`.
  unfoldable pub parse_reasoning : CommonMetadata → ℤ → RawMap → List Bytes → List Segment
  unfolding decoded
  parse_reasoning meta i delta [] = []
  parse_reasoning meta i delta (key ∷ keys) =
      elim (filled_text (decoded json.decode_string key delta)) [
        | none ↦ parse_reasoning meta i delta keys
        | some s ↦
            reasoning (record { choice_index = i; field_name = key; text = s; metadata = meta })
            ∷ []
      ]

  unfoldable pub parse_content : CommonMetadata → ℤ → RawMap → List Segment
  unfolding decoded
  parse_content meta i delta = elim (decoded json.decode_string_pointer (codes "content") delta) [
    | none ↦ []
    | some pointer ↦ elim (filled_text pointer) [
      | none ↦ []
      | some s ↦ content (record { choice_index = i; text = s; metadata = meta }) ∷ []
    ]
  ]

  unfoldable pub parse_tools : CommonMetadata → ℤ → RawMap → List Segment
  unfolding present tool_segment
  parse_tools meta i delta = elim (present (codes "tool_calls") delta) [
    | none ↦ []
    | some r ↦ elim (json.decode_tool_calls r) [
      | none ↦ []
      | some tcs ↦ if is_empty tcs then [] else tool_call (tool_segment i meta tcs) ∷ []
    ]
  ]

  -- The raw segment for a delta in which nothing known was found.
  unfoldable pub unknown_delta : CommonMetadata → Bytes → RawMap → List Segment → List Segment
  unfolding decode_extras
  unknown_delta meta bytes delta [] =
      if is_empty (decode_extras json known_delta_keys delta [])
      then []
      else raw_segment meta event_unknown bytes ∷ []
  unknown_delta meta bytes delta (s ∷ segments) = s ∷ segments

  unfoldable pub parse_delta : CommonMetadata → ℤ → Bytes → RawMap → Roles → Roles × List Segment
  unfolding parse_role parse_reasoning parse_content parse_tools unknown_delta
  parse_delta meta i bytes delta roles =
      let (roles, segments) = parse_role meta i delta roles in
      (
        roles,
        unknown_delta meta bytes delta (
            segments
            ++ (parse_reasoning meta i delta reasoning_keys
                ++ (parse_content meta i delta ++ parse_tools meta i delta))),
      )

  unfoldable pub parse_finish : CommonMetadata → ChoiceChunk → List Segment
  parse_finish meta choice = elim choice.finish_reason [
    | none ↦ []
    | some s ↦
        if is_present s
        then finish (record {
          choice_index = choice.index;
          finish_reason = s;
          usage = null;
          metadata = meta;
        })
          ∷ []
        else []
  ]

  -- The object of a delta that is there and decodes.
  unfoldable pub delta_object : Bytes → Option RawMap
  delta_object bytes = if is_present bytes then json.decode_object bytes else none

  -- `parseChoice`
  unfoldable pub parse_choice : CommonMetadata → ChoiceChunk → Roles → Roles × List Segment
  unfolding parse_delta parse_finish delta_object
  parse_choice meta choice roles = elim (delta_object choice.delta) [
    | none ↦ (roles, parse_finish meta choice)
    | some delta ↦
        let (roles, segments) = parse_delta meta choice.index choice.delta delta roles in
        (roles, segments ++ parse_finish meta choice)
  ]

  unfoldable pub parse_choices : CommonMetadata → List ChoiceChunk → Roles → Roles × List Segment
  unfolding parse_choice
  parse_choices meta [] roles = (roles, [])
  parse_choices meta (c ∷ cs) roles =
      let (roles, first) = parse_choice meta c roles in
      let (roles, rest) = parse_choices meta cs roles in (roles, first ++ rest)

  unfoldable pub parse_choices_member : CommonMetadata → RawMap → Roles → Roles × List Segment
  unfolding parse_choices present
  parse_choices_member meta root roles = elim (present (codes "choices") root) [
    | none ↦ (roles, [])
    | some r ↦ elim (json.decode_choices r) [
      | none ↦ (roles, [])
      | some choices ↦ parse_choices meta choices roles
    ]
  ]

  unfoldable pub parse_usage : CommonMetadata → RawMap → List Segment
  unfolding present
  parse_usage meta root = elim (present (codes "usage") root) [
    | none ↦ []
    | some r ↦ elim (json.decode_value r) [
      | none ↦ []
      | some v ↦ usage (record { usage = v; metadata = meta }) ∷ []
    ]
  ]

  unfoldable pub or_raw : CommonMetadata → Bytes → List Segment → List Segment
  or_raw meta bytes [] = raw_segment meta event_unknown bytes ∷ []
  or_raw meta bytes (s ∷ segments) = s ∷ segments

  -- The part of `parseChatCompletionsEvent` behind its early returns.
  unfoldable pub parse_chunk : Parser → Bytes → RawMap → Parser × List Segment
  unfolding extract_metadata parse_choices_member parse_usage or_raw
  parse_chunk p bytes root =
      let q = extract_metadata json p root in
      let (roles, segments) = parse_choices_member q.meta root q.seen_roles in
      (record q { seen_roles = roles }, or_raw q.meta bytes (segments ++ parse_usage q.meta root))

  unfoldable pub parse_chat_root : Parser → Bytes → Parser × List Segment
  unfolding parse_chunk
  parse_chat_root p bytes = elim (json.decode_object bytes) [
    | none ↦ (p, raw_segment p.meta event_unknown bytes ∷ [])
    | some root ↦ elim (lookup (codes "error") root) [
      | some _ ↦ (p, raw_segment p.meta event_error bytes ∷ [])
      | none ↦ parse_chunk p bytes root
    ]
  ]

  -- `parseChatCompletionsEvent`, which never returns an error.
  unfoldable pub parse_chat_event : Parser → Event → Parser × List Segment
  unfolding parse_chat_root trim_space
  parse_chat_event p ev =
      let bytes = trim_space ev.payload in
      if is_empty bytes
      then (p, [])
      else if equal bytes (codes "[DONE]")
      then (p, raw_segment p.meta event_done bytes ∷ [])
      else parse_chat_root p bytes
