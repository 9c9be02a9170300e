-- ===== src/Semantic/ResponsesParser.antt =====
-- pkg/semantic/parser.go: `parseResponsesEvent`.
use buffered_llm_proxy.Base.{
  Bool, true, false, ◌||◌, List, [], ◌∷◌, Option, none, some, Bytes, codes, is_empty, equal,
  if◌then◌else◌, bytes_eq,
}
use buffered_llm_proxy.Base.Int.{ℤ, pos}
use buffered_llm_proxy.Base.Map.{lookup}
use buffered_llm_proxy.Base.Trim.{trim_space}
use buffered_llm_proxy.Sse.Reader.{Event}
use buffered_llm_proxy.Semantic.Types.{Value, null, text, is_nil, CommonMetadata}
use buffered_llm_proxy.Semantic.Json.{Json}
use buffered_llm_proxy.Semantic.Segment.{
  Segment, response_text, response_reasoning, response_tool, response_control,
}
use buffered_llm_proxy.Semantic.Metadata.{
  Parser, RawMap, extract_responses_metadata, decode_extras, decoded, present, is_known, or_old,
  filled,
}

abbrev pub text_events : List Bytes
text_events = codes "response.output_text.delta" ∷ codes "response.refusal.delta" ∷ []

abbrev pub reasoning_events : List Bytes
reasoning_events =
    codes "response.reasoning_text.delta" ∷ codes "response.reasoning_summary_text.delta" ∷ []

abbrev pub tool_events : List Bytes
tool_events =
    codes "response.function_call_arguments.delta"
    ∷ codes "response.custom_tool_call_input.delta"
    ∷ codes "response.mcp_call_arguments.delta"
    ∷ codes "response.code_interpreter_call_code.delta"
    ∷ codes "response.shell_call_command.delta"
    ∷ codes "response.shell_call_output_content.delta"
    ∷ []

abbrev text_keys : List Bytes
text_keys =
    codes "type"
    ∷ codes "item_id"
    ∷ codes "output_index"
    ∷ codes "content_index"
    ∷ codes "delta"
    ∷ codes "sequence_number"
    ∷ codes "response_id"
    ∷ codes "logprobs"
    ∷ []

abbrev reasoning_keys : List Bytes
reasoning_keys =
    codes "type"
    ∷ codes "item_id"
    ∷ codes "output_index"
    ∷ codes "summary_index"
    ∷ codes "content_index"
    ∷ codes "delta"
    ∷ codes "sequence_number"
    ∷ codes "response_id"
    ∷ []

abbrev tool_keys : List Bytes
tool_keys =
    codes "type"
    ∷ codes "item_id"
    ∷ codes "output_index"
    ∷ codes "call_id"
    ∷ codes "delta"
    ∷ codes "sequence_number"
    ∷ codes "response_id"
    ∷ []

abbrev pub control : Bytes → Bytes → Bytes → Bool → Bool → Value → Bytes → CommonMetadata → Segment
control type id bytes done error usage model meta = response_control (record {
  event_type = type;
  id = id;
  raw_data = bytes;
  usage = usage;
  model = model;
  is_done = done;
  is_error = error;
  metadata = meta;
})

abbrev pub is_present_key : Bytes → RawMap → Bool
is_present_key k m = elim (lookup k m) [ none ↦ false | some _ ↦ true ]

abbrev text_of_value : Option Value → Bytes
text_of_value (some (text s)) = s
text_of_value _ = []

module _ (json : Json) where
  -- A member decoded into a field of the segment, which keeps its zero value on an error.
  unfoldable pub string_member : Bytes → RawMap → Bytes
  unfolding decoded
  string_member k m = or_old [] (decoded json.decode_string k m)

  unfoldable pub int_member : Bytes → RawMap → ℤ
  unfolding decoded
  int_member k m = or_old (pos 0) (decoded json.decode_int k m)

  unfoldable pub parse_text_delta : Bytes → Bytes → CommonMetadata → RawMap → Segment
  unfolding string_member int_member present decode_extras
  parse_text_delta type id meta root = response_text (record {
    event_type = type;
    response_id = string_member (codes "response_id") root;
    item_id = string_member (codes "item_id") root;
    output_index = int_member (codes "output_index") root;
    content_index = int_member (codes "content_index") root;
    sequence_number = int_member (codes "sequence_number") root;
    delta = string_member (codes "delta") root;
    has_logprobs = elim (present (codes "logprobs") root) [ none ↦ false | some _ ↦ true ];
    logprobs = elim (present (codes "logprobs") root) [
      | none ↦ none
      | some r ↦ json.left_in_slice r
    ];
    sse_id = id;
    extra = decode_extras json text_keys root [];
    metadata = meta;
  })

  unfoldable pub parse_reasoning_delta : Bytes → Bytes → CommonMetadata → RawMap → Segment
  unfolding string_member int_member decoded decode_extras
  parse_reasoning_delta type id meta root = response_reasoning (record {
    event_type = type;
    response_id = string_member (codes "response_id") root;
    item_id = string_member (codes "item_id") root;
    output_index = int_member (codes "output_index") root;
    content_index = decoded json.decode_int (codes "content_index") root;
    summary_index = decoded json.decode_int (codes "summary_index") root;
    sequence_number = int_member (codes "sequence_number") root;
    delta = string_member (codes "delta") root;
    sse_id = id;
    extra = decode_extras json reasoning_keys root [];
    metadata = meta;
  })

  unfoldable pub parse_tool_delta : Bytes → Bytes → CommonMetadata → RawMap → Segment
  unfolding string_member int_member decode_extras
  parse_tool_delta type id meta root = response_tool (record {
    event_type = type;
    response_id = string_member (codes "response_id") root;
    item_id = string_member (codes "item_id") root;
    output_index = int_member (codes "output_index") root;
    call_id = string_member (codes "call_id") root;
    sequence_number = int_member (codes "sequence_number") root;
    delta = string_member (codes "delta") root;
    sse_id = id;
    extra = decode_extras json tool_keys root [];
    metadata = meta;
  })

  -- The object in the member `response`.
  unfoldable pub response_object : RawMap → Option (List (Bytes × Value))
  unfolding present
  response_object root = elim (present (codes "response") root) [
    | none ↦ none
    | some r ↦ json.decode_map r
  ]

  unfoldable pub root_usage : RawMap → Value
  unfolding present
  root_usage root = elim (present (codes "usage") root) [
    | none ↦ null
    | some r ↦ json.left_in_value r
  ]

  unfoldable pub control_usage : RawMap → Value
  unfolding response_object root_usage
  control_usage root = elim (response_object root) [
    | none ↦ root_usage root
    | some resp ↦ elim (lookup (codes "usage") resp) [
      | none ↦ root_usage root
      | some u ↦ if is_nil u then root_usage root else u
    ]
  ]

  unfoldable pub control_model : CommonMetadata → RawMap → Bytes
  unfolding response_object
  control_model meta root = elim (response_object root) [
    | none ↦ meta.model
    | some resp ↦ filled meta.model (some (text_of_value (lookup (codes "model") resp)))
  ]

  -- The dispatch on the type of the event, behind `extractResponsesMetadata`.
  unfoldable pub parse_typed : Bytes → Bytes → Bytes → CommonMetadata → RawMap → Segment
  unfolding is_known parse_text_delta parse_reasoning_delta parse_tool_delta control_usage
      control_model
  parse_typed type id bytes meta root =
      if equal type (codes "error") || equal type (codes "response.failed")
      then control type id bytes false true null [] meta
      else if is_present_key (codes "error") root
      then control type id bytes false true null [] meta
      else if is_known type text_events
      then parse_text_delta type id meta root
      else if is_known type reasoning_events
      then parse_reasoning_delta type id meta root
      else if is_known type tool_events
      then parse_tool_delta type id meta root
      else control type id bytes false false (control_usage root) (control_model meta root) meta

  -- The type of the event, or else the member `type`.
  unfoldable pub type_of : Bytes → RawMap → Bytes
  unfolding decoded
  type_of type root =
      if is_empty type then filled [] (decoded json.decode_string (codes "type") root) else type

  unfoldable pub parse_responses_root : Parser → Event → Bytes → Parser × List Segment
  unfolding type_of extract_responses_metadata parse_typed
  parse_responses_root p ev bytes = elim (json.decode_object bytes) [
    | none ↦ (p, control ev.type ev.id bytes false false null [] p.meta ∷ [])
    | some root ↦
        let q = extract_responses_metadata json p root in
        (q, parse_typed (type_of ev.type root) ev.id bytes q.meta root ∷ [])
  ]

  -- `parseResponsesEvent`, which never returns an error.
  unfoldable pub parse_responses_event : Parser → Event → Parser × List Segment
  unfolding parse_responses_root trim_space
  parse_responses_event p ev =
      let bytes = trim_space ev.payload in
      if is_empty bytes
      then (p, [])
      else if equal bytes (codes "[DONE]")
      then (p, control ev.type ev.id bytes true false null [] p.meta ∷ [])
      else parse_responses_root p ev bytes
