-- ===== src/Semantic/Parser/Written.antt =====
-- From an event to the bytes that its segments are written as.
use buffered_llm_proxy.Base.{
  ◌≡◌, ◌≢◌, refl, ◌∙◌, false, List, [], ◌∷◌, ◌++◌, Option, none, some, Bytes, codes, is_empty,
  bytes_eq, arith, Bool-cases, Option-cases, inl, inr,
}
use mathlib.Core.Bool.{true≢false}
use buffered_llm_proxy.Base.Int.{ℤ}
use buffered_llm_proxy.Base.Trim.{trim_space}
use buffered_llm_proxy.Sse.Reader.{Event}
use buffered_llm_proxy.Sse.Encode.{
  encode_data, encode_event, encode_lines, split_lines, field_line, data_lines,
}
use buffered_llm_proxy.Semantic.Json.{Json}
use buffered_llm_proxy.Semantic.Chat.{ToolCallSegment}
use buffered_llm_proxy.Semantic.Segment.{
  Segment, reasoning, content, tool_call, role, finish, usage, raw, response_text,
  response_reasoning, response_tool, response_control,
}
use buffered_llm_proxy.Semantic.Metadata.{Parser}
use buffered_llm_proxy.Semantic.Serializer.{
  Serializer, Map, call_values, serialize_segment, serialize_reasoning, serialize_content,
  serialize_tool_call, serialize_role, serialize_finish, serialize_usage, serialize_raw,
  serialize_response_text, serialize_response_reasoning, serialize_response_tool,
  serialize_response_control,
}
use buffered_llm_proxy.Semantic.Parser.{parse_event}
use buffered_llm_proxy.Semantic.Parser.Events.{OnEach, serialize_segment-parse_event}
use buffered_llm_proxy.Semantic.Parser.Outcome.{serialize_all, parse_event-is_empty}

is_empty-append : (a b : Bytes) → is_empty b ≡ false → is_empty (a ++ b) ≡ false
is_empty-append [] b f = f
is_empty-append (c ∷ a) b f = refl

is_empty-encode_data : (bytes : Bytes) → is_empty (encode_data bytes) ≡ false
unfolding encode_data
is_empty-encode_data bytes = is_empty-append (encode_lines (split_lines bytes)) _ refl

is_empty-encode_event : (ev : Event) → is_empty (encode_event ev) ≡ false
unfolding encode_event
is_empty-encode_event ev = is_empty-append (field_line (codes "event: ") ev.type) _ (
    is_empty-append (field_line (codes "id: ") ev.id) _
      (is_empty-append (data_lines ev.payload) _ refl))

is_empty-first : (a b : Bytes) → is_empty a ≡ false → is_empty (a ++ b) ≡ false
is_empty-first [] b f = absurd (true≢false f)
is_empty-first (c ∷ a) b f = refl

module _ (json : Json) (s : Serializer) (now : ℤ) (extras : Map) where
  -- Encoded as some bytes.
  abbrev IsWritten : Segment → Type 0
  IsWritten seg =
      (out : Bytes) × (serialize_segment json s now extras seg ≡ some out) × (is_empty out ≡ false)

  written :
      (seg : Segment) (out : Bytes)
      → serialize_segment json s now extras seg ≡ some out
      → is_empty out ≡ false
      → IsWritten seg
  written seg out e f = (out, e, f)

  tool_call-IsWritten :
      (seg : ToolCallSegment)
      → serialize_segment json s now extras (tool_call seg) ≢ none
      → IsWritten (tool_call seg)
  unfolding serialize_segment serialize_tool_call
  tool_call-IsWritten seg h = elim (Option-cases (call_values seg.order seg.calls)) [
    | inl e ↦ absurd (h (rw (e, serialize_tool_call) refl))
    | inr (vs, e) ↦ rw (e, serialize_tool_call) (_, refl, is_empty-encode_data _)
  ]

  raw-is_empty : (seg : _) → is_empty (serialize_raw json s now extras seg) ≡ false
  unfolding serialize_raw
  raw-is_empty seg = ground (arith, is_empty-encode_data seg.raw_data)

  control-is_empty : (seg : _) → is_empty (serialize_response_control json s now extras seg) ≡ false
  unfolding serialize_response_control
  control-is_empty seg = elim (Bool-cases seg.is_done) [
    | inl t ↦ rw t refl
    | inr f ↦ rw f (is_empty-encode_event _)
  ]

  segment-IsWritten :
      (seg : Segment) → serialize_segment json s now extras seg ≢ none → IsWritten seg
  unfolding serialize_segment serialize_reasoning serialize_content serialize_role serialize_finish
      serialize_usage serialize_response_text serialize_response_reasoning serialize_response_tool
  segment-IsWritten (tool_call seg) h = tool_call-IsWritten seg h
  segment-IsWritten (raw seg) h = (_, refl, raw-is_empty seg)
  segment-IsWritten (response_control seg) h = (_, refl, control-is_empty seg)
  segment-IsWritten (reasoning seg) h = (_, refl, is_empty-encode_data _)
  segment-IsWritten (content seg) h = (_, refl, is_empty-encode_data _)
  segment-IsWritten (role seg) h = (_, refl, is_empty-encode_data _)
  segment-IsWritten (finish seg) h = (_, refl, is_empty-encode_data _)
  segment-IsWritten (usage seg) h = (_, refl, is_empty-encode_data _)
  segment-IsWritten (response_text seg) h = (_, refl, is_empty-encode_event _)
  segment-IsWritten (response_reasoning seg) h = (_, refl, is_empty-encode_event _)
  segment-IsWritten (response_tool seg) h = (_, refl, is_empty-encode_event _)

  serialize_all-OnEach :
      (ss : List Segment)
      → OnEach (λ seg. serialize_segment json s now extras seg ≢ none) ss
      → (out : Bytes) × (serialize_all json s now extras ss ≡ some out)
        × (is_empty out ≡ is_empty ss)
  unfolding serialize_all
  serialize_all-OnEach [] h = ([], refl, refl)
  serialize_all-OnEach (seg ∷ ss) h =
      let (a, e, f) = segment-IsWritten seg h.0 in
      let (b, e', _) = serialize_all-OnEach ss h.1 in
      (a ++ b, rw (e, serialize_all, e') refl, is_empty-first a b f)

-- What an event is written as: parsed by either protocol, with any metadata, extras and model
-- override, all of its segments are encoded, one after the other and without a panic, and no bytes
-- are written exactly if the data of the event is white space. So no event with data is swallowed
-- on its way; this includes a chunk that only repeats a role.
pub serialize_all-parse_event :
    (json : Json) (probe_type : Bytes → Option Bytes) (p : Parser) (ev : Event) (s : Serializer)
    (now : ℤ) (extras : Map)
    → (out : Bytes) × (serialize_all json s now extras (parse_event json probe_type p ev).1
        ≡ some out)
      × (is_empty out ≡ is_empty (trim_space ev.payload))
serialize_all-parse_event json probe_type p ev s now extras =
    let (out, e, f) =
      serialize_all-OnEach json s now extras (parse_event json probe_type p ev).1
        (serialize_segment-parse_event json probe_type p ev s now extras) in
    (out, e, f ∙ parse_event-is_empty json probe_type p ev)
