-- ===== src/Semantic/Parser/Events.antt =====
-- `ParseEvent` on every event and both protocols: no event is lost, no segment panics, and the
-- parser keeps its extras foreign.
use buffered_llm_proxy.Base.{
  ◌≡◌, ◌≢◌, ◌⊎◌, refl, Bool, true, false, map, List, [], ◌∷◌, Option, none, some, Bytes, codes,
  is_empty, equal, bytes_eq, arith, Bool-cases, Option-cases, inl, inr, if_either, ◌||◌,
}
use buffered_llm_proxy.Base.Int.{ℤ, int_equal}
use buffered_llm_proxy.Base.Trim.{trim_space}
use buffered_llm_proxy.Sse.Reader.{Event}
use buffered_llm_proxy.Semantic.Types.{CommonMetadata, ToolCallDelta}
use buffered_llm_proxy.Semantic.Json.{Json}
use buffered_llm_proxy.Semantic.Chat.{ToolCallSegment}
use buffered_llm_proxy.Semantic.Chat.Calls
use buffered_llm_proxy.Semantic.Segment.{Segment, tool_call}
use buffered_llm_proxy.Semantic.Segment.Merging.{IsWellFormed}
use buffered_llm_proxy.Semantic.Metadata.{Parser, RawMap, is_known, extract_responses_metadata}
use buffered_llm_proxy.Semantic.ChatParser.{parse_chat_event, index_of, tool_segment}
use buffered_llm_proxy.Semantic.ChatParser.Parsed.{
  IsFresh, AreDistinct, tool_segment-IsWellFormed, call_values-tool_segment,
}
use buffered_llm_proxy.Semantic.ChatParser.Segments.{OnTool, OnTools, parse_chat_event-OnTools}
use buffered_llm_proxy.Semantic.ResponsesParser.{
  parse_typed, text_events, reasoning_events, tool_events, is_present_key, type_of,
  parse_responses_root, parse_responses_event,
}
use buffered_llm_proxy.Semantic.Serializer.{
  Serializer, Map, call_values, serialize_tool_call, serialize_segment,
}
use buffered_llm_proxy.Semantic.Parser.{uses_responses, parse_event}

-- Both protocols have what the two parsers have.
parse_event-either :
    (P : Parser × List Segment → Type 0) (json : Json) (probe_type : Bytes → Option Bytes)
    (p : Parser) (ev : Event)
    → P (parse_chat_event json p ev)
    → P (parse_responses_event json p ev)
    → P (parse_event json probe_type p ev)
unfolding parse_event
parse_event-either P json probe_type p ev c r =
    if_either P (uses_responses probe_type p.protocol ev) r c

parse_typed-OnTool :
    (Q : ToolCallSegment → Type 0) (json : Json) (type id bytes : Bytes) (meta : CommonMetadata)
    (root : RawMap)
    → OnTool Q (parse_typed json type id bytes meta root)
unfolding parse_typed
parse_typed-OnTool Q json type id bytes meta root =
    elim (Bool-cases (equal type (codes "error") || equal type (codes "response.failed"))) [
      | inl t ↦ rw (t, parse_typed) tt
      | inr a ↦ elim (Bool-cases (is_present_key (codes "error") root)) [
        | inl t ↦ rw (a, parse_typed, t) tt
        | inr b ↦ elim (Bool-cases (is_known type text_events)) [
          | inl t ↦ rw (a, parse_typed, b, t) tt
          | inr c ↦ elim (Bool-cases (is_known type reasoning_events)) [
            | inl t ↦ rw (a, parse_typed, b, c, t) tt
            | inr d ↦ elim (Bool-cases (is_known type tool_events)) [
              | inl t ↦ rw (a, parse_typed, b, c, d, t) tt
              | inr e ↦ rw (a, parse_typed, b, c, d, e) tt
            ]
          ]
        ]
      ]
    ]

parse_responses_event-OnTools :
    (Q : ToolCallSegment → Type 0) (json : Json) (p : Parser) (ev : Event)
    → OnTools Q (parse_responses_event json p ev).1
unfolding parse_responses_event parse_responses_root
parse_responses_event-OnTools Q json p ev = elim (Bool-cases (is_empty (trim_space ev.payload))) [
  | inl t ↦ rw (t, parse_responses_event) tt
  | inr f ↦ elim (Bool-cases (equal (trim_space ev.payload) (codes "[DONE]"))) [
    | inl t ↦ rw (f, parse_responses_event, t) (tt, tt)
    | inr g ↦ elim (Option-cases (json.decode_object (trim_space ev.payload))) [
      | inl e ↦ rw (f, parse_responses_event, g, e, parse_responses_root) (tt, tt)
      | inr (root, e) ↦
          rw (f, parse_responses_event, g, e, parse_responses_root)
            (
              parse_typed-OnTool Q json (type_of json ev.type root) ev.id (trim_space ev.payload)
                  (extract_responses_metadata json p root).meta root,
              tt,
            )
    ]
  ]
]

pub parse_event-OnTools :
    (Q : ToolCallSegment → Type 0) (json : Json) (probe_type : Bytes → Option Bytes) (p : Parser)
    (ev : Event)
    → ((i : ℤ) (meta : CommonMetadata) (r : Bytes) (tcs : List ToolCallDelta)
        → json.decode_tool_calls r ≡ some tcs
        → Q (tool_segment i meta tcs))
    → OnTools Q (parse_event json probe_type p ev).1
parse_event-OnTools Q json probe_type p ev made =
    parse_event-either (λ r. OnTools Q r.1) json probe_type p ev
      (parse_chat_event-OnTools json Q made p ev) (parse_responses_event-OnTools Q json p ev)

-- A property of every segment of a list.
abbrev pub OnEach : (Segment → Type 0) → List Segment → Type 0
OnEach P [] = Unit {0}
OnEach P (s ∷ ss) = P s × OnEach P ss

OnEach-OnTools :
    (P : Segment → Type 0) (Q : ToolCallSegment → Type 0) (ss : List Segment)
    → ((s : Segment) → OnTool Q s → P s)
    → OnTools Q ss
    → OnEach P ss
OnEach-OnTools P Q [] f q = tt
OnEach-OnTools P Q (s ∷ ss) f q = (f s q.0, OnEach-OnTools P Q ss f q.1)

module _ (json : Json) (s : Serializer) (now : ℤ) (extras : Map) where
  serialize_tool_call-some :
      (seg : ToolCallSegment)
      → call_values seg.order seg.calls ≢ none
      → serialize_tool_call json s now extras seg ≢ none
  unfolding serialize_tool_call
  serialize_tool_call-some seg h = elim (Option-cases (call_values seg.order seg.calls)) [
    | inl e ↦ absurd (h e)
    | inr (vs, e) ↦ rw (e, serialize_tool_call) (ground arith)
  ]

  serialize_segment-some :
      (seg : Segment)
      → OnTool (λ t. call_values t.order t.calls ≢ none) seg
      → serialize_segment json s now extras seg ≢ none
  unfolding serialize_segment
  serialize_segment-some (tool_call seg) h = serialize_tool_call-some seg h
  serialize_segment-some _ h = ground arith

-- Parsing and writing never panics: every segment of every event, of both protocols and with any
-- metadata, has an encoding, also when tool calls of one delta share an index.
pub serialize_segment-parse_event :
    (json : Json) (probe_type : Bytes → Option Bytes) (p : Parser) (ev : Event) (s : Serializer)
    (now : ℤ) (extras : Map)
    → OnEach
        (λ seg. serialize_segment json s now extras seg ≢ none)
        (parse_event json probe_type p ev).1
serialize_segment-parse_event json probe_type p ev s now extras =
    OnEach-OnTools (λ seg. serialize_segment json s now extras seg ≢ none)
      (λ t. call_values t.order t.calls ≢ none) (parse_event json probe_type p ev).1
      (serialize_segment-some json s now extras)
      (parse_event-OnTools (λ t. call_values t.order t.calls ≢ none) json probe_type p ev
        (λ i meta r tcs e. call_values-tool_segment i meta tcs))

-- An index occurs twice in the list.
unfoldable pub is_in : ℤ → List ℤ → Bool
is_in i [] = false
is_in i (j ∷ js) = int_equal i j || is_in i js

unfoldable pub repeats : List ℤ → Bool
unfolding is_in
repeats [] = false
repeats (i ∷ is) = is_in i is || repeats is

abbrev order_of : Segment → List ℤ
order_of (tool_call s) = s.order
order_of _ = []

-- The segment is well formed, or its order repeats an index.
abbrev pub IsWellFormedUnlessRepeated : Segment → Type 0
IsWellFormedUnlessRepeated s = IsWellFormed s ⊎ (repeats (order_of s) ≡ true)

abbrev IsDistinctOrRepeats : ToolCallSegment → Type 0
IsDistinctOrRepeats t = Calls.IsWellFormed t ⊎ (repeats t.order ≡ true)

IsFresh-or-is_in :
    (i : ℤ) (tcs : List ToolCallDelta) → IsFresh i tcs ⊎ (is_in i (map index_of tcs) ≡ true)
unfolding is_in
IsFresh-or-is_in i [] = inl tt
IsFresh-or-is_in i (tc ∷ tcs) = elim (Bool-cases (int_equal i tc.index)) [
  | inl t ↦ inr (rw t refl)
  | inr f ↦ elim (IsFresh-or-is_in i tcs) [
    | inl fresh ↦ inl (f, fresh)
    | inr found ↦ inr (rw f found)
  ]
]

AreDistinct-or-repeats :
    (tcs : List ToolCallDelta) → AreDistinct tcs ⊎ (repeats (map index_of tcs) ≡ true)
unfolding repeats
AreDistinct-or-repeats [] = inl tt
AreDistinct-or-repeats (tc ∷ tcs) = elim (IsFresh-or-is_in tc.index tcs) [
  | inr found ↦ inr (rw found refl)
  | inl fresh ↦ elim (AreDistinct-or-repeats tcs) [
    | inl distinct ↦ inl (fresh, distinct)
    | inr again ↦ inr (ground (arith, again))
  ]
]

tool_segment-or-repeats :
    (i : ℤ) (meta : CommonMetadata) (tcs : List ToolCallDelta)
    → IsDistinctOrRepeats (tool_segment i meta tcs)
unfolding tool_segment
tool_segment-or-repeats i meta tcs = elim (AreDistinct-or-repeats tcs) [
  | inl distinct ↦ inl (tool_segment-IsWellFormed i meta tcs distinct)
  | inr again ↦ inr again
]

IsWellFormed-OnTool : (s : Segment) → OnTool IsDistinctOrRepeats s → IsWellFormedUnlessRepeated s
IsWellFormed-OnTool (tool_call s) w = w
IsWellFormed-OnTool _ w = inl tt

-- Every segment of every event, of both protocols and whatever the JSON decoders give, is well
-- formed, which is what merging two segments asks for, unless it has tool calls and their order
-- repeats an index.
pub parse_event-IsWellFormed :
    (json : Json) (probe_type : Bytes → Option Bytes) (p : Parser) (ev : Event)
    → OnEach IsWellFormedUnlessRepeated (parse_event json probe_type p ev).1
parse_event-IsWellFormed json probe_type p ev =
    OnEach-OnTools IsWellFormedUnlessRepeated IsDistinctOrRepeats
      (parse_event json probe_type p ev).1 IsWellFormed-OnTool
      (parse_event-OnTools IsDistinctOrRepeats json probe_type p ev
        (λ i meta r tcs e. tool_segment-or-repeats i meta tcs))
