-- ===== src/Semantic/Parser/Outcome.antt =====
-- `ParseEvent` as a whole: which events give segments.
use buffered_llm_proxy.Base.{
  ◌≡◌, refl, false, List, [], ◌∷◌, ◌++◌, Option, none, some, Bytes, codes, is_empty, equal,
  bytes_eq, Bool-cases, Option-cases, inl, inr, if_either,
}
use buffered_llm_proxy.Base.Int.{ℤ}
use buffered_llm_proxy.Base.Map.{lookup}
use buffered_llm_proxy.Base.Trim.{trim_space}
use buffered_llm_proxy.Sse.Reader.{Event}
use buffered_llm_proxy.Semantic.Json.{Json}
use buffered_llm_proxy.Semantic.Segment.{Segment}
use buffered_llm_proxy.Semantic.Metadata.{Parser, extract_metadata}
use buffered_llm_proxy.Semantic.ChatParser.{
  or_raw, parse_choices_member, parse_usage, parse_chunk, parse_chat_root, parse_chat_event,
}
use buffered_llm_proxy.Semantic.ResponsesParser.{parse_responses_root, parse_responses_event}
use buffered_llm_proxy.Semantic.Serializer.{Serializer, Map, serialize_segment}
use buffered_llm_proxy.Semantic.Parser.{uses_responses, parse_event}

or_raw-is_empty :
    (json : Json) (meta : _) (bytes : Bytes) (ss : List Segment)
    → is_empty (or_raw json meta bytes ss) ≡ false
unfolding or_raw
or_raw-is_empty json meta bytes [] = refl
or_raw-is_empty json meta bytes (s ∷ ss) = refl

parse_chat_root-is_empty :
    (json : Json) (p : Parser) (bytes : Bytes) → is_empty (parse_chat_root json p bytes).1 ≡ false
unfolding parse_chat_root parse_chunk
parse_chat_root-is_empty json p bytes = elim (Option-cases (json.decode_object bytes)) [
  | inl e ↦ rw (e, parse_chat_root) refl
  | inr (root, e) ↦ elim (Option-cases (lookup (codes "error") root)) [
    | inr (_, n) ↦ rw (e, parse_chat_root, n) refl
    | inl n ↦
        let q = extract_metadata json p root in
        rw (e, parse_chat_root, n)
          (or_raw-is_empty json q.meta bytes (
            (parse_choices_member json q.meta root q.seen_roles).1 ++ parse_usage json q.meta root))
  ]
]

parse_chat_event-is_empty :
    (json : Json) (p : Parser) (ev : Event)
    → is_empty (parse_chat_event json p ev).1 ≡ is_empty (trim_space ev.payload)
unfolding parse_chat_event
parse_chat_event-is_empty json p ev = elim (Bool-cases (is_empty (trim_space ev.payload))) [
  | inl t ↦ rw (t, parse_chat_event) refl
  | inr f ↦ elim (Bool-cases (equal (trim_space ev.payload) (codes "[DONE]"))) [
    | inl t ↦ rw (f, parse_chat_event, t) refl
    | inr g ↦ rw (f, parse_chat_event, g) (parse_chat_root-is_empty json p (trim_space ev.payload))
  ]
]

parse_responses_event-is_empty :
    (json : Json) (p : Parser) (ev : Event)
    → is_empty (parse_responses_event json p ev).1 ≡ is_empty (trim_space ev.payload)
unfolding parse_responses_event parse_responses_root
parse_responses_event-is_empty json p ev = elim (Bool-cases (is_empty (trim_space ev.payload))) [
  | inl t ↦ rw (t, parse_responses_event) refl
  | inr f ↦ elim (Bool-cases (equal (trim_space ev.payload) (codes "[DONE]"))) [
    | inl t ↦ rw (f, parse_responses_event, t) refl
    | inr g ↦ elim (Option-cases (json.decode_object (trim_space ev.payload))) [
      | inl e ↦ rw (f, parse_responses_event, g, e, parse_responses_root) refl
      | inr (root, e) ↦ rw (f, parse_responses_event, g, e, parse_responses_root) refl
    ]
  ]
]

-- No event is lost: whatever its bytes are and whatever the JSON decoders make of them, an event
-- gives no segment exactly if its data is white space. So a chunk that only repeats a role gives a
-- segment, too, though the documents call it ignored.
pub parse_event-is_empty :
    (json : Json) (probe_type : Bytes → Option Bytes) (p : Parser) (ev : Event)
    → is_empty (parse_event json probe_type p ev).1 ≡ is_empty (trim_space ev.payload)
unfolding parse_event
parse_event-is_empty json probe_type p ev =
    if_either (λ (r : Parser × List Segment). is_empty r.1 ≡ is_empty (trim_space ev.payload))
      (uses_responses probe_type p.protocol ev) (parse_responses_event-is_empty json p ev)
      (parse_chat_event-is_empty json p ev)

-- The events of a list of segments, written one after the other; `none` is a panic.
unfoldable pub serialize_all : Json → Serializer → ℤ → Map → List Segment → Option Bytes
serialize_all json s now extras [] = some []
serialize_all json s now extras (seg ∷ segments) = elim (serialize_segment json s now extras seg) [
  | none ↦ none
  | some a ↦ elim (serialize_all json s now extras segments) [
    | none ↦ none
    | some b ↦ some (a ++ b)
  ]
]
