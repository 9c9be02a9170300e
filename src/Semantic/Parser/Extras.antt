-- ===== src/Semantic/Parser/Extras.antt =====
-- The extras that a parser collects, which `baseMap` copies into every chunk.
use buffered_llm_proxy.Base.{
  List, Option, Bytes, codes, is_empty, equal, bytes_eq, Bool-cases, Option-cases, inl, inr,
  if_either,
}
use buffered_llm_proxy.Base.Map.{lookup}
use buffered_llm_proxy.Base.Trim.{trim_space}
use buffered_llm_proxy.Sse.Reader.{Event}
use buffered_llm_proxy.Semantic.Json.{Json}
use buffered_llm_proxy.Semantic.Segment.{Segment}
use buffered_llm_proxy.Semantic.Metadata.{Parser, extract_metadata, extract_responses_metadata}
use buffered_llm_proxy.Semantic.ChatParser.{parse_chunk, parse_chat_root, parse_chat_event}
use buffered_llm_proxy.Semantic.ResponsesParser.{parse_responses_root, parse_responses_event}
use buffered_llm_proxy.Semantic.Serializer.Override.{IsForeign, decode_extras-IsForeign}
use buffered_llm_proxy.Semantic.Parser.{uses_responses, parse_event}

module _ (json : Json) (p : Parser) (f : IsForeign p.extras) where
  parse_chat_root-IsForeign : (bytes : Bytes) → IsForeign (parse_chat_root json p bytes).0.extras
  unfolding parse_chat_root parse_chunk extract_metadata
  parse_chat_root-IsForeign bytes = elim (Option-cases (json.decode_object bytes)) [
    | inl e ↦ rw (e, parse_chat_root) f
    | inr (root, e) ↦ elim (Option-cases (lookup (codes "error") root)) [
      | inr (_, n) ↦ rw (e, parse_chat_root, n) f
      | inl n ↦ rw (e, parse_chat_root, n) (decode_extras-IsForeign json root p.extras f)
    ]
  ]

  parse_chat_event-IsForeign : (ev : Event) → IsForeign (parse_chat_event json p ev).0.extras
  unfolding parse_chat_event
  parse_chat_event-IsForeign ev = elim (Bool-cases (is_empty (trim_space ev.payload))) [
    | inl t ↦ rw (t, parse_chat_event) f
    | inr a ↦ elim (Bool-cases (equal (trim_space ev.payload) (codes "[DONE]"))) [
      | inl t ↦ rw (a, parse_chat_event, t) f
      | inr b ↦ rw (a, parse_chat_event, b) (parse_chat_root-IsForeign (trim_space ev.payload))
    ]
  ]

  parse_responses_event-IsForeign :
      (ev : Event) → IsForeign (parse_responses_event json p ev).0.extras
  unfolding parse_responses_event parse_responses_root extract_responses_metadata
  parse_responses_event-IsForeign ev = elim (Bool-cases (is_empty (trim_space ev.payload))) [
    | inl t ↦ rw (t, parse_responses_event) f
    | inr a ↦ elim (Bool-cases (equal (trim_space ev.payload) (codes "[DONE]"))) [
      | inl t ↦ rw (a, parse_responses_event, t) f
      | inr b ↦ elim (Option-cases (json.decode_object (trim_space ev.payload))) [
        | inl e ↦ rw (a, parse_responses_event, b, e, parse_responses_root) f
        | inr (root, e) ↦ rw (a, parse_responses_event, b, e, parse_responses_root) f
      ]
    ]
  ]

-- A parser never collects an extra under a key that it knows: if its extras are foreign, they are
-- after every event too, of both protocols.
pub parse_event-IsForeign :
    (json : Json) (probe_type : Bytes → Option Bytes) (p : Parser) (ev : Event)
    → IsForeign p.extras
    → IsForeign (parse_event json probe_type p ev).0.extras
unfolding parse_event
parse_event-IsForeign json probe_type p ev f =
    if_either (λ (r : Parser × List Segment). IsForeign r.0.extras)
      (uses_responses probe_type p.protocol ev) (parse_responses_event-IsForeign json p f ev)
      (parse_chat_event-IsForeign json p f ev)
