-- ===== src/Semantic/Parser.antt =====
-- pkg/semantic/parser.go: `ParseEvent` and the choice between the two protocols.
pub mod Events
pub mod Outcome
pub mod Written
pub mod Extras
use buffered_llm_proxy.Base.{
  Bool, true, false, ◌||◌, List, Option, none, some, Bytes, codes, has_prefix, if◌then◌else◌,
}
use buffered_llm_proxy.Base.Trim.{trim_space}
use buffered_llm_proxy.Sse.Reader.{Event}
use buffered_llm_proxy.Semantic.Types.{
  Protocol, protocol_auto, protocol_chat_completions, protocol_responses,
}
use buffered_llm_proxy.Semantic.Json.{Json}
use buffered_llm_proxy.Semantic.Segment.{Segment}
use buffered_llm_proxy.Semantic.Metadata.{Parser}
use buffered_llm_proxy.Semantic.ChatParser.{parse_chat_event}
use buffered_llm_proxy.Semantic.ResponsesParser.{parse_responses_event}

-- A probe of the member `type` of the object, as decoded by the struct of `isResponsesEvent`.
abbrev is_response_type : Option Bytes → Bool
is_response_type none = false
is_response_type (some t) = has_prefix t (codes "response.")

-- `probe_type` is `json.Unmarshal` into a struct with the one field `type`.
unfoldable pub is_responses_event : (Bytes → Option Bytes) → Event → Bool
unfolding has_prefix trim_space
is_responses_event probe_type ev =
    if has_prefix ev.type (codes "response.")
    then true
    else let bytes = trim_space ev.payload in
      if has_prefix bytes (codes "{\"type\":\"response.")
        || has_prefix bytes (codes "{\"type\": \"response.")
      then true
      else is_response_type (probe_type bytes)

-- The switch of `ParseEvent`.
unfoldable pub uses_responses : (Bytes → Option Bytes) → Protocol → Event → Bool
unfolding is_responses_event
uses_responses probe_type protocol_chat_completions ev = false
uses_responses probe_type protocol_responses ev = true
uses_responses probe_type protocol_auto ev = is_responses_event probe_type ev

module _ (json : Json) (probe_type : Bytes → Option Bytes) where
  -- `ParseEvent`
  unfoldable pub parse_event : Parser → Event → Parser × List Segment
  unfolding uses_responses parse_chat_event parse_responses_event
  parse_event p ev =
      if uses_responses probe_type p.protocol ev
      then parse_responses_event json p ev
      else parse_chat_event json p ev
