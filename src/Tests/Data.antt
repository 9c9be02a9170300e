-- ===== src/Tests/Data.antt =====
-- Concrete values for the tests: segments, a buffer, events, and a JSON package in miniature.
use buffered_llm_proxy.Base.{
  true, List, [], ◌∷◌, Option, none, some, Bytes, codes, equal, if◌then◌else◌,
}
use buffered_llm_proxy.Base.Int.{pos}
use buffered_llm_proxy.Sse.Reader.{Event}
use buffered_llm_proxy.Aggregator.Buffer.{BufferConfig}
use buffered_llm_proxy.Semantic.Types.{text, CommonMetadata, parser_extra, ToolCallDelta}
use buffered_llm_proxy.Semantic.Json.{Json}
use buffered_llm_proxy.Semantic.Metadata.{Parser, new_parser}
use buffered_llm_proxy.Semantic.Segment.{Segment, content, reasoning}
use buffered_llm_proxy.Semantic.Serializer.{Serializer}

abbrev pub meta_a : CommonMetadata
meta_a = record {
  id = codes "c1";
  object_name = [];
  created = pos 7;
  model = codes "m";
  system_fingerprint = [];
  service_tier = [];
  extra = parser_extra;
}

abbrev pub content_a : Segment
content_a = content (record { choice_index = pos 0; text = codes "Hel"; metadata = meta_a })

abbrev pub content_b : Segment
content_b = content (record { choice_index = pos 0; text = codes "lo"; metadata = meta_a })

abbrev pub content_ab : Segment
content_ab = content (record { choice_index = pos 0; text = codes "Hello"; metadata = meta_a })

abbrev pub reasoning_a : Segment
reasoning_a = reasoning (record {
  choice_index = pos 0;
  field_name = codes "thought";
  text = codes "hm";
  metadata = meta_a;
})

abbrev pub two_deltas : List ToolCallDelta
two_deltas =
    record { index = pos 0; id = codes "a"; type = codes "function"; function = none }
    ∷ record {
      index = pos 1;
      id = [];
      type = [];
      function = some (record { name = codes "f"; arguments = codes "{" });
    }
    ∷ []

abbrev pub small_config : BufferConfig
small_config = record { high_watermark = pos 80; low_watermark = pos 40; min_coalesce_wait = pos 0 }

-- A role, a content, an unknown member and two tool calls in one choice.
abbrev object_in : Bytes → List (Bytes × Bytes)
object_in bytes =
    if equal bytes (codes "D")
    then (codes "role", codes "assistant")
      ∷ (codes "content", codes "Hi")
      ∷ (codes "tool_calls", codes "T")
      ∷ []
    else (codes "choices", codes "C")
      ∷ (codes "extra_key", codes "1")
      ∷ (codes "model", codes "m1")
      ∷ []

abbrev pub small_json : Json
small_json = record {
  decode_object = λ bytes. some (object_in bytes);
  decode_map = λ _. none;
  decode_string = λ bytes. some bytes;
  decode_string_pointer = λ bytes. some (some bytes);
  decode_int = λ _. none;
  decode_float = λ _. none;
  decode_value = λ bytes. some (text bytes);
  left_in_value = λ bytes. text bytes;
  left_in_slice = λ _. none;
  decode_choices = λ _.
      some (record { index = pos 0; delta = codes "D"; finish_reason = some (codes "stop") } ∷ []);
  decode_tool_calls = λ _. some two_deltas;
  is_zero_float = λ _. true;
  float_to_int = λ _. pos 0;
  parse_int = λ _. none;
  encode = λ _. codes "{}";
}

abbrev pub no_type : Bytes → Option Bytes
no_type _ = none

abbrev pub chunk_event : Event
chunk_event = record { type = []; id = []; payload = codes " {} " }

abbrev pub done_event : Event
done_event = record { type = []; id = []; payload = codes "[DONE]\n" }

abbrev pub parser_a : Parser
parser_a = new_parser (pos 7)

abbrev pub serializer_a : Serializer
serializer_a = record { model_override = codes "mine" }

-- An event with a type and two lines of data.
abbrev pub two_lines : Event
two_lines = record { type = codes "t"; id = []; payload = codes "a\nb" }
