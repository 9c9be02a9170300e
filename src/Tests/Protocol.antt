-- ===== src/Tests/Protocol.antt =====
-- The parser, the serializer, server-sent events and metrics, on concrete input.
use buffered_llm_proxy.Base.{
  ◌≡◌, ◌≢◌, refl, [], equal, ◌∷◌, none, some, Bytes, codes, is_empty, bytes_eq,
}
use buffered_llm_proxy.Base.Int.{pos, int_equal, int_eq}
use buffered_llm_proxy.Base.Map.{lookup}
use buffered_llm_proxy.Base.Trim.{trim_space}
use buffered_llm_proxy.Semantic.Chat.{ContentSegment}
use buffered_llm_proxy.Semantic.Segment.{content}
use buffered_llm_proxy.Semantic.Metadata.{Parser, RawMap, present, decoded}
use buffered_llm_proxy.Semantic.ChatParser.{parse_chunk, delta_object}
use buffered_llm_proxy.Semantic.ChatParser.Roles.{roles_on, changes, last_of, given_roles}
use buffered_llm_proxy.Semantic.ChatParser.Roles.Chunk.{chunk_roles, roles_on-parse_chunk}
use buffered_llm_proxy.Semantic.Serializer.{serialize_segment, serialize_content}
use buffered_llm_proxy.Semantic.Serializer.Override.{IsForeign}
use buffered_llm_proxy.Semantic.Serializer.Models.{Names, serialize_segment-Names}
use buffered_llm_proxy.Semantic.Parser.{parse_event}
use buffered_llm_proxy.Semantic.Parser.Events.{
  OnEach, serialize_segment-parse_event, IsWellFormedUnlessRepeated, parse_event-IsWellFormed,
}
use buffered_llm_proxy.Semantic.Parser.Extras.{parse_event-IsForeign}
use buffered_llm_proxy.Semantic.Parser.Outcome.{serialize_all, parse_event-is_empty}
use buffered_llm_proxy.Semantic.Parser.Written.{serialize_all-parse_event}
use buffered_llm_proxy.Tests.Data.{meta_a, small_json, no_type, chunk_event, parser_a, serializer_a}

trim_space_example : trim_space (codes "  a b\t\n") ≡ codes "a b"
unfolding trim_space
trim_space_example = refl

parse_event-is_empty_example :
    is_empty (parse_event small_json no_type parser_a chunk_event).1
    ≡ is_empty (trim_space (codes " {} "))
parse_event-is_empty_example = parse_event-is_empty small_json no_type parser_a chunk_event

serialize_all-parse_event_example :
    (out : Bytes) × (serialize_all small_json serializer_a
        (pos 9)
        []
        (parse_event small_json no_type parser_a chunk_event).1
      ≡ some out)
    × (is_empty out ≡ is_empty (trim_space (codes " {} ")))
serialize_all-parse_event_example =
    serialize_all-parse_event small_json no_type parser_a chunk_event serializer_a (pos 9) []

serialize_segment-parse_event_example :
    OnEach
      (λ seg. serialize_segment small_json serializer_a (pos 9) [] seg ≢ none)
      (parse_event small_json no_type parser_a chunk_event).1
serialize_segment-parse_event_example =
    serialize_segment-parse_event small_json no_type parser_a chunk_event serializer_a (pos 9) []

parse_event-IsWellFormed_example :
    OnEach IsWellFormedUnlessRepeated (parse_event small_json no_type parser_a chunk_event).1
parse_event-IsWellFormed_example = parse_event-IsWellFormed small_json no_type parser_a chunk_event

no_extras-IsForeign : IsForeign []
unfolding lookup
no_extras-IsForeign k h = refl

parse_event-IsForeign_example :
    IsForeign (parse_event small_json no_type parser_a chunk_event).0.extras
parse_event-IsForeign_example =
    parse_event-IsForeign small_json no_type parser_a chunk_event no_extras-IsForeign

abbrev hello : ContentSegment
hello = record { choice_index = pos 0; text = codes "Hel"; metadata = meta_a }

serialize_segment-Names_example :
    Names small_json serializer_a
      (pos 9)
      []
      meta_a
      (serialize_content small_json serializer_a (pos 9) [] hello)
unfolding serialize_segment
serialize_segment-Names_example =
    serialize_segment-Names small_json serializer_a (pos 9) [] (content hello) meta_a
      (serialize_content small_json serializer_a (pos 9) [] hello) no_extras-IsForeign refl refl

-- The parser has seen the role that the one choice of the chunk gives again.
abbrev parser_seen : Parser
parser_seen = record parser_a { seen_roles = (pos 0, codes "assistant") ∷ [] }

abbrev chunk_root : RawMap
chunk_root = (codes "choices", codes "C") ∷ []

roles_on-parse_chunk_example :
    let (p', ss) = parse_chunk small_json parser_seen (codes "{}") chunk_root in
    (roles_on (pos 0) ss
      ≡ changes
          (lookup (pos 0) ((pos 0, codes "assistant") ∷ []))
          (chunk_roles small_json (pos 0) chunk_root))
    × (lookup (pos 0) p'.seen_roles
        ≡ last_of
            (lookup (pos 0) ((pos 0, codes "assistant") ∷ []))
            (chunk_roles small_json (pos 0) chunk_root))
roles_on-parse_chunk_example =
    roles_on-parse_chunk small_json parser_seen (pos 0) (codes "{}") chunk_root

-- The chunk gives the role again, and no role segment is made.
repeated_role : changes (some (codes "assistant")) (chunk_roles small_json (pos 0) chunk_root) ≡ []
unfolding changes chunk_roles given_roles lookup int_equal equal present delta_object decoded
repeated_role = refl
