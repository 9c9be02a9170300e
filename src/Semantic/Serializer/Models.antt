-- ===== src/Semantic/Serializer/Models.antt =====
-- Which model a written chunk names.
use mathlib.Core.Option.{some_inj, none-ne-some}
use buffered_llm_proxy.Base.{
  ◌≡◌, ◌⊎◌, refl, sym, ap, ◌∙◌, false, Option, none, some, Bytes, codes, is_empty, equal,
  if◌then◌else◌, bytes_eq, Option-cases, inl, inr,
}
use buffered_llm_proxy.Base.Int.{ℤ}
use buffered_llm_proxy.Base.Map.{lookup, insert}
use buffered_llm_proxy.Sse.Encode.{encode_data}
use buffered_llm_proxy.Semantic.Types.{Value, text, array, Items, nil, CommonMetadata}
use buffered_llm_proxy.Semantic.Json.{Json}
use buffered_llm_proxy.Semantic.Chat.{ToolCallSegment}
use buffered_llm_proxy.Semantic.Segment.{
  Segment, reasoning, content, tool_call, role, finish, usage,
}
use buffered_llm_proxy.Semantic.Serializer.{
  Serializer, Map, base_map, value_of, call_values, serialize_reasoning, serialize_content,
  serialize_tool_call, serialize_role, serialize_finish, serialize_usage, serialize_segment,
}
use buffered_llm_proxy.Semantic.Serializer.Override.{IsForeign, lookup-insert-other, base_map-model}

-- The metadata of a segment that is written as a new chunk: all of chat completions but raw ones.
abbrev pub chunk_metadata : Segment → Option CommonMetadata
chunk_metadata (reasoning seg) = some seg.metadata
chunk_metadata (content seg) = some seg.metadata
chunk_metadata (tool_call seg) = some seg.metadata
chunk_metadata (role seg) = some seg.metadata
chunk_metadata (finish seg) = some seg.metadata
chunk_metadata (usage seg) = some seg.metadata
chunk_metadata _ = none

-- The model that a chunk is to name, if any.
abbrev pub named_model : Serializer → CommonMetadata → Option Value
named_model s meta =
    if is_empty s.model_override
    then (if is_empty meta.model then none else some (text meta.model))
    else some (text s.model_override)

module _ (json : Json) (s : Serializer) (now : ℤ) (extras : Map) where
  -- The bytes are the data of one event, an object with the model, or without one.
  abbrev pub Names : CommonMetadata → Bytes → Type 0
  Names meta out =
      (m : Map) × (out ≡ encode_data (json.encode (value_of m)))
      × (lookup (codes "model") m ≡ named_model s meta)

  sent_model :
      (meta meta' : CommonMetadata) (key : Bytes) (v : Value)
      → IsForeign extras
      → equal key (codes "model") ≡ false
      → some meta ≡ some meta'
      → lookup (codes "model") (insert key v (base_map s now extras meta)) ≡ named_model s meta'
  sent_model meta meta' key v f k p =
      lookup-insert-other key (codes "model") v (base_map s now extras meta) k
      ∙ base_map-model s now extras meta f
      ∙ ap (named_model s) (some_inj.0 p)

  sent-Names :
      (meta meta' : CommonMetadata) (key : Bytes) (v : Value) (out : Bytes)
      → IsForeign extras
      → equal key (codes "model") ≡ false
      → some meta ≡ some meta'
      → some (encode_data (json.encode (value_of (insert key v (base_map s now extras meta)))))
        ≡ some out
      → Names meta' out
  sent-Names meta meta' key v out f k p e = (
    insert key v (base_map s now extras meta),
    sym (some_inj.0 e),
    sent_model meta meta' key v f k p,
  )

  tool_call-Names :
      (seg : ToolCallSegment) (meta : CommonMetadata) (out : Bytes)
      → IsForeign extras
      → some seg.metadata ≡ some meta
      → serialize_tool_call json s now extras seg ≡ some out
      → (call_values seg.order seg.calls ≡ none)
        ⊎ ((vs : Items) × (call_values seg.order seg.calls ≡ some vs))
      → Names meta out
  unfolding serialize_tool_call equal
  tool_call-Names seg meta out f c e (inl n) =
      absurd (none-ne-some out (rw (n, serialize_tool_call) at e))
  tool_call-Names seg meta out f c e (inr (vs, v)) =
      sent-Names seg.metadata meta (codes "choices") _ out f refl c
        (rw (v, serialize_tool_call) at e)

  -- A chunk that the serializer writes for a segment names one model: the override if there is one,
  -- and the metadata's otherwise; it names none if both are empty. This holds of every segment of
  -- chat completions but the raw ones, whatever extras the parser kept that are none of its keys.
  pub serialize_segment-Names :
      (seg : Segment) (meta : CommonMetadata) (out : Bytes)
      → IsForeign extras
      → chunk_metadata seg ≡ some meta
      → serialize_segment json s now extras seg ≡ some out
      → Names meta out
  unfolding serialize_segment serialize_reasoning serialize_content serialize_role serialize_finish
      serialize_usage equal
  serialize_segment-Names (reasoning seg) meta out f c e =
      sent-Names seg.metadata meta (codes "choices") _ out f refl c e
  serialize_segment-Names (content seg) meta out f c e =
      sent-Names seg.metadata meta (codes "choices") _ out f refl c e
  serialize_segment-Names (role seg) meta out f c e =
      sent-Names seg.metadata meta (codes "choices") _ out f refl c e
  serialize_segment-Names (finish seg) meta out f c e =
      sent-Names seg.metadata meta (codes "choices") _ out f refl c e
  serialize_segment-Names (tool_call seg) meta out f c e =
      tool_call-Names seg meta out f c e (Option-cases (call_values seg.order seg.calls))
  serialize_segment-Names (usage seg) meta out f c e = (
    insert (codes "usage") seg.usage
        (insert (codes "choices") (array nil) (base_map s now extras seg.metadata)),
    sym (some_inj.0 e),
    lookup-insert-other (codes "usage") (codes "model") seg.usage _ refl
        ∙ sent_model seg.metadata meta (codes "choices") (array nil) f refl c,
  )
  serialize_segment-Names _ meta out f c e = absurd (none-ne-some meta c)
