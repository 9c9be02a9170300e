-- ===== src/Semantic/Responses.antt =====
-- pkg/semantic/segments.go, lines 231 to 460: the segments of the Responses API.
use buffered_llm_proxy.Base.{
  Bool, true, false, not, ◌&&◌, List, [], ◌∷◌, ◌++◌, Option, none, some, Bytes, equal, is_empty,
  if◌then◌else◌, bytes_eq,
}
use buffered_llm_proxy.Base.Int.{ℤ, int_equal}
use buffered_llm_proxy.Base.Map.{insert_all}
use buffered_llm_proxy.Semantic.Types.{CommonMetadata, Value}

pub record ResponseTextDeltaSegment : Type 0 where
  pub event_type : Bytes
  pub response_id : Bytes
  pub item_id : Bytes
  pub output_index : ℤ
  pub content_index : ℤ
  pub sequence_number : ℤ
  pub delta : Bytes
  pub has_logprobs : Bool
  pub logprobs : Option (List Value)
  pub sse_id : Bytes
  pub extra : List (Bytes × Value)
  pub metadata : CommonMetadata

pub record ResponseReasoningDeltaSegment : Type 0 where
  pub event_type : Bytes
  pub response_id : Bytes
  pub item_id : Bytes
  pub output_index : ℤ
  pub content_index : Option ℤ
  pub summary_index : Option ℤ
  pub sequence_number : ℤ
  pub delta : Bytes
  pub sse_id : Bytes
  pub extra : List (Bytes × Value)
  pub metadata : CommonMetadata

pub record ResponseToolCallDeltaSegment : Type 0 where
  pub event_type : Bytes
  pub response_id : Bytes
  pub item_id : Bytes
  pub output_index : ℤ
  pub call_id : Bytes
  pub sequence_number : ℤ
  pub delta : Bytes
  pub sse_id : Bytes
  pub extra : List (Bytes × Value)
  pub metadata : CommonMetadata

pub record ResponseControlSegment : Type 0 where
  pub event_type : Bytes
  pub id : Bytes
  pub raw_data : Bytes
  pub usage : Value
  pub model : Bytes
  pub is_done : Bool
  pub is_error : Bool
  pub metadata : CommonMetadata

-- `if new != "" { old = new }`
abbrev pub newer : Bytes → Bytes → Bytes
newer old new = if is_empty new then old else new

-- `append(old, new...)` on slices that may be nil: nothing appended to nil is nil.
abbrev pub append_slice {ℓ} : {A : Type ℓ} → Option (List A) → Option (List A) → Option (List A)
append_slice none none = none
append_slice none (some []) = none
append_slice none (some (x ∷ xs)) = some (x ∷ xs)
append_slice (some xs) none = some xs
append_slice (some xs) (some ys) = some (xs ++ ys)

unfoldable pub response_text_can_merge : ResponseTextDeltaSegment → ResponseTextDeltaSegment → Bool
response_text_can_merge s n =
    equal s.event_type n.event_type
    && (equal s.item_id n.item_id
        && (int_equal s.output_index n.output_index && int_equal s.content_index n.content_index))

unfoldable pub response_text_merge :
    ResponseTextDeltaSegment → ResponseTextDeltaSegment → ResponseTextDeltaSegment
response_text_merge s n = record s {
  delta = s.delta ++ n.delta;
  sequence_number = n.sequence_number;
  response_id = newer s.response_id n.response_id;
  sse_id = newer s.sse_id n.sse_id;
  has_logprobs = if n.has_logprobs then true else s.has_logprobs;
  logprobs = if n.has_logprobs then append_slice s.logprobs n.logprobs else s.logprobs;
  extra = insert_all s.extra n.extra;
}

-- Two optional indexes agree: both nil, or both set and equal.
unfoldable pub same_index : Option ℤ → Option ℤ → Bool
same_index none none = true
same_index (some a) (some b) = int_equal a b
same_index _ _ = false

unfoldable pub response_reasoning_can_merge :
    ResponseReasoningDeltaSegment → ResponseReasoningDeltaSegment → Bool
response_reasoning_can_merge s n =
    equal s.event_type n.event_type
    && (equal s.item_id n.item_id
        && (int_equal s.output_index n.output_index
            && (same_index s.summary_index n.summary_index
                && same_index s.content_index n.content_index)))

unfoldable pub response_reasoning_merge :
    ResponseReasoningDeltaSegment → ResponseReasoningDeltaSegment → ResponseReasoningDeltaSegment
response_reasoning_merge s n = record s {
  delta = s.delta ++ n.delta;
  sequence_number = n.sequence_number;
  response_id = newer s.response_id n.response_id;
  sse_id = newer s.sse_id n.sse_id;
  extra = insert_all s.extra n.extra;
}

unfoldable pub response_tool_can_merge :
    ResponseToolCallDeltaSegment → ResponseToolCallDeltaSegment → Bool
response_tool_can_merge s n =
    equal s.event_type n.event_type
    && (equal s.item_id n.item_id && int_equal s.output_index n.output_index)

unfoldable pub response_tool_merge :
    ResponseToolCallDeltaSegment → ResponseToolCallDeltaSegment → ResponseToolCallDeltaSegment
response_tool_merge s n = record s {
  delta = s.delta ++ n.delta;
  sequence_number = n.sequence_number;
  call_id = if is_empty s.call_id && not (is_empty n.call_id) then n.call_id else s.call_id;
  response_id = newer s.response_id n.response_id;
  sse_id = newer s.sse_id n.sse_id;
  extra = insert_all s.extra n.extra;
}
