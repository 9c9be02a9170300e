-- ===== src/Semantic/Types.antt =====
-- pkg/semantic/types.go: kinds of events, protocols, decoded JSON values and the metadata that each
-- segment carries.
use Prim.Native.Nat.{ℕ}
use buffered_llm_proxy.Base.{Bool, true, false, List, [], ◌∷◌, Option}
use buffered_llm_proxy.Base.{Bytes}
use buffered_llm_proxy.Base.Int.{ℤ}

pub data EventType : Type 0 where
  event_unknown event_role event_reasoning event_content event_tool_call : EventType
  event_finish event_usage event_error event_done : EventType

pub data Protocol : Type 0 where
  protocol_auto protocol_chat_completions protocol_responses : Protocol

-- The values of an `interface{}`: what `json.Unmarshal` leaves there, with a float64 given by its 64
-- bits, and the Go integers that the serializer puts in. `null` is nil.
mutual
  pub data Value : Type 0 where
    null : Value
    boolean : Bool → Value
    number : ℕ → Value
    integer : ℤ → Value
    text : Bytes → Value
    array : Items → Value
    object : Fields → Value

  pub data Items : Type 0 where
    nil : Items
    cons : Value → Items → Items

  pub data Fields : Type 0 where
    end : Fields
    field : Bytes → Value → Fields → Fields

abbrev pub is_nil : Value → Bool
is_nil null = true
is_nil _ = false

-- `Extra` of a metadata value is nil, or the one map that its parser allocates. Copies of the
-- struct share that map, so its entries are state of the parser.
pub data ExtraRef : Type 0 where
  no_extra parser_extra : ExtraRef

pub record CommonMetadata : Type 0 where
  pub id : Bytes
  pub object_name : Bytes
  pub created : ℤ
  pub model : Bytes
  pub system_fingerprint : Bytes
  pub service_tier : Bytes
  pub extra : ExtraRef

pub record FunctionCallDelta : Type 0 where
  pub name : Bytes
  pub arguments : Bytes

pub record ToolCallDelta : Type 0 where
  pub index : ℤ
  pub id : Bytes
  pub type : Bytes
  pub function : Option FunctionCallDelta

-- `delta` is the raw text of the member, empty if it is missing.
pub record ChoiceChunk : Type 0 where
  pub index : ℤ
  pub delta : Bytes
  pub finish_reason : Option Bytes

abbrev pub to_fields : List (Bytes × Value) → Fields
to_fields [] = end
to_fields ((k, v) ∷ m) = field k v (to_fields m)

abbrev pub from_fields : Fields → List (Bytes × Value)
from_fields end = []
from_fields (field k v m) = (k, v) ∷ from_fields m
