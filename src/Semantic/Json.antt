-- ===== src/Semantic/Json.antt =====
-- What the parser and the serializer use of encoding/json and strconv, as a parameter. Each decoder
-- stands for `json.Unmarshal` into a fresh variable of one type. A decoder gives `none` for an error.
use buffered_llm_proxy.Base.{ℕ, Bool, List, Option, Bytes}
use buffered_llm_proxy.Base.Int.{ℤ}
use buffered_llm_proxy.Semantic.Types.{Value, ChoiceChunk, ToolCallDelta}

pub record Json : Type 0 where
  -- map[string]json.RawMessage, one entry for each key
  pub decode_object : Bytes → Option (List (Bytes × Bytes))
  -- map[string]interface{}
  pub decode_map : Bytes → Option (List (Bytes × Value))
  pub decode_string : Bytes → Option Bytes
  -- *string
  pub decode_string_pointer : Bytes → Option (Option Bytes)
  -- int, int64
  pub decode_int : Bytes → Option ℤ
  -- float64, by its 64 bits
  pub decode_float : Bytes → Option ℕ
  -- interface{}
  pub decode_value : Bytes → Option Value
  -- What is left in an interface{}, and in a []interface{} with `none` for nil, the error ignored.
  pub left_in_value : Bytes → Value
  pub left_in_slice : Bytes → Option (List Value)
  pub decode_choices : Bytes → Option (List ChoiceChunk)
  pub decode_tool_calls : Bytes → Option (List ToolCallDelta)
  -- `f == 0` and `int64(f)`
  pub is_zero_float : ℕ → Bool
  pub float_to_int : ℕ → ℤ
  -- `strconv.ParseInt(s, 10, 64)`
  pub parse_int : Bytes → Option ℤ
  -- `json.Marshal`
  pub encode : Value → Bytes
