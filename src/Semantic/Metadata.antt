-- ===== src/Semantic/Metadata.antt =====
-- pkg/semantic/parser.go: the state of a parser and the metadata it collects from each event.
use buffered_llm_proxy.Base.{
  Bool, true, false, not, List, [], ◌∷◌, Option, none, some, Bytes, codes, is_empty, equal,
  if◌then◌else◌, bytes_eq,
}
use buffered_llm_proxy.Base.Int.{ℤ, pos, int_equal}
use buffered_llm_proxy.Base.Map.{lookup, insert}
use buffered_llm_proxy.Semantic.Types.{
  Value, CommonMetadata, no_extra, parser_extra, Protocol, protocol_auto,
}
use buffered_llm_proxy.Semantic.Json.{Json}

-- `extras` is the map that `meta.extra` refers to once it is allocated.
pub record Parser : Type 0 where
  pub protocol : Protocol
  pub meta : CommonMetadata
  pub extras : List (Bytes × Value)
  pub seen_roles : List (ℤ × Bytes)

-- `NewParser` at the time `now`.
abbrev pub new_parser : ℤ → Parser
new_parser now = record {
  protocol = protocol_auto;
  meta = record {
    id = [];
    object_name = [];
    created = now;
    model = [];
    system_fingerprint = [];
    service_tier = [];
    extra = no_extra;
  };
  extras = [];
  seen_roles = [];
}

abbrev pub set_protocol : Parser → Protocol → Parser
set_protocol p protocol = record p { protocol = protocol }

-- A decoded map[string]json.RawMessage.
abbrev pub RawMap : Type 0
RawMap = List (Bytes × Bytes)

-- `slices.Contains`, for a literal map of known keys.
unfoldable pub is_known : Bytes → List Bytes → Bool
is_known k [] = false
is_known k (j ∷ ks) = if equal k j then true else is_known k ks

abbrev pub known_keys : List Bytes
known_keys =
    codes "id"
    ∷ codes "object"
    ∷ codes "created"
    ∷ codes "model"
    ∷ codes "system_fingerprint"
    ∷ codes "service_tier"
    ∷ codes "choices"
    ∷ codes "usage"
    ∷ codes "error"
    ∷ []

-- `if v != "" { old = v }` behind a decoder that can fail.
abbrev pub filled : Bytes → Option Bytes → Bytes
filled old none = old
filled old (some v) = if is_empty v then old else v

abbrev pub nonzero : Option ℤ → Option ℤ
nonzero none = none
nonzero (some c) = if int_equal c (pos 0) then none else some c

-- The first alternative that gives a value.
abbrev pub or_else {ℓ} : {A : Type ℓ} → Option A → Option A → Option A
or_else none b = b
or_else (some a) b = some a

abbrev pub or_old {ℓ} : {A : Type ℓ} → A → Option A → A
or_old old none = old
or_old old (some v) = v

-- `raw, ok := m[key]` and a decoder.
unfoldable pub decoded {ℓ} : {A : Type ℓ} → (Bytes → Option A) → Bytes → RawMap → Option A
decoded f k m = elim (lookup k m) [ none ↦ none | some r ↦ f r ]

-- `ok && len(raw) > 0 && string(raw) != "null"`
abbrev pub is_present : Bytes → Bool
is_present r = if is_empty r then false else not (equal r (codes "null"))

unfoldable pub present : Bytes → RawMap → Option Bytes
present k m = elim (lookup k m) [ none ↦ none | some r ↦ if is_present r then some r else none ]

module _ (json : Json) where
  -- `created`: as an integer, as a float, as a string of digits.
  unfoldable pub float_created : Bytes → Option ℤ
  float_created r = elim (json.decode_float r) [
    | none ↦ none
    | some f ↦ if json.is_zero_float f then none else some (json.float_to_int f)
  ]

  unfoldable pub string_created : Bytes → Option ℤ
  string_created r = elim (json.decode_string r) [
    | none ↦ none
    | some s ↦ if is_empty s then none else nonzero (json.parse_int s)
  ]

  unfoldable pub decode_created : Bytes → Option ℤ
  unfolding float_created string_created
  decode_created r =
      or_else (nonzero (json.decode_int r)) (or_else (float_created r) (string_created r))

  -- The loop over the keys that are not known.
  unfoldable pub decode_extras : List Bytes → RawMap → List (Bytes × Value) → List (Bytes × Value)
  decode_extras known [] extras = extras
  decode_extras known ((k, r) ∷ m) extras = elim (is_known k known) [
    | true ↦ decode_extras known m extras
    | false ↦ elim (json.decode_value r) [
      | none ↦ decode_extras known m extras
      | some v ↦ decode_extras known m (insert k v extras)
    ]
  ]

  unfoldable pub all_known : List Bytes → RawMap → Bool
  all_known known [] = true
  all_known known ((k, _) ∷ m) = if is_known k known then all_known known m else false

  -- `extractMetadata`
  unfoldable pub extract_metadata : Parser → RawMap → Parser
  unfolding decoded
  extract_metadata p root =
      let old = p.meta in
      record p {
        meta = record old {
          id = filled old.id (decoded json.decode_string (codes "id") root);
          object_name = filled old.object_name (decoded json.decode_string (codes "object") root);
          created = or_old old.created (decoded decode_created (codes "created") root);
          model = filled old.model (decoded json.decode_string (codes "model") root);
          system_fingerprint =
              filled old.system_fingerprint
                (decoded json.decode_string (codes "system_fingerprint") root);
          service_tier =
              filled old.service_tier (decoded json.decode_string (codes "service_tier") root);
          extra = if all_known known_keys root then old.extra else parser_extra;
        };
        extras = decode_extras known_keys root p.extras;
      }

  -- `extractResponsesMetadata`
  unfoldable pub extract_response : CommonMetadata → RawMap → CommonMetadata
  unfolding decoded
  extract_response old resp = record old {
    id = filled old.id (decoded json.decode_string (codes "id") resp);
    model = filled old.model (decoded json.decode_string (codes "model") resp);
    created =
        or_old old.created (decoded (λ r. nonzero (json.decode_int r)) (codes "created_at") resp);
  }

  unfoldable pub extract_response_member : CommonMetadata → RawMap → CommonMetadata
  unfolding present
  extract_response_member meta root = elim (present (codes "response") root) [
    | none ↦ meta
    | some r ↦ elim (json.decode_object r) [ none ↦ meta | some resp ↦ extract_response meta resp ]
  ]

  unfoldable pub extract_responses_metadata : Parser → RawMap → Parser
  unfolding decoded
  extract_responses_metadata p root =
      let old = p.meta in
      record p {
        meta =
            extract_response_member
              (record old {
                id =
                    filled (filled old.id (decoded json.decode_string (codes "response_id") root))
                      (decoded json.decode_string (codes "id") root);
                model = filled old.model (decoded json.decode_string (codes "model") root);
              })
              root;
      }
