-- ===== src/Proxy/Bodies.antt =====
-- pkg/proxy/server.go: the model's name in JSON bodies. A decoded object has its members as raw JSON.
pub mod Renaming
use buffered_llm_proxy.Base.{
  not, ◌&&◌, List, Option, none, some, Bytes, codes, is_empty, if◌then◌else◌, bytes_eq,
}
use buffered_llm_proxy.Base.Map.{lookup, insert}
use buffered_llm_proxy.Base.Split.{contains}
use buffered_llm_proxy.Http.Header.{Header, get}

-- `json.Unmarshal` into a map[string]json.RawMessage, and `json.Marshal` of such a map and of a
-- string. `none` is an error. The text `null`, which leaves the map nil, counts as an empty object:
-- a member is set only where the object has one or the request's body has a model.
pub record JsonObjects : Type 0 where
  pub decode_object : Bytes → Option (List (Bytes × Bytes))
  pub encode_object : List (Bytes × Bytes) → Option Bytes
  pub encode_string : Bytes → Option Bytes

module _ (json : JsonObjects) where
  -- `body` with the member `model`, as long as both can be encoded.
  unfoldable pub with_model : Bytes → Bytes → List (Bytes × Bytes) → Bytes
  unfolding insert
  with_model model body members = elim (json.encode_string model) [
    | none ↦ body
    | some text ↦ elim (json.encode_object (insert (codes "model") text members)) [
      | none ↦ body
      | some modified ↦ modified
    ]
  ]

  -- `rewriteModelInBody`
  unfoldable pub rewrite_model_in_body : Bytes → Bytes → Bytes
  unfolding with_model
  rewrite_model_in_body body model = elim (json.decode_object body) [
    | none ↦ body
    | some members ↦ with_model model body members
  ]

  -- The body of a reply that is an object with a model.
  unfoldable pub renamed : Bytes → Bytes → Option (List (Bytes × Bytes)) → Bytes
  unfolding with_model lookup
  renamed model body none = body
  renamed model body (some members) = elim (lookup (codes "model") members) [
    | none ↦ body
    | some _ ↦ with_model model body members
  ]

  unfoldable pub response_body : Bytes → Header → Bytes → Bytes
  unfolding renamed contains get
  response_body model header body =
      if not (is_empty model)
        && contains (codes "application/json") (get (codes "Content-Type") header)
      then renamed model body (json.decode_object body)
      else body
