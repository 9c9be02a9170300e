-- ===== src/Proxy/Bodies/Renaming.antt =====
-- What becomes of a body whose model gets another name.
use mathlib.Core.Option.{map}
use buffered_llm_proxy.Base.{
  ◌≡◌, refl, sym, ap, subst, ◌∙◌, Bool, true, false, List, Option, none, some, Bytes, codes,
  is_empty, equal, if◌then◌else◌, Bool-cases, inl, inr, Option-cases, bytes_eq,
}
use buffered_llm_proxy.Base.Map.{lookup, insert, lookup-insert}
use buffered_llm_proxy.Base.Split.{contains}
use buffered_llm_proxy.Http.Header.{Header, get}
use buffered_llm_proxy.Proxy.Bodies.{
  JsonObjects, with_model, rewrite_model_in_body, renamed, response_body,
}

-- What encoding/json does with objects whose members are raw JSON: every string can be encoded, and
-- so can a decoded object with another `model`, which decodes to the same members, each in the
-- spelling `compact` that the encoder gives to raw JSON.
pub record ObjectsRoundTrip (json : JsonObjects) (compact : Bytes → Bytes) : Type 0 where
  pub string_text : (s : Bytes) → (text : Bytes) × (json.encode_string s ≡ some text)
  pub object_text :
      (body s text : Bytes) (members : List (Bytes × Bytes))
      → json.decode_object body ≡ some members
      → json.encode_string s ≡ some text
      → (out : Bytes) × (decoded : List (Bytes × Bytes)) × (json.encode_object
            (insert (codes "model") text members)
          ≡ some out)
        × (json.decode_object out ≡ some decoded)
        × ((key : Bytes)
            → lookup key decoded ≡ map compact (lookup key (insert (codes "model") text members)))

module _ (json : JsonObjects) (compact : Bytes → Bytes) where
  -- Both bodies are objects; `out` has the name `model` and every other member of `body`, and no more.
  abbrev pub Renames : Bytes → Bytes → Bytes → Type 0
  Renames model body out =
      (members : List (Bytes × Bytes)) × (decoded : List (Bytes × Bytes)) × (text : Bytes)
      × (json.decode_object body ≡ some members)
      × (json.encode_string model ≡ some text)
      × (json.decode_object out ≡ some decoded)
      × ((key : Bytes)
          → lookup key decoded ≡ (
              if equal (codes "model") key
              then some (compact text)
              else map compact (lookup key members)))

  -- What the upstream is sent for a client's `body` that names `model`, where the upstream's name is
  -- `target_model`.
  pub data Asks (model target_model body out : Bytes) : Type 0 where
    no_name : is_empty target_model ≡ true → out ≡ body → Asks model target_model body out
    same_name : target_model ≡ model → out ≡ body → Asks model target_model body out
    no_object : json.decode_object body ≡ none → out ≡ body → Asks model target_model body out
    other_name :
        is_empty target_model ≡ false
        → equal target_model model ≡ false
        → Renames target_model body out
        → Asks model target_model body out

  -- What the client of the model `model` is sent for the upstream's `body`, whose type is `kind`.
  pub data Replies (model kind body out : Bytes) : Type 0 where
    unnamed : is_empty model ≡ true → out ≡ body → Replies model kind body out
    other_type :
        contains (codes "application/json") kind ≡ false → out ≡ body → Replies model kind body out
    not_object : json.decode_object body ≡ none → out ≡ body → Replies model kind body out
    no_model :
        (members : List (Bytes × Bytes))
        → json.decode_object body ≡ some members
        → lookup (codes "model") members ≡ none
        → out ≡ body
        → Replies model kind body out
    named :
        (members : List (Bytes × Bytes)) (old : Bytes)
        → is_empty model ≡ false
        → contains (codes "application/json") kind ≡ true
        → json.decode_object body ≡ some members
        → lookup (codes "model") members ≡ some old
        → Renames model body out
        → Replies model kind body out

  map-if :
      (b : Bool) (text : Bytes) (old : Option Bytes)
      → map compact (if b then some text else old)
        ≡ (if b then some (compact text) else map compact old)
  map-if true text old = refl
  map-if false text old = refl

module _ (json : JsonObjects) (compact : Bytes → Bytes) (trip : ObjectsRoundTrip json compact) where
  with_model-Renames :
      (model body : Bytes) (members : List (Bytes × Bytes))
      → json.decode_object body ≡ some members
      → Renames json compact model body (with_model json model body members)
  unfolding with_model
  with_model-Renames model body members d =
      let (text, e) = trip.string_text model in
      let (out, decoded, o, d', same) = trip.object_text body model text members d e in
      let is_out : with_model json model body members ≡ out = rw (e, o, with_model) refl in
      (
        members,
        decoded,
        text,
        d,
        e,
        ap json.decode_object is_out ∙ d',
        λ key.
            same key
            ∙ ap (map compact) (lookup-insert (codes "model") key text members)
            ∙ map-if json compact (equal (codes "model") key) text (lookup key members),
      )

  pub rewrite_model_in_body-Asks :
      (model target_model body : Bytes)
      → is_empty target_model ≡ false
      → equal target_model model ≡ false
      → Asks json compact model target_model body (rewrite_model_in_body json body target_model)
  unfolding rewrite_model_in_body
  rewrite_model_in_body-Asks model target_model body n k =
      elim (Option-cases (json.decode_object body)) [
        | inl none_is ↦ no_object none_is (rw (none_is, rewrite_model_in_body) refl)
        | inr (members, d) ↦
            let same : rewrite_model_in_body json body target_model
                ≡ with_model json target_model body members =
              rw (d, rewrite_model_in_body) refl in
            other_name n k (
              subst (Renames json compact target_model body) (sym same)
                (with_model-Renames target_model body members d))
      ]

  object-Replies :
      (model kind body : Bytes) (members : List (Bytes × Bytes))
      → is_empty model ≡ false
      → contains (codes "application/json") kind ≡ true
      → json.decode_object body ≡ some members
      → Replies json compact model kind body (renamed json model body (some members))
  unfolding renamed
  object-Replies model kind body members n c d =
      elim (Option-cases (lookup (codes "model") members)) [
        | inl none_is ↦ no_model members d none_is (rw (none_is, renamed) refl)
        | inr (old, o) ↦
            let same : renamed json model body (some members) ≡ with_model json model body members =
              rw (o, renamed) refl in
            named members old n c d o (
              subst (Renames json compact model body) (sym same)
                (with_model-Renames model body members d))
      ]

  renamed-Replies :
      (model kind body : Bytes)
      → is_empty model ≡ false
      → contains (codes "application/json") kind ≡ true
      → Replies json compact model kind body (renamed json model body (json.decode_object body))
  unfolding renamed
  renamed-Replies model kind body n c = elim (Option-cases (json.decode_object body)) [
    | inl none_is ↦ not_object none_is (rw (none_is, renamed) refl)
    | inr (members, d) ↦
        subst (λ o. Replies json compact model kind body (renamed json model body o)) (sym d)
          (object-Replies model kind body members n c d)
  ]

  pub response_body-Replies :
      (model : Bytes) (header : Header) (body : Bytes)
      → Replies json compact model
          (get (codes "Content-Type") header)
          body
          (response_body json model header body)
  unfolding response_body
  response_body-Replies model header body =
      let kind = get (codes "Content-Type") header in
      elim (Bool-cases (is_empty model)) [
        | inl t ↦ unnamed t (rw (t, response_body) refl)
        | inr n ↦ elim (Bool-cases (contains (codes "application/json") kind)) [
          | inl c ↦
              let same : response_body json model header body
                  ≡ renamed json model body (json.decode_object body) =
                rw (n, c, response_body) refl in
              subst (Replies json compact model kind body) (sym same)
                (renamed-Replies model kind body n c)
          | inr c ↦ other_type c (rw (n, c, response_body) refl)
        ]
      ]
