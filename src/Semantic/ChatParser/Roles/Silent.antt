-- ===== src/Semantic/ChatParser/Roles/Silent.antt =====
-- The parts of a chunk that give no role segment.
use buffered_llm_proxy.Base.{
  ◌≡◌, refl, List, [], ◌∷◌, Bytes, codes, is_empty, bytes_eq, Bool-cases, Option-cases, inl, inr,
}
use buffered_llm_proxy.Base.Int.{ℤ, int_eq}
use buffered_llm_proxy.Semantic.Types.{CommonMetadata, ChoiceChunk}
use buffered_llm_proxy.Semantic.Json.{Json}
use buffered_llm_proxy.Semantic.Segment.{Segment}
use buffered_llm_proxy.Semantic.Metadata.{RawMap, decode_extras, decoded, present, is_present}
use buffered_llm_proxy.Semantic.ChatParser.{
  known_delta_keys, filled_text, parse_reasoning, parse_content, parse_tools, unknown_delta,
  parse_finish, parse_usage, or_raw,
}
use buffered_llm_proxy.Semantic.ChatParser.Roles.{roles_on}

module _ (json : Json) where
  pub no-reasoning :
      (meta : CommonMetadata) (i j : ℤ) (delta : RawMap) (keys : List Bytes)
      → roles_on i (parse_reasoning json meta j delta keys) ≡ []
  unfolding parse_reasoning roles_on
  no-reasoning meta i j delta [] = refl
  no-reasoning meta i j delta (key ∷ keys) =
      elim (Option-cases (filled_text (decoded json.decode_string key delta))) [
        | inl e ↦ rw (e, parse_reasoning) (no-reasoning meta i j delta keys)
        | inr (s, e) ↦ rw (e, parse_reasoning) refl
      ]

  pub no-content :
      (meta : CommonMetadata) (i j : ℤ) (delta : RawMap)
      → roles_on i (parse_content json meta j delta) ≡ []
  unfolding parse_content roles_on
  no-content meta i j delta =
      elim (Option-cases (decoded json.decode_string_pointer (codes "content") delta)) [
        | inl e ↦ rw (e, parse_content) refl
        | inr (o, e) ↦ elim (Option-cases (filled_text o)) [
          | inl n ↦ rw (e, parse_content, n) refl
          | inr (s, n) ↦ rw (e, parse_content, n) refl
        ]
      ]

  pub no-tools :
      (meta : CommonMetadata) (i j : ℤ) (delta : RawMap)
      → roles_on i (parse_tools json meta j delta) ≡ []
  unfolding parse_tools roles_on
  no-tools meta i j delta = elim (Option-cases (present (codes "tool_calls") delta)) [
    | inl e ↦ rw (e, parse_tools) refl
    | inr (r, e) ↦ elim (Option-cases (json.decode_tool_calls r)) [
      | inl n ↦ rw (e, parse_tools, n) refl
      | inr (tcs, n) ↦ elim (Bool-cases (is_empty tcs)) [
        | inl t ↦ rw (e, parse_tools, n, t) refl
        | inr f ↦ rw (e, parse_tools, n, f) refl
      ]
    ]
  ]

  pub no-finish :
      (meta : CommonMetadata) (i : ℤ) (choice : ChoiceChunk)
      → roles_on i (parse_finish json meta choice) ≡ []
  unfolding parse_finish roles_on
  no-finish meta i choice = elim (Option-cases choice.finish_reason) [
    | inl e ↦ rw (e, parse_finish) refl
    | inr (s, e) ↦ elim (Bool-cases (is_present s)) [
      | inl t ↦ rw (e, parse_finish, t) refl
      | inr f ↦ rw (e, parse_finish, f) refl
    ]
  ]

  pub roles_on-unknown_delta :
      (meta : CommonMetadata) (i : ℤ) (bytes : Bytes) (delta : RawMap) (ss : List Segment)
      → roles_on i (unknown_delta json meta bytes delta ss) ≡ roles_on i ss
  unfolding unknown_delta roles_on
  roles_on-unknown_delta meta i bytes delta [] =
      elim (Bool-cases (is_empty (decode_extras json known_delta_keys delta []))) [
        | inl t ↦ rw (t, unknown_delta) refl
        | inr f ↦ rw (f, unknown_delta) refl
      ]
  roles_on-unknown_delta meta i bytes delta (s ∷ ss) = refl

  pub no-usage :
      (meta : CommonMetadata) (i : ℤ) (root : RawMap) → roles_on i (parse_usage json meta root) ≡ []
  unfolding parse_usage roles_on
  no-usage meta i root = elim (Option-cases (present (codes "usage") root)) [
    | inl e ↦ rw (e, parse_usage) refl
    | inr (r, e) ↦ elim (Option-cases (json.decode_value r)) [
      | inl n ↦ rw (e, parse_usage, n) refl
      | inr (v, n) ↦ rw (e, parse_usage, n) refl
    ]
  ]

  pub roles_on-or_raw :
      (meta : CommonMetadata) (i : ℤ) (bytes : Bytes) (ss : List Segment)
      → roles_on i (or_raw json meta bytes ss) ≡ roles_on i ss
  unfolding or_raw roles_on
  roles_on-or_raw meta i bytes [] = refl
  roles_on-or_raw meta i bytes (s ∷ ss) = refl
