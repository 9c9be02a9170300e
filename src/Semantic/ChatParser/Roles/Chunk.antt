-- ===== src/Semantic/ChatParser/Roles/Chunk.antt =====
-- The role segments of a chunk: the roles of its choices that are new.
use buffered_llm_proxy.Base.{
  ◌≡◌, refl, sym, ap, subst, ◌∙◌, List, [], ◌∷◌, ◌++◌, append-nil, none, some, Bytes, codes,
  if◌then◌else◌, bytes_eq, Bool-cases, Option-cases, inl, inr,
}
use buffered_llm_proxy.Base.Int.{ℤ, int_equal, int_equal_iff, int_eq}
use buffered_llm_proxy.Base.Map.{lookup}
use buffered_llm_proxy.Semantic.Types.{CommonMetadata, ChoiceChunk}
use buffered_llm_proxy.Semantic.Json.{Json}
use buffered_llm_proxy.Semantic.Metadata.{Parser, RawMap, extract_metadata, decoded, present}
use buffered_llm_proxy.Semantic.ChatParser.{
  Roles, reasoning_keys, filled_text, parse_role, parse_reasoning, parse_content, parse_tools,
  parse_delta, parse_finish, delta_object, parse_choice, parse_choices, parse_choices_member,
  parse_usage, parse_chunk,
}
use buffered_llm_proxy.Semantic.ChatParser.Roles.{
  roles_on, roles_on-append, Follows, list_of, changes, last_of, changes-append, last_of-append,
  given_role, given_roles, other-Follows, parse_role-Follows,
}
use buffered_llm_proxy.Semantic.ChatParser.Roles.Silent.{
  no-reasoning, no-content, no-tools, no-finish, roles_on-unknown_delta, no-usage, roles_on-or_raw,
}

module _ (json : Json) where
  role_at-Follows :
      (meta : CommonMetadata) (i j : ℤ) (delta : RawMap) (roles : Roles)
      → Follows i roles
          (if int_equal j i then list_of (given_role json (some delta)) else [])
          (parse_role json meta j delta roles)
  unfolding parse_role
  role_at-Follows meta i j delta roles = elim (Bool-cases (int_equal j i)) [
    | inl t ↦ rw t (
        subst
          (λ k.
            Follows i roles (list_of (given_role json (some delta)))
              (parse_role json meta k delta roles))
          (sym ((int_equal_iff j i).0 t)) (parse_role-Follows json meta i delta roles))
    | inr f ↦ rw f (
        other-Follows meta i j roles (filled_text (decoded json.decode_string (codes "role") delta))
          f)
  ]

  roles_on-parse_delta :
      (meta : CommonMetadata) (i j : ℤ) (bytes : Bytes) (delta : RawMap) (roles : Roles)
      → roles_on i (parse_delta json meta j bytes delta roles).1
        ≡ roles_on i (parse_role json meta j delta roles).1
  unfolding parse_delta
  roles_on-parse_delta meta i j bytes delta roles =
      let ss = (parse_role json meta j delta roles).1 in
      let rs = parse_reasoning json meta j delta reasoning_keys in
      let cs = parse_content json meta j delta in
      let ts = parse_tools json meta j delta in
      roles_on-unknown_delta json meta i bytes delta (ss ++ (rs ++ (cs ++ ts)))
      ∙ roles_on-append i ss (rs ++ (cs ++ ts))
      ∙ ap (λ r. roles_on i ss ++ r)
          (roles_on-append i rs (cs ++ ts)
            ∙ rw (no-reasoning json meta i j delta reasoning_keys) (
                roles_on-append i cs ts
                ∙ rw (no-content json meta i j delta) (no-tools json meta i j delta)))
      ∙ append-nil (roles_on i ss)

  parse_choice-Follows :
      (meta : CommonMetadata) (i : ℤ) (c : ChoiceChunk) (roles : Roles)
      → Follows i roles
          (if int_equal c.index i
            then list_of (given_role json (delta_object json c.delta))
            else [])
          (parse_choice json meta c roles)
  unfolding parse_choice parse_delta changes last_of
  parse_choice-Follows meta i c roles = elim (Option-cases (delta_object json c.delta)) [
    | inl e ↦
        rw (e, parse_choice)
          (elim (Bool-cases (int_equal c.index i)) [
            | inl t ↦ rw t (no-finish json meta i c, refl)
            | inr f ↦ rw f (no-finish json meta i c, refl)
          ])
    | inr (delta, e) ↦
        let (said, kept) = role_at-Follows meta i c.index delta roles in
        rw (e, parse_choice)
          (
            roles_on-append i (parse_delta json meta c.index c.delta delta roles).1
                  (parse_finish json meta c)
                ∙ rw (no-finish json meta i c)
                    (append-nil _ ∙ roles_on-parse_delta meta i c.index c.delta delta roles ∙ said),
            kept,
          )
  ]

  given_roles-cons :
      (i : ℤ) (c : ChoiceChunk) (cs : List ChoiceChunk)
      → given_roles json i (c ∷ cs)
        ≡ (if int_equal c.index i
            then list_of (given_role json (delta_object json c.delta))
            else [])
          ++ given_roles json i cs
  unfolding given_roles
  given_roles-cons i c cs = elim (Bool-cases (int_equal c.index i)) [
    | inl t ↦ rw t refl
    | inr f ↦ rw f refl
  ]

  parse_choices-Follows :
      (meta : CommonMetadata) (i : ℤ) (cs : List ChoiceChunk) (roles : Roles)
      → Follows i roles (given_roles json i cs) (parse_choices json meta cs roles)
  unfolding parse_choices roles_on changes last_of given_roles
  parse_choices-Follows meta i [] roles = (refl, refl)
  parse_choices-Follows meta i (c ∷ cs) roles =
      let read =
        if int_equal c.index i then list_of (given_role json (delta_object json c.delta)) else [] in
      let (said, kept) = parse_choice-Follows meta i c roles in
      let roles' = (parse_choice json meta c roles).0 in
      let (said', kept') = parse_choices-Follows meta i cs roles' in
      let all = given_roles-cons i c cs in
      (
        roles_on-append i (parse_choice json meta c roles).1 (parse_choices json meta cs roles').1
            ∙ ap (λ r. r ++ roles_on i (parse_choices json meta cs roles').1) said
            ∙ ap (λ r. changes (lookup i roles) read ++ r)
                (said' ∙ ap (λ o. changes o (given_roles json i cs)) kept)
            ∙ sym (changes-append (lookup i roles) read (given_roles json i cs))
            ∙ ap (changes (lookup i roles)) (sym all),
        kept'
            ∙ ap (λ o. last_of o (given_roles json i cs)) kept
            ∙ sym (last_of-append (lookup i roles) read (given_roles json i cs))
            ∙ ap (last_of (lookup i roles)) (sym all),
      )

  -- The roles that a chunk gives the choice `i`.
  unfoldable pub chunk_roles : ℤ → RawMap → List Bytes
  chunk_roles i root = elim (present (codes "choices") root) [
    | none ↦ []
    | some r ↦ elim (json.decode_choices r) [ none ↦ [] | some cs ↦ given_roles json i cs ]
  ]

  parse_choices_member-Follows :
      (meta : CommonMetadata) (i : ℤ) (root : RawMap) (roles : Roles)
      → Follows i roles (chunk_roles i root) (parse_choices_member json meta root roles)
  unfolding parse_choices_member chunk_roles roles_on changes last_of
  parse_choices_member-Follows meta i root roles =
      elim (Option-cases (present (codes "choices") root)) [
        | inl e ↦ rw (e, parse_choices_member, chunk_roles) (refl, refl)
        | inr (r, e) ↦ elim (Option-cases (json.decode_choices r)) [
          | inl n ↦ rw (e, parse_choices_member, chunk_roles, n) (refl, refl)
          | inr (cs, n) ↦
              rw (e, parse_choices_member, chunk_roles, n) (parse_choices-Follows meta i cs roles)
        ]
      ]

  -- The role segments that a chunk of chat completions gives a choice are, in order, the roles that
  -- its deltas give that choice and that differ from the role before, the first one from the role
  -- that the parser has seen last; and the parser then has seen the last of them. So a repeated role
  -- makes no role segment, and no new role is lost.
  pub roles_on-parse_chunk :
      (p : Parser) (i : ℤ) (bytes : Bytes) (root : RawMap)
      → let (p', ss) = parse_chunk json p bytes root in
        (roles_on i ss ≡ changes (lookup i p.seen_roles) (chunk_roles i root))
        × (lookup i p'.seen_roles ≡ last_of (lookup i p.seen_roles) (chunk_roles i root))
  unfolding parse_chunk extract_metadata
  roles_on-parse_chunk p i bytes root =
      let q = extract_metadata json p root in
      let ss = (parse_choices_member json q.meta root q.seen_roles).1 in
      let (said, kept) = parse_choices_member-Follows q.meta i root q.seen_roles in
      (
        roles_on-or_raw json q.meta i bytes (ss ++ parse_usage json q.meta root)
            ∙ roles_on-append i ss (parse_usage json q.meta root)
            ∙ rw (no-usage json q.meta i root) (append-nil (roles_on i ss) ∙ said),
        kept,
      )
