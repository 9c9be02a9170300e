-- ===== src/Semantic/ChatParser/Roles.antt =====
-- The role segments of a chunk, for each of its choices.
pub mod Silent
pub mod Chunk
use mathlib.Core.Bool.{true≢false}
use mathlib.Core.Option.{some_inj, none-ne-some}
use buffered_llm_proxy.Base.{
  ◌≡◌, refl, sym, ap, subst, ◌∙◌, Bool, true, false, not, List, [], ◌∷◌, ◌++◌, append_assoc,
  append-nil, Option, none, some, Bytes, codes, is_empty, equal, equal_iff, if◌then◌else◌, bytes_eq,
  arith, Bool-cases, Option-cases, inl, inr,
}
use buffered_llm_proxy.Base.Int.{ℤ, int_equal, int_equal_iff, int_eq}
use buffered_llm_proxy.Base.Map.{lookup, insert, lookup-insert}
use buffered_llm_proxy.Semantic.Types.{CommonMetadata, ChoiceChunk}
use buffered_llm_proxy.Semantic.Json.{Json}
use buffered_llm_proxy.Semantic.Segment.{Segment, role}
use buffered_llm_proxy.Semantic.Metadata.{
  Parser, RawMap, extract_metadata, decode_extras, decoded, present, is_present,
}
use buffered_llm_proxy.Semantic.ChatParser.{
  Roles, reasoning_keys, known_delta_keys, filled_text, is_new_role, read_role, parse_role,
  parse_reasoning, parse_content, parse_tools, unknown_delta, parse_delta, parse_finish,
  delta_object, parse_choice, parse_choices, parse_choices_member, parse_usage, or_raw, parse_chunk,
}

-- The roles that segments give the choice `i`, in order.
abbrev pub role_on : ℤ → Segment → List Bytes
role_on i (role seg) = if int_equal seg.choice_index i then seg.role ∷ [] else []
role_on i _ = []

unfoldable pub roles_on : ℤ → List Segment → List Bytes
roles_on i [] = []
roles_on i (s ∷ ss) = role_on i s ++ roles_on i ss

abbrev pub is_same : Option Bytes → Bytes → Bool
is_same none s = false
is_same (some old) s = equal old s

-- The roles of a list that differ from the one before, where `old` is before the first.
unfoldable pub changes : Option Bytes → List Bytes → List Bytes
changes old [] = []
changes old (s ∷ ss) = let rest = changes (some s) ss in if is_same old s then rest else s ∷ rest

unfoldable pub last_of : Option Bytes → List Bytes → Option Bytes
last_of old [] = old
last_of old (s ∷ ss) = last_of (some s) ss

pub changes-append :
    (old : Option Bytes) (xs ys : List Bytes)
    → changes old (xs ++ ys) ≡ changes old xs ++ changes (last_of old xs) ys
unfolding changes last_of
changes-append old [] ys = refl
changes-append old (s ∷ xs) ys = elim (Bool-cases (is_same old s)) [
  | inl t ↦ rw t (changes-append (some s) xs ys)
  | inr f ↦ rw f (ap (λ r. s ∷ r) (changes-append (some s) xs ys))
]

pub last_of-append :
    (old : Option Bytes) (xs ys : List Bytes) → last_of old (xs ++ ys) ≡ last_of (last_of old xs) ys
unfolding last_of
last_of-append old [] ys = refl
last_of-append old (s ∷ xs) ys = last_of-append (some s) xs ys

pub roles_on-append :
    (i : ℤ) (a b : List Segment) → roles_on i (a ++ b) ≡ roles_on i a ++ roles_on i b
unfolding roles_on
roles_on-append i [] b = refl
roles_on-append i (s ∷ a) b =
    ap (λ r. role_on i s ++ r) (roles_on-append i a b)
    ∙ sym (append_assoc (role_on i s) (roles_on i a) (roles_on i b))

abbrev pub list_of : Option Bytes → List Bytes
list_of none = []
list_of (some s) = s ∷ []

-- Segments and roles are what the list of read roles asks for.
abbrev pub Follows : ℤ → Roles → List Bytes → Roles × List Segment → Type 0
Follows i roles read r =
    (roles_on i r.1 ≡ changes (lookup i roles) read)
    × (lookup i r.0 ≡ last_of (lookup i roles) read)

is_same-some : (o : Option Bytes) (s : Bytes) → is_same o s ≡ true → o ≡ some s
is_same-some none s t = absurd (true≢false (sym t))
is_same-some (some old) s t = ap some ((equal_iff old s).0 t)

is_new_role-is_same :
    (i : ℤ) (s : Bytes) (roles : Roles)
    → is_empty s ≡ false
    → is_new_role i s roles ≡ not (is_same (lookup i roles) s)
unfolding is_new_role
is_new_role-is_same i s roles f = elim (Option-cases (lookup i roles)) [
  | inl e ↦ rw (e, f, is_new_role) refl
  | inr (old, e) ↦ rw (e, is_new_role) refl
]

some-Follows :
    (meta : CommonMetadata) (i : ℤ) (roles : Roles) (s : Bytes)
    → is_empty s ≡ false
    → Follows i roles (s ∷ []) (read_role meta i roles (some s))
unfolding read_role roles_on changes last_of
some-Follows meta i roles s f =
    let new = is_new_role-is_same i s roles f in
    elim (Bool-cases (is_same (lookup i roles) s)) [
      | inl t ↦ rw (new, t, read_role) (refl, is_same-some (lookup i roles) s t)
      | inr n ↦
          rw (new, n, read_role)
            (
              ground (arith, int_equal_iff i i),
              ground (arith, lookup-insert i i s roles, int_equal_iff i i),
            )
    ]

-- A choice with another index.
pub other-Follows :
    (meta : CommonMetadata) (i j : ℤ) (roles : Roles) (o : Option Bytes)
    → int_equal j i ≡ false
    → Follows i roles [] (read_role meta j roles o)
unfolding read_role roles_on changes last_of
other-Follows meta i j roles none k = (refl, refl)
other-Follows meta i j roles (some s) k = elim (Bool-cases (is_new_role j s roles)) [
  | inl t ↦ rw (t, read_role) (ground (arith, k), ground (arith, k, lookup-insert j i s roles))
  | inr f ↦ rw (f, read_role) (refl, refl)
]

-- The role of a delta that is read, if there is one and it is not empty.
abbrev pub given_role : Json → Option RawMap → Option Bytes
given_role json none = none
given_role json (some delta) = filled_text (decoded json.decode_string (codes "role") delta)

-- The roles that the choices of a chunk give the choice `i`.
unfoldable pub given_roles : Json → ℤ → List ChoiceChunk → List Bytes
given_roles json i [] = []
given_roles json i (c ∷ cs) =
    let rest = given_roles json i cs in
    if int_equal c.index i
    then list_of (given_role json (delta_object json c.delta)) ++ rest
    else rest

filled_text-some : (o : Option Bytes) (s : Bytes) → filled_text o ≡ some s → is_empty s ≡ false
filled_text-some none s e = absurd (none-ne-some s e)
filled_text-some (some v) s e = elim (Bool-cases (is_empty v)) [
  | inl t ↦ absurd (none-ne-some s (rw t at e))
  | inr f ↦ ap is_empty (sym (some_inj.0 (rw f at e))) ∙ f
]

module _ (json : Json) where
  pub parse_role-Follows :
      (meta : CommonMetadata) (i : ℤ) (delta : RawMap) (roles : Roles)
      → Follows i roles
          (list_of (given_role json (some delta)))
          (parse_role json meta i delta roles)
  unfolding parse_role read_role roles_on changes last_of
  parse_role-Follows meta i delta roles =
      let o = decoded json.decode_string (codes "role") delta in
      elim (Option-cases (filled_text o)) [
        | inl e ↦ rw (e, parse_role) (refl, refl)
        | inr (s, e) ↦ rw (e, parse_role) (some-Follows meta i roles s (filled_text-some o s e))
      ]
