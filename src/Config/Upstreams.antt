-- ===== src/Config/Upstreams.antt =====
-- The upstreams of a configuration.
use buffered_llm_proxy.Base.{
  ◌≡◌, refl, ◌∙◌, Bool, true, false, not, ◌&&◌, ◌||◌, List, [], ◌∷◌, ◌++◌, Option, none, some,
  Bytes, codes, is_empty, equal, equal_iff, if◌then◌else◌, Bool-cases, if_either, Option-cases, inl,
  inr, bytes_eq, arith,
}
use buffered_llm_proxy.Base.Map.{lookup, insert, lookup-insert}
use buffered_llm_proxy.Base.Split.{cut_at, contains, has_byte}
use buffered_llm_proxy.Base.Trim.{trim_space}
use buffered_llm_proxy.Config.{
  Url, UpstreamConfig, Parsed, ok, failed, split_name, split_key, upstream_of, is_seen, Seen,
  add_upstream, parse_upstream, add_part, add_parts, default_key, no_upstreams, checked_upstream,
  and_then,
}
use buffered_llm_proxy.Config.Settings.{KeyMap}

-- An upstream has a scheme, a host, and neither a user nor a fragment, and no slash in its name.
pub record IsUpstream (u : UpstreamConfig) : Type 0 where
  pub scheme_given : is_empty u.url.scheme ≡ false
  pub host_given : is_empty u.url.host ≡ false
  pub no_user : u.url.user ≡ none
  pub no_fragment : u.url.fragment ≡ []
  pub no_slash : has_byte b'/' u.name ≡ false

abbrev pub AreUpstreams : List UpstreamConfig → Type 0
AreUpstreams [] = Unit {0}
AreUpstreams (u ∷ us) = IsUpstream u × AreUpstreams us

abbrev pub is_taken : Bytes → List UpstreamConfig → Bool
is_taken name [] = false
is_taken name (u ∷ us) = equal u.name name || is_taken name us

-- No two upstreams have the same name, unless they have none.
abbrev pub are_distinct : List UpstreamConfig → Bool
are_distinct [] = true
are_distinct (u ∷ us) = (is_empty u.name || not (is_taken u.name us)) && are_distinct us

AreUpstreams-snoc :
    (us : List UpstreamConfig) (u : UpstreamConfig)
    → AreUpstreams us
    → IsUpstream u
    → AreUpstreams (us ++ (u ∷ []))
AreUpstreams-snoc [] u vs v = (v, tt)
AreUpstreams-snoc (w ∷ us) u (x, vs) v = (x, AreUpstreams-snoc us u vs v)

is_taken-snoc :
    (name : Bytes) (us : List UpstreamConfig) (u : UpstreamConfig)
    → is_taken name (us ++ (u ∷ [])) ≡ (is_taken name us || equal u.name name)
is_taken-snoc name [] u = ground arith
is_taken-snoc name (w ∷ us) u = ground (arith, is_taken-snoc name us u)

are_distinct-snoc :
    (us : List UpstreamConfig) (u : UpstreamConfig)
    → are_distinct us ≡ true
    → (is_empty u.name || not (is_taken u.name us)) ≡ true
    → are_distinct (us ++ (u ∷ [])) ≡ true
are_distinct-snoc [] u d n = ground arith
are_distinct-snoc (w ∷ us) u d n = ground (
  arith,
  d,
  n,
  is_taken-snoc w.name us u,
  equal_iff w.name u.name,
  equal_iff u.name w.name,
  are_distinct-snoc us u (ground (arith, d)) (ground (arith, n)),
)

-- What the loop keeps: the names that were seen are those of the upstreams.
pub record IsSeen (s : Seen) : Type 0 where
  pub upstreams_are : AreUpstreams s.upstreams
  pub distinct : are_distinct s.upstreams ≡ true
  pub names_are :
      (name : Bytes)
      → is_seen (lookup name s.names) ≡ (not (is_empty name) && is_taken name s.upstreams)

pub no_upstreams-IsSeen : IsSeen no_upstreams
unfolding lookup
no_upstreams-IsSeen = record {
  upstreams_are = tt;
  distinct = refl;
  names_are = λ name. ground arith;
}

-- What was parsed, if it was, has the property.
abbrev pub OnOk : {A : Type 0} → (A → Type 0) → Parsed A → Type 0
OnOk P (ok a) = P a
OnOk P (failed _) = Unit {0}

unnamed-IsSeen :
    (u : UpstreamConfig) (s : Seen)
    → IsSeen s
    → IsUpstream u
    → is_empty u.name ≡ true
    → IsSeen (record s { upstreams = s.upstreams ++ (u ∷ []) })
unnamed-IsSeen u s v x t = record {
  upstreams_are = AreUpstreams-snoc s.upstreams u v.upstreams_are x;
  distinct = are_distinct-snoc s.upstreams u v.distinct (ground (arith, t));
  names_are = λ name.
      v.names_are name
      ∙ rw (is_taken-snoc name s.upstreams u)
          (ground (arith, t, equal_iff u.name name, is_taken-snoc name s.upstreams u));
}

named-IsSeen :
    (u : UpstreamConfig) (s : Seen)
    → IsSeen s
    → IsUpstream u
    → is_empty u.name ≡ false
    → is_seen (lookup u.name s.names) ≡ false
    → IsSeen (record { upstreams = s.upstreams ++ (u ∷ []); names = insert u.name tt s.names })
named-IsSeen u s v x f n = record {
  upstreams_are = AreUpstreams-snoc s.upstreams u v.upstreams_are x;
  distinct = are_distinct-snoc s.upstreams u v.distinct (ground (arith, f, n, v.names_are u.name));
  names_are = λ name.
      rw (lookup-insert u.name name tt s.names, is_taken-snoc name s.upstreams u)
        (ground (arith, f, v.names_are name, equal_iff u.name name));
}

add_upstream-IsSeen :
    (u : UpstreamConfig) (s : Seen) → IsSeen s → IsUpstream u → OnOk IsSeen (add_upstream u s)
unfolding add_upstream
add_upstream-IsSeen u s v x = elim (Bool-cases (is_empty u.name)) [
  | inl t ↦ rw (t, add_upstream) (unnamed-IsSeen u s v x t)
  | inr f ↦ elim (Bool-cases (is_seen (lookup u.name s.names))) [
    | inl t ↦ rw (f, t, add_upstream) tt
    | inr n ↦ rw (f, n, add_upstream) (named-IsSeen u s v x f n)
  ]
]

no_slash-named :
    (before after part : Bytes)
    → has_byte b'/'
        (if◌then◌else◌ {A = Bytes × Bytes}
          (not (contains (codes "://") before) && not (has_byte b'/' before))
          (before, after)
          ([], part)).0
      ≡ false
unfolding has_byte
no_slash-named before after part = ground arith

no_slash-split_name : (part : Bytes) → has_byte b'/' (split_name part).0 ≡ false
unfolding split_name has_byte
no_slash-split_name part = elim (Option-cases (cut_at b'=' part)) [
  | inl n ↦ rw (n, split_name) refl
  | inr ((before, after), e) ↦
      rw (e, split_name) (no_slash-named (trim_space before) (trim_space after) part)
]

checked_upstream-IsUpstream :
    (keys : KeyMap) (name target key : Bytes) (u : Option Url)
    → has_byte b'/' name ≡ false
    → OnOk IsUpstream (checked_upstream keys name target key u)
unfolding checked_upstream upstream_of
checked_upstream-IsUpstream keys name target key none n = tt
checked_upstream-IsUpstream keys name target key (some u) n =
    elim (Bool-cases (is_empty u.scheme || is_empty u.host)) [
      | inl t ↦ rw (t, checked_upstream) tt
      | inr f ↦
          rw (f, checked_upstream)
            (record {
              scheme_given = ground (arith, f);
              host_given = ground (arith, f);
              no_user = refl;
              no_fragment = refl;
              no_slash = n;
            })
    ]

pub OnOk-and_then :
    {A B : Type 0} (P : A → Type 0) (Q : B → Type 0) (r : Parsed A) (f : A → Parsed B)
    → OnOk P r
    → ((a : A) → P a → OnOk Q (f a))
    → OnOk Q (and_then r f)
OnOk-and_then P Q (ok a) f p q = q a p
OnOk-and_then P Q (failed e) f p q = tt

module _ (parse_url : Bytes → Option Url) (keys : KeyMap) where
  add_part-IsSeen :
      (part : Bytes) (s : Seen) → IsSeen s → OnOk IsSeen (add_part parse_url keys part s)
  unfolding add_part parse_upstream
  add_part-IsSeen part s v =
      let (name, text) = split_name part in
      let (target, key) = split_key text in
      OnOk-and_then IsUpstream IsSeen (parse_upstream parse_url keys part) (λ u. add_upstream u s)
        (checked_upstream-IsUpstream keys name target key (parse_url target)
          (no_slash-split_name part))
        (λ u x. add_upstream-IsSeen u s v x)

  pub add_parts-IsSeen :
      (parts : List Bytes) (s : Seen) → IsSeen s → OnOk IsSeen (add_parts parse_url keys parts s)
  unfolding add_parts
  add_parts-IsSeen [] s v = v
  add_parts-IsSeen (part ∷ parts) s v =
      OnOk-and_then IsSeen IsSeen
        (if is_empty (trim_space part) then ok s else add_part parse_url keys (trim_space part) s)
        (λ s'. add_parts parse_url keys parts s')
        (if_either (OnOk IsSeen) (is_empty (trim_space part)) v
          (add_part-IsSeen (trim_space part) s v))
        (λ s' v'. add_parts-IsSeen parts s' v')

-- The upstreams of a configuration.
pub record AreConfigured (us : List UpstreamConfig) : Type 0 where
  pub all_are : AreUpstreams us
  pub distinct : are_distinct us ≡ true

pub default_key-AreConfigured :
    (keys : KeyMap) (us : List UpstreamConfig)
    → AreConfigured us
    → AreConfigured (default_key keys us)
unfolding default_key
default_key-AreConfigured keys [] v = v
default_key-AreConfigured keys (u ∷ w ∷ us) v = v
default_key-AreConfigured keys (u ∷ []) v = elim (Bool-cases (is_empty u.api_key)) [
  | inl t ↦
      let x = v.all_are.0 in
      rw (t, default_key)
        (record {
          all_are = (
            record {
              scheme_given = x.scheme_given;
              host_given = x.host_given;
              no_user = x.no_user;
              no_fragment = x.no_fragment;
              no_slash = x.no_slash;
            },
            tt,
          );
          distinct = v.distinct;
        })
  | inr f ↦ rw (f, default_key) v
]
