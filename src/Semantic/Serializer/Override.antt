-- ===== src/Semantic/Serializer/Override.antt =====
-- What the entries of `baseMap` are when the extras of the parser are foreign to it.
use buffered_llm_proxy.Base.{
  ◌≡◌, refl, sym, ◌∙◌, true, false, [], ◌∷◌, none, some, Bytes, codes, is_empty, equal, equal_iff,
  if◌then◌else◌, bytes_eq, arith, Bool-cases, Option-cases, inl, inr, ap,
}
use mathlib.Core.Bool.{true≢false}
use buffered_llm_proxy.Base.Int.{ℤ}
use buffered_llm_proxy.Base.Map.{lookup, insert, insert_all, lookup-insert}
use buffered_llm_proxy.Semantic.Types.{
  Value, text, CommonMetadata, ExtraRef, no_extra, parser_extra,
}
use buffered_llm_proxy.Semantic.Metadata.{is_known, known_keys, decode_extras, RawMap}
use buffered_llm_proxy.Semantic.Json.{Json}
use buffered_llm_proxy.Semantic.Serializer.{
  Serializer, Map, put_text, extra_of, base_entries, base_map, model_of,
}

-- No key of `m` is one that the parser knows.
abbrev pub IsForeign : Map → Type 0
IsForeign m = (k : Bytes) → is_known k known_keys ≡ true → lookup k m ≡ none

pub lookup-insert_all-foreign :
    (k : Bytes) (dst src : Map) → lookup k src ≡ none → lookup k (insert_all dst src) ≡ lookup k dst
unfolding lookup insert insert_all
lookup-insert_all-foreign k dst [] h = refl
lookup-insert_all-foreign k dst ((j, v) ∷ src) h =
    ground (arith, lookup-insert_all-foreign k (insert j v dst) src, lookup-insert j k v dst)

extra_of-IsForeign :
    (e : ExtraRef) (extras : Map) → IsForeign extras → IsForeign (extra_of e extras)
unfolding lookup
extra_of-IsForeign no_extra extras f k h = refl
extra_of-IsForeign parser_extra extras f k h = f k h

-- Under a key that the parser knows, the extras change nothing that `baseMap` wrote.
pub lookup-base_map :
    (s : Serializer) (now : ℤ) (extras : Map) (meta : CommonMetadata) (k : Bytes)
    → IsForeign extras
    → is_known k known_keys ≡ true
    → lookup k (base_map s now extras meta) ≡ lookup k (base_entries s now meta)
unfolding base_map
lookup-base_map s now extras meta k f h =
    lookup-insert_all-foreign k (base_entries s now meta) (extra_of meta.extra extras)
      (extra_of-IsForeign meta.extra extras f k h)

pub lookup-put_text :
    (k j v : Bytes) (m : Map)
    → lookup j (put_text k v m)
      ≡ (if is_empty v then lookup j m else if equal k j then some (text v) else lookup j m)
unfolding put_text
lookup-put_text k j [] m = refl
lookup-put_text k j (c ∷ v) m = lookup-insert k j (text (c ∷ v)) m

lookup-put_text-other :
    (k j v : Bytes) (m : Map) → equal k j ≡ false → lookup j (put_text k v m) ≡ lookup j m
lookup-put_text-other k j v m h = ground (arith, lookup-put_text k j v m)

pub lookup-insert-other :
    (k j : Bytes) (v : Value) (m : Map) → equal k j ≡ false → lookup j (insert k v m) ≡ lookup j m
lookup-insert-other k j v m h = ground (arith, lookup-insert k j v m)

lookup-put_text-first :
    (k v : Bytes) (m : Map)
    → equal k k ≡ true
    → lookup k m ≡ none
    → lookup k (put_text k v m) ≡ (if is_empty v then none else some (text v))
lookup-put_text-first k v m h e = ground (arith, lookup-put_text k k v m)

base_entries-model :
    (s : Serializer) (now : ℤ) (meta : CommonMetadata)
    → lookup (codes "model") (base_entries s now meta)
      ≡ (if is_empty (model_of s meta) then none else some (text (model_of s meta)))
unfolding base_entries lookup equal
base_entries-model s now meta =
    lookup-put_text-other (codes "service_tier") (codes "model") _ _ refl
    ∙ lookup-put_text-other (codes "system_fingerprint") (codes "model") _ _ refl
    ∙ lookup-put_text-first (codes "model") (model_of s meta) _ refl (
        lookup-insert-other (codes "created") (codes "model") _ _ refl
        ∙ lookup-insert-other (codes "object") (codes "model") _ _ refl
        ∙ lookup-put_text-other (codes "id") (codes "model") _ _ refl)

-- The model that `baseMap` writes: the override, or that of the metadata, or none if both are empty.
pub base_map-model :
    (s : Serializer) (now : ℤ) (extras : Map) (meta : CommonMetadata)
    → IsForeign extras
    → lookup (codes "model") (base_map s now extras meta) ≡ (
        if is_empty s.model_override
        then (if is_empty meta.model then none else some (text meta.model))
        else some (text s.model_override))
unfolding is_known equal
base_map-model s now extras meta f =
    lookup-base_map s now extras meta (codes "model") f refl
    ∙ base_entries-model s now meta
    ∙ ground arith

insert-IsForeign :
    (j : Bytes) (v : Value) (extras : Map)
    → is_known j known_keys ≡ false
    → IsForeign extras
    → IsForeign (insert j v extras)
insert-IsForeign j v extras n f k h = elim (Bool-cases (equal j k)) [
  | inl t ↦
      absurd (true≢false (sym h ∙ ap (λ k. is_known k known_keys) (sym ((equal_iff j k).0 t)) ∙ n))
  | inr e ↦ lookup-insert-other j k v extras e ∙ f k h
]

-- What the parser adds to its extras is foreign to the keys that it knows.
pub decode_extras-IsForeign :
    (json : Json) (root : RawMap) (extras : Map)
    → IsForeign extras
    → IsForeign (decode_extras json known_keys root extras)
unfolding decode_extras
decode_extras-IsForeign json [] extras f k h = f k h
decode_extras-IsForeign json ((j, r) ∷ root) extras f k h =
    elim (Bool-cases (is_known j known_keys)) [
      | inl t ↦ rw (t, decode_extras) (decode_extras-IsForeign json root extras f k h)
      | inr n ↦ elim (Option-cases (json.decode_value r)) [
        | inl e ↦ rw (n, e, decode_extras) (decode_extras-IsForeign json root extras f k h)
        | inr (v, e) ↦
            rw (n, e, decode_extras)
              (decode_extras-IsForeign json root (insert j v extras)
                (insert-IsForeign j v extras n f) k h)
      ]
    ]
