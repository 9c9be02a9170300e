-- ===== src/Compress/Accept/Quality.antt =====
-- The encoding that is chosen, by the qualities that the header gives.
use buffered_llm_proxy.Base.{
  ℕ, ◌≡◌, refl, sym, ap, ◌∙◌, Bool, true, false, not, ◌&&◌, ◌||◌, List, [], ◌∷◌, Option, none, some,
  Bytes, codes, is_empty, equal, equal_iff, if◌then◌else◌, arith, Bool-cases, inl, inr,
}
use buffered_llm_proxy.Base.Float.{float_lt, float_le, float_zero}
use buffered_llm_proxy.Base.Split.{split}
use buffered_llm_proxy.Base.Trim.{trim_space}
use buffered_llm_proxy.Compress.Accept.{
  Encoding, encoding_none, encoding_zstd, encoding_gzip, Item, Items, no_item, no_items, read_part,
  store, read_parts, or_star, choose, select_encoding,
}

abbrev pub Entries : Type 0
Entries = List (Bytes × ℕ)

-- The names and qualities in the header, its empty parts left out.
unfoldable pub entries : (Bytes → Option ℕ) → List Bytes → Entries
entries parse_float [] = []
entries parse_float (part ∷ parts) =
    let rest = entries parse_float parts in
    if is_empty (trim_space part) then rest else read_part parse_float (trim_space part) ∷ rest

-- The quality of a name: the last entry counts.
unfoldable pub last_of : Bytes → Entries → Option ℕ
last_of name [] = none
last_of name ((n, q) ∷ es) = elim (last_of name es) [
  | some r ↦ some r
  | none ↦ if equal n name then some q else none
]

-- An encoding that is not named has the quality of the star.
unfoldable pub quality : Entries → Bytes → Option ℕ
unfolding last_of
quality es name = elim (last_of name es) [ some q ↦ some q | none ↦ last_of (codes "*") es ]

abbrev pub is_wanted : Option ℕ → Bool
is_wanted none = false
is_wanted (some q) = float_lt float_zero q

abbrev pub is_at_least : Option ℕ → Option ℕ → Bool
is_at_least (some a) (some b) = float_le b a
is_at_least _ _ = false

-- zstd if it is wanted and gzip is not wanted more; else gzip if it is wanted.
unfoldable pub preferred : Option ℕ → Option ℕ → Encoding
preferred zstd gzip =
    if is_wanted zstd && (not (is_wanted gzip) || is_at_least zstd gzip)
    then encoding_zstd
    else if is_wanted gzip
    then encoding_gzip
    else encoding_none

abbrev item_or : Option ℕ → Item → Item
item_or none item = item
item_or (some q) item = record { q = q; present = true }

item_or-item_or :
    (o : Option ℕ) (n name : Bytes) (q : ℕ) (item : Item)
    → item_or (elim o [ some r ↦ some r | none ↦ if equal n name then some q else none ]) item
      ≡ item_or o (if equal n name then record { q = q; present = true } else item)
item_or-item_or none n name q item = ground arith
item_or-item_or (some r) n name q item = refl

-- An item that an entry was stored in, and the entries behind it.
item_or-cons :
    (name n : Bytes) (q : ℕ) (es : Entries) (old new : Item)
    → new ≡ (if equal n name then record { q = q; present = true } else old)
    → item_or (last_of name es) new ≡ item_or (last_of name ((n, q) ∷ es)) old
unfolding last_of
item_or-cons name n q es old new e =
    ap (item_or (last_of name es)) e ∙ sym (item_or-item_or (last_of name es) n name q old)

-- What one entry does to the three items.
store_lem :
    (n : Bytes) (q : ℕ) (items : Items)
    → ((store (n, q) items).zstd
        ≡ (if equal n (codes "zstd") then record { q = q; present = true } else items.zstd))
      × ((store (n, q) items).gzip
          ≡ (if equal n (codes "gzip") then record { q = q; present = true } else items.gzip))
      × ((store (n, q) items).star
          ≡ (if equal n (codes "*") then record { q = q; present = true } else items.star))
unfolding store
store_lem n q items =
    ground (arith, equal_iff n (codes "zstd"), equal_iff n (codes "gzip"), equal_iff n (codes "*"))

-- The loop leaves in each item the last entry of its name.
read_parts-last_of :
    (parse_float : Bytes → Option ℕ) (parts : List Bytes) (items : Items)
    → let es = entries parse_float parts in
      let out = read_parts parse_float parts items in
      (out.zstd ≡ item_or (last_of (codes "zstd") es) items.zstd)
      × (out.gzip ≡ item_or (last_of (codes "gzip") es) items.gzip)
      × (out.star ≡ item_or (last_of (codes "*") es) items.star)
unfolding read_parts entries last_of
read_parts-last_of parse_float [] items = (refl, refl, refl)
read_parts-last_of parse_float (part ∷ parts) items =
    elim (Bool-cases (is_empty (trim_space part))) [
      | inl t ↦ rw (t, read_parts, entries) (read_parts-last_of parse_float parts items)
      | inr f ↦
          let (n, q) = read_part parse_float (trim_space part) in
          let es = entries parse_float parts in
          let next = store (n, q) items in
          let (z, g, s) = read_parts-last_of parse_float parts next in
          let (z', g', s') = store_lem n q items in
          rw (f, read_parts, entries)
            (
              z ∙ item_or-cons (codes "zstd") n q es items.zstd next.zstd z',
              g ∙ item_or-cons (codes "gzip") n q es items.gzip next.gzip g',
              s ∙ item_or-cons (codes "*") n q es items.star next.star s',
            )
    ]

or_star-item_or :
    (o star : Option ℕ)
    → or_star (item_or star no_item) (item_or o no_item)
      ≡ item_or (elim o [ some q ↦ some q | none ↦ star ]) no_item
or_star-item_or none none = refl
or_star-item_or none (some q) = refl
or_star-item_or (some q) star = ground arith

choose-preferred : (z g : Option ℕ) → choose (item_or z no_item) (item_or g no_item) ≡ preferred z g
unfolding choose preferred
choose-preferred none none = refl
choose-preferred none (some b) = ground arith
choose-preferred (some a) none = ground arith
choose-preferred (some a) (some b) = ground arith

-- The choice is the one of the two qualities: an encoding that is not named has the quality of the
-- star, the last entry of a name counts, an encoding without a quality above 0 is never chosen, of
-- two such the better is, and zstd where they are equal.
pub select_encoding-eq-preferred :
    (parse_float : Bytes → Option ℕ) (header : Bytes)
    → let es = entries parse_float (split b',' header) in
      select_encoding parse_float header
      ≡ preferred (quality es (codes "zstd")) (quality es (codes "gzip"))
unfolding select_encoding quality split entries
select_encoding-eq-preferred parse_float [] = unfold preferred trim_space in refl
select_encoding-eq-preferred parse_float (c ∷ header) =
    let es = entries parse_float (split b',' (c ∷ header)) in
    let star = last_of (codes "*") es in
    let (z, g, s) = read_parts-last_of parse_float (split b',' (c ∷ header)) no_items in
    rw
      (
        z,
        g,
        s,
        or_star-item_or (last_of (codes "zstd") es) star,
        or_star-item_or (last_of (codes "gzip") es) star,
      )
      (choose-preferred (quality es (codes "zstd")) (quality es (codes "gzip")))
