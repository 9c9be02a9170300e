-- ===== src/Compress/Accept.antt =====
-- `SelectEncoding`. `strconv.ParseFloat` is a parameter; its results are the 64 bits of a float64.
pub mod Quality
use buffered_llm_proxy.Base.{
  ℕ, Bool, true, false, not, ◌&&◌, List, [], ◌∷◌, Option, none, some, Bytes, codes, is_empty, equal,
  has_prefix, if◌then◌else◌,
}
use buffered_llm_proxy.Base.Float.{float_lt, float_le, float_zero, float_one}
use buffered_llm_proxy.Base.Lower.{to_lower}
use buffered_llm_proxy.Base.Split.{split, cut_at}
use buffered_llm_proxy.Base.Trim.{trim_space}

pub data Encoding : Type 0 where
  encoding_none encoding_zstd encoding_gzip : Encoding

pub record Item : Type 0 where
  pub q : ℕ
  pub present : Bool

-- `zstdItem`, `gzipItem`, `starItem`
pub record Items : Type 0 where
  pub zstd : Item
  pub gzip : Item
  pub star : Item

abbrev pub no_item : Item
no_item = record { q = float_zero; present = false }

abbrev pub no_items : Items
no_items = record { zstd = no_item; gzip = no_item; star = no_item }

abbrev skip_two : Bytes → Bytes
skip_two (_ ∷ _ ∷ s) = s
skip_two _ = []

unfoldable pub clamp : ℕ → ℕ
clamp val =
    if float_lt val float_zero
    then float_zero
    else if float_lt float_one val
    then float_one
    else val

unfoldable pub store : Bytes × ℕ → Items → Items
store (name, q) items =
    if equal name (codes "zstd")
    then record items { zstd = record { q = q; present = true } }
    else if equal name (codes "gzip")
    then record items { gzip = record { q = q; present = true } }
    else if equal name (codes "*")
    then record items { star = record { q = q; present = true } }
    else items

module _ (parse_float : Bytes → Option ℕ) where
  -- The value of one parameter `q=`; any other parameter leaves the quality as it is.
  unfoldable pub read_param : ℕ → Bytes → ℕ
  unfolding clamp
  read_param q param =
      if has_prefix (to_lower param) (codes "q=")
      then elim (parse_float (trim_space (skip_two param))) [ none ↦ q | some val ↦ clamp val ]
      else q

  unfoldable pub read_params : ℕ → List Bytes → ℕ
  unfolding read_param
  read_params q [] = q
  read_params q (param ∷ params) = read_params (read_param q (trim_space param)) params

  -- One part of the header: the name of an encoding, in lower case, and its quality.
  unfoldable pub read_part : Bytes → Bytes × ℕ
  unfolding read_params
  read_part part = elim (cut_at b';' part) [
    | none ↦ (to_lower part, float_one)
    | some (name, params) ↦ (to_lower (trim_space name), read_params float_one (split b';' params))
  ]

  -- The loop over the parts, without its empty ones.
  unfoldable pub read_parts : List Bytes → Items → Items
  unfolding read_part store
  read_parts [] items = items
  read_parts (part ∷ parts) items =
      read_parts parts
        (if is_empty (trim_space part) then items else store (read_part (trim_space part)) items)

-- `if !item.present && starItem.present { item = … }`
abbrev pub or_star : Item → Item → Item
or_star star item = if not item.present && star.present then star else item

abbrev pub is_accepted : Item → Bool
is_accepted item = item.present && float_lt float_zero item.q

unfoldable pub choose : Item → Item → Encoding
choose zstd gzip =
    if is_accepted zstd && is_accepted gzip
    then (if float_le gzip.q zstd.q then encoding_zstd else encoding_gzip)
    else if is_accepted zstd
    then encoding_zstd
    else if is_accepted gzip
    then encoding_gzip
    else encoding_none

unfoldable pub select_encoding : (Bytes → Option ℕ) → Bytes → Encoding
unfolding read_parts choose
select_encoding parse_float header =
    if is_empty header
    then encoding_none
    else let items = read_parts parse_float (split b',' header) no_items in
      choose (or_star items.star items.zstd) (or_star items.star items.gzip)
