-- ===== src/Proxy/Headers/HopByHop.antt =====
-- What `copyHeaders` leaves out.
use mathlib.Core.Bool.{true≢false}
use buffered_llm_proxy.Base.{
  ◌&&◌, ℕ, ◌<◌, ◌≡◌, refl, sym, ap, ◌∙◌, Bool, true, false, List, [], ◌∷◌, Bytes, codes, equal,
  equal_iff, if◌then◌else◌, ◌==◌, Bool-cases, inl, inr, bytes_eq, arith,
}
use buffered_llm_proxy.Base.Lower.{lower, to_lower}
use buffered_llm_proxy.Base.Map.{lookup, lookup-insert}
use buffered_llm_proxy.Http.Header.{
  Header, add, is_token_byte, upper, is_token, capitals, canonical_key,
}
use buffered_llm_proxy.Proxy.Headers.{is_hop_by_hop, add_values, copy_headers}

to_lower-ascii : (c : ℕ) (s : Bytes) → c < 128 → to_lower (c ∷ s) ≡ lower c ∷ to_lower s
unfolding to_lower
to_lower-ascii c [] h = refl
to_lower-ascii c (d ∷ []) h = ground (arith, h)
to_lower-ascii c (d ∷ e ∷ s) h = ground (arith, h)

token_byte-lt : (c : ℕ) → is_token_byte c ≡ true → c < 128
unfolding is_token_byte
token_byte-lt c t = ground (arith, t)

both_true : (a b : Bool) → (a && b) ≡ true → (a ≡ true) × (b ≡ true)
both_true true b t = (refl, t)
both_true false b t = absurd (true≢false (sym t))

token-cons : (c : ℕ) (s : Bytes) → is_token (c ∷ s) ≡ true → (c < 128) × (is_token s ≡ true)
unfolding is_token
token-cons c s t =
    let (b, rest) = both_true (is_token_byte c) (is_token s) t in (token_byte-lt c b, rest)

unfoldable cased : Bool → ℕ → ℕ
cased first c = if first then upper c else lower c

cased-lt : (first : Bool) (c : ℕ) → c < 128 → cased first c < 128
unfolding cased
cased-lt first c h = ground (arith, h)

lower-cased : (first : Bool) (c : ℕ) → lower (cased first c) ≡ lower c
unfolding cased
lower-cased first c = ground arith

capitals-cons :
    (first : Bool) (c : ℕ) (s : Bytes)
    → capitals first (c ∷ s) ≡ cased first c ∷ capitals (c == b'-') s
unfolding cased capitals
capitals-cons first c s = refl

-- The canonical spelling of a key differs in case alone.
to_lower-capitals :
    (s : Bytes) (first : Bool) → is_token s ≡ true → to_lower (capitals first s) ≡ to_lower s
to_lower-capitals [] first t = unfold capitals in refl
to_lower-capitals (c ∷ s) first t =
    let (small, rest) = token-cons c s t in
    let tail = capitals (c == b'-') s in
    ap to_lower (capitals-cons first c s)
    ∙ to_lower-ascii (cased first c) tail (cased-lt first c small)
    ∙ ap (λ d. d ∷ to_lower tail) (lower-cased first c)
    ∙ ap (λ r. lower c ∷ r) (to_lower-capitals s (c == b'-') rest)
    ∙ sym (to_lower-ascii c s small)

to_lower-canonical_key : (key : Bytes) → to_lower (canonical_key key) ≡ to_lower key
unfolding canonical_key
to_lower-canonical_key key = elim (Bool-cases (is_token key)) [
  | inl t ↦ rw (t, canonical_key) (to_lower-capitals key true t)
  | inr f ↦ rw (f, canonical_key) refl
]

hop-canonical_key : (key : Bytes) → is_hop_by_hop (canonical_key key) ≡ is_hop_by_hop key
unfolding is_hop_by_hop
hop-canonical_key key = rw (to_lower-canonical_key key) refl

other-key :
    {A : Type 0} (key name : Bytes) (x y : A)
    → is_hop_by_hop key ≡ false
    → is_hop_by_hop name ≡ true
    → (if equal (canonical_key key) name then x else y) ≡ y
other-key key name x y k n = elim (Bool-cases (equal (canonical_key key) name)) [
  | inl t ↦ absurd (
      true≢false (
        sym n
        ∙ ap is_hop_by_hop (sym ((equal_iff (canonical_key key) name).0 t))
        ∙ hop-canonical_key key
        ∙ k))
  | inr f ↦ rw f refl
]

hop-add_values :
    (key name : Bytes) (vs : List Bytes) (dst : Header)
    → is_hop_by_hop key ≡ false
    → is_hop_by_hop name ≡ true
    → lookup name (add_values key vs dst) ≡ lookup name dst
unfolding add_values add
hop-add_values key name [] dst k n = refl
hop-add_values key name (v ∷ vs) dst k n =
    hop-add_values key name vs (add (canonical_key key) v dst) k n
    ∙ lookup-insert (canonical_key key) name _ dst
    ∙ other-key key name _ _ k n

-- No header field of one hop is copied: the field of such a name stays as it was.
pub hop-copy_headers :
    (name : Bytes) (dst src : Header)
    → is_hop_by_hop name ≡ true
    → lookup name (copy_headers dst src) ≡ lookup name dst
unfolding copy_headers
hop-copy_headers name dst [] n = refl
hop-copy_headers name dst ((key, vs) ∷ src) n = elim (Bool-cases (is_hop_by_hop key)) [
  | inl t ↦ rw (t, copy_headers) (hop-copy_headers name dst src n)
  | inr f ↦
      rw (f, copy_headers)
        (hop-copy_headers name (add_values key vs dst) src n ∙ hop-add_values key name vs dst f n)
]

-- The header fields that the code takes for those of one hop. The field `Trailer` is not one of them.
pub data HopField : Type 0 where
  connection keep_alive proxy_authenticate proxy_authorization : HopField
  te trailers transfer_encoding upgrade : HopField

abbrev pub field_name : HopField → Bytes
field_name connection = codes "Connection"
field_name keep_alive = codes "Keep-Alive"
field_name proxy_authenticate = codes "Proxy-Authenticate"
field_name proxy_authorization = codes "Proxy-Authorization"
field_name te = codes "Te"
field_name trailers = codes "Trailers"
field_name transfer_encoding = codes "Transfer-Encoding"
field_name upgrade = codes "Upgrade"

pub hop-field_name : (field : HopField) → is_hop_by_hop (field_name field) ≡ true
unfolding is_hop_by_hop to_lower equal
hop-field_name connection = refl
hop-field_name keep_alive = refl
hop-field_name proxy_authenticate = refl
hop-field_name proxy_authorization = refl
hop-field_name te = refl
hop-field_name trailers = refl
hop-field_name transfer_encoding = refl
hop-field_name upgrade = refl
