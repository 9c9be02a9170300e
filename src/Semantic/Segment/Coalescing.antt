-- ===== src/Semantic/Segment/Coalescing.antt =====
-- What coalescing may do to a stream: split it into runs of consecutive segments and merge each run
-- into one segment. This is the abstract contract of the buffer.
use buffered_llm_proxy.Base.{
  ℕ, ◌+◌, ◌≤◌, ◌≡◌, refl, sym, ap, ◌∙◌, List, [], ◌∷◌, ◌++◌, append_assoc, append-nil, arith, Bytes,
  length, length-append,
}
use buffered_llm_proxy.Semantic.Segment.{Segment, bytes_len}
use buffered_llm_proxy.Semantic.Segment.Channels.{Channel, text_on, Merging-text_on}
use buffered_llm_proxy.Semantic.Segment.Growth.{Merging-bytes_len}
use buffered_llm_proxy.Semantic.Segment.Merging.{Merging}

-- The second list is the first with runs of neighbours merged, from left to right.
pub data Coalesces : List Segment → List Segment → Type 0 where
  empty : Coalesces [] []
  keep :
      {xs' ys' : List Segment} (xs ys : List Segment) (x : Segment)
      → Coalesces xs ys
      → xs' ≡ xs ++ (x ∷ [])
      → ys' ≡ ys ++ (x ∷ [])
      → Coalesces xs' ys'
  join :
      {zs xs' ys' : List Segment} (xs ys : List Segment) (y x t : Segment)
      → Coalesces xs zs
      → zs ≡ ys ++ (y ∷ [])
      → Merging y x t
      → xs' ≡ xs ++ (x ∷ [])
      → ys' ≡ ys ++ (t ∷ [])
      → Coalesces xs' ys'

abbrev pub total_bytes : List Segment → ℕ
total_bytes [] = 0
total_bytes (s ∷ ss) = bytes_len s + total_bytes ss

abbrev pub text_of : Channel → List Segment → Bytes
text_of c [] = []
text_of c (s ∷ ss) = text_on c s ++ text_of c ss

pub total_bytes-append :
    (xs ys : List Segment) → total_bytes (xs ++ ys) ≡ total_bytes xs + total_bytes ys
total_bytes-append [] ys = omega arith
total_bytes-append (x ∷ xs) ys = omega (arith, total_bytes-append xs ys)

pub text_of-append :
    (c : Channel) (xs ys : List Segment) → text_of c (xs ++ ys) ≡ text_of c xs ++ text_of c ys
text_of-append c [] ys = refl
text_of-append c (x ∷ xs) ys =
    rw (text_of-append c xs ys) (sym (append_assoc (text_on c x) (text_of c xs) (text_of c ys)))

text_of-snoc :
    (c : Channel) (xs : List Segment) (x : Segment)
    → text_of c (xs ++ (x ∷ [])) ≡ text_of c xs ++ text_on c x
text_of-snoc c xs x =
    text_of-append c xs (x ∷ []) ∙ ap (λ t. text_of c xs ++ t) (append-nil (text_on c x))

-- Coalescing keeps the text of every channel.
pub Coalesces-text_of :
    {xs ys : List Segment} (c : Channel) → Coalesces xs ys → text_of c ys ≡ text_of c xs
Coalesces-text_of c empty = refl
Coalesces-text_of c (keep xs ys x h e f) =
    rw (e, f, text_of-snoc c xs x, text_of-snoc c ys x, Coalesces-text_of c h)
Coalesces-text_of c (join xs ys y x t h g m e f) =
    rw (e, f, text_of-snoc c xs x, text_of-snoc c ys t, Merging-text_on c m)
      (sym (append_assoc (text_of c ys) (text_on c y) (text_on c x))
        ∙ ap (λ b. b ++ text_on c x)
            (sym (text_of-snoc c ys y) ∙ ap (text_of c) (sym g) ∙ Coalesces-text_of c h))

-- It makes no more segments, and no more bytes.
pub Coalesces-length : {xs ys : List Segment} → Coalesces xs ys → length ys ≤ length xs
Coalesces-length empty = omega arith
Coalesces-length (keep xs ys x h e f) =
    rw (e, f) (omega (arith, length-append {0}, Coalesces-length h))
Coalesces-length (join xs ys y x t h g m e f) =
    let ih = rw g at (Coalesces-length h) in rw (e, f) (omega (arith, length-append {0}))

pub Coalesces-total_bytes :
    {xs ys : List Segment} → Coalesces xs ys → total_bytes ys ≤ total_bytes xs
Coalesces-total_bytes empty = omega arith
Coalesces-total_bytes (keep xs ys x h e f) =
    rw (e, f) (omega (arith, total_bytes-append, Coalesces-total_bytes h))
Coalesces-total_bytes (join xs ys y x t h g m e f) =
    let ih = rw g at (Coalesces-total_bytes h) in
    let b = Merging-bytes_len m in rw (e, f) (omega (arith, total_bytes-append))
