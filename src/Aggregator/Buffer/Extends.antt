-- ===== src/Aggregator/Buffer/Extends.antt =====
-- How the content of the buffer grows by one segment.
use buffered_llm_proxy.Base.{
  ◌≡◌, refl, sym, ap, false, List, [], ◌∷◌, ◌++◌, append_assoc, append-nil,
}
use buffered_llm_proxy.Aggregator.Buffer.Invariant.{All, IsSeparated, All-snoc, All-snoc_inv}
use buffered_llm_proxy.Semantic.Segment.{Segment, can_merge}
use buffered_llm_proxy.Semantic.Segment.Coalescing.{Coalesces, keep, join}
use buffered_llm_proxy.Semantic.Segment.Growth.{Merging-IsWellFormed}
use buffered_llm_proxy.Semantic.Segment.Merging.{IsWellFormed, Merging}
use buffered_llm_proxy.Semantic.Segment.Separation.{Merging-can_merge}

-- The content after a segment is taken in: it is merged into the last segment if that can merge,
-- and stands behind it otherwise.
pub data Extends (xs : List Segment) (x : Segment) (zs : List Segment) : Type 0 where
  first : xs ≡ [] → zs ≡ x ∷ [] → Extends xs x zs
  behind :
      (ys : List Segment) (y : Segment)
      → xs ≡ ys ++ (y ∷ [])
      → can_merge y x ≡ false
      → zs ≡ xs ++ (x ∷ [])
      → Extends xs x zs
  into :
      (ys : List Segment) (y t : Segment)
      → xs ≡ ys ++ (y ∷ [])
      → Merging y x t
      → zs ≡ ys ++ (t ∷ [])
      → Extends xs x zs

IsSeparated-snoc :
    (ys : List Segment) (y x : Segment)
    → IsSeparated (ys ++ (y ∷ []))
    → can_merge y x ≡ false
    → IsSeparated ((ys ++ (y ∷ [])) ++ (x ∷ []))
IsSeparated-snoc [] y x s h = (h, tt)
IsSeparated-snoc (z ∷ []) y x s h = (s.0, (h, tt))
IsSeparated-snoc (z ∷ w ∷ ys) y x s h = (s.0, IsSeparated-snoc (w ∷ ys) y x s.1 h)

IsSeparated-into :
    (ys : List Segment) (y t : Segment)
    → ((p : Segment) → can_merge p y ≡ false → can_merge p t ≡ false)
    → IsSeparated (ys ++ (y ∷ []))
    → IsSeparated (ys ++ (t ∷ []))
IsSeparated-into [] y t f s = tt
IsSeparated-into (z ∷ []) y t f s = (f z s.0, tt)
IsSeparated-into (z ∷ w ∷ ys) y t f s = (s.0, IsSeparated-into (w ∷ ys) y t f s.1)

pub Extends-IsSeparated :
    {xs zs : List Segment} {x : Segment} → Extends xs x zs → IsSeparated xs → IsSeparated zs
Extends-IsSeparated (first e f) s = rw f tt
Extends-IsSeparated {x} (behind ys y e h f) s = rw (f, e) (IsSeparated-snoc ys y x (rw e at s) h)
Extends-IsSeparated (into ys y t e m f) s =
    rw f (IsSeparated-into ys y t (λ p. Merging-can_merge p m) (rw e at s))

pub Extends-All :
    {xs zs : List Segment} {x : Segment}
    → Extends xs x zs
    → IsWellFormed x
    → All IsWellFormed xs
    → All IsWellFormed zs
Extends-All (first e f) w a = rw f (w, tt)
Extends-All {xs} {x} (behind ys y e h f) w a = rw f (All-snoc IsWellFormed xs x a w)
Extends-All (into ys y t e m f) w a =
    let r = All-snoc_inv IsWellFormed ys y (rw e at a) in
    rw f (All-snoc IsWellFormed ys t r.0 (Merging-IsWellFormed m r.1))

-- Taking a segment in is a step of coalescing.
pub Extends-Coalesces :
    {xs zs : List Segment} {x : Segment} (sent out : List Segment)
    → Extends xs x zs
    → Coalesces sent (out ++ xs)
    → Coalesces (sent ++ (x ∷ [])) (out ++ zs)
Extends-Coalesces {xs} {zs} {x} sent out (first e f) c =
    keep sent (out ++ xs) x c refl (rw (e, f) (ap (λ o. o ++ (x ∷ [])) (sym (append-nil out))))
Extends-Coalesces {xs} {zs} {x} sent out (behind ys y e h f) c =
    keep sent (out ++ xs) x c refl (rw f (sym (append_assoc out xs (x ∷ []))))
Extends-Coalesces {xs} {zs} {x} sent out (into ys y t e m f) c =
    join sent (out ++ ys) y x t c (rw e (sym (append_assoc out ys (y ∷ [])))) m refl
      (rw f (sym (append_assoc out ys (t ∷ []))))
