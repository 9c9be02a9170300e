-- ===== src/Aggregator/Buffer/Invariant.antt =====
-- When a buffer is in order, between two calls.
use buffered_llm_proxy.Base.{
  ◌≤◌, ◌<◌, ◌≡◌, refl, true, false, List, [], ◌∷◌, ◌++◌, none, some, arith, inl, inr, Option-cases,
}
use buffered_llm_proxy.Aggregator.Buffer.{
  PendingBuffer, BufferConfig, new_pending_buffer, is_coalesceable, split_last,
}
use buffered_llm_proxy.Metrics.{StreamMetrics}
use buffered_llm_proxy.Semantic.Segment.{Segment, can_merge}
use buffered_llm_proxy.Semantic.Segment.Coalescing.{total_bytes}
use buffered_llm_proxy.Semantic.Segment.Merging.{IsWellFormed}

abbrev pub All {ℓ} : {A : Type 0} → (A → Type ℓ) → List A → Type ℓ
All P [] = Unit
All P (x ∷ xs) = P x × All P xs

-- No two neighbours could have been merged.
abbrev pub IsSeparated : List Segment → Type 0
IsSeparated [] = Unit {0}
IsSeparated (x ∷ []) = Unit {0}
IsSeparated (x ∷ y ∷ ys) = (can_merge x y ≡ false) × IsSeparated (y ∷ ys)

-- Nothing that a coalescing writer must not hold back: at most one segment, a text or tool delta.
abbrev pub IsCalm : List Segment → Type 0
IsCalm [] = Unit {0}
IsCalm (x ∷ []) = is_coalesceable x ≡ true
IsCalm (x ∷ y ∷ ys) = ⊥

-- `counted`: the byte count is exact. `separated`: everything that can merge is merged.
-- `barrier`: without the barrier flag the content is calm. `wake`: the wake
-- channel is closed exactly with the flag. `writer`, `reader`: whoever is parked has nothing to do.
pub record IsValid (b : PendingBuffer) : Type 0 where
  pub counted : b.current_bytes ≡ total_bytes b.segments
  pub well_formed : All IsWellFormed b.segments
  pub separated : IsSeparated b.segments
  pub barrier : b.has_barrier ≡ false → IsCalm b.segments
  pub wake : b.wake_closed ≡ b.has_barrier
  pub writer :
      b.writer_parked ≡ true → (b.segments ≡ []) × (b.closed ≡ false) × (b.upstream_err ≡ none)
  pub reader : b.reader_parked ≡ true → (b.low_watermark ≤ b.current_bytes) × (b.closed ≡ false)
  pub open_err : b.closed ≡ false → b.upstream_err ≡ none
  pub watermarks : b.low_watermark < b.high_watermark

pub new_pending_buffer-IsValid :
    (cfg : BufferConfig) (m : StreamMetrics) → IsValid (new_pending_buffer cfg m)
unfolding new_pending_buffer
new_pending_buffer-IsValid cfg m = ground arith

module _ {A : Type 0} where
  pub split_last-none : (xs : List A) → split_last xs ≡ none → xs ≡ []
  unfolding split_last
  split_last-none [] h = refl
  split_last-none (x ∷ xs) h = ground (arith, split_last-none xs)

  pub split_last-some :
      (xs ys : List A) (y : A) → split_last xs ≡ some (ys, y) → xs ≡ ys ++ (y ∷ [])
  unfolding split_last
  split_last-some [] ys y h = cc
  split_last-some (x ∷ xs) ys y h = elim (Option-cases (split_last xs)) [
    | inl e ↦ ground (arith, split_last-none xs e)
    | inr ((zs, z), e) ↦ ground (arith, split_last-some xs zs z e)
  ]

  pub All-snoc : (P : A → Type 0) (xs : List A) (x : A) → All P xs → P x → All P (xs ++ (x ∷ []))
  All-snoc P [] x a p = (p, tt)
  All-snoc P (y ∷ ys) x a p = (a.0, All-snoc P ys x a.1 p)

  pub All-snoc_inv :
      (P : A → Type 0) (xs : List A) (x : A) → All P (xs ++ (x ∷ [])) → All P xs × P x
  All-snoc_inv P [] x a = (tt, a.0)
  All-snoc_inv P (y ∷ ys) x a = let r = All-snoc_inv P ys x a.1 in ((a.0, r.0), r.1)
