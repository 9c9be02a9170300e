-- ===== src/Aggregator/Buffer/Swapping.antt =====
-- `Swap` and `Close` on a buffer in order.
use buffered_llm_proxy.Base.{
  ◌≡◌, ◌≢◌, ◌⊎◌, refl, true, false, not, ◌&&◌, List, [], ◌∷◌, Option, none, some, arith, inl, inr,
  Bool-cases, if◌then◌else◌, is_empty,
}
use buffered_llm_proxy.Aggregator.Buffer.{
  PendingBuffer, Failure, is_none, is_coalesceable, notify_barrier, reset_barrier, Swapped,
  returned, waiting, coalescing, take_all, swap_take, should_wait, swap, close,
}
use buffered_llm_proxy.Aggregator.Buffer.Invariant.{IsCalm, IsValid}
use buffered_llm_proxy.Semantic.Segment.{Segment}

pub take_all-IsValid : (b : PendingBuffer) → IsValid b → IsValid (take_all b)
unfolding take_all reset_barrier
take_all-IsValid b v = ground arith

-- What a taken snapshot leaves.
pub take_all-empty :
    (b : PendingBuffer)
    → ((take_all b).segments ≡ [])
      × ((take_all b).current_bytes ≡ 0)
      × ((take_all b).high_watermark ≡ b.high_watermark)
      × ((take_all b).low_watermark ≡ b.low_watermark)
      × ((take_all b).closed ≡ b.closed)
      × ((take_all b).reader_parked ≡ false)
unfolding take_all reset_barrier
take_all-empty b = ground arith

pub swap_take_lem :
    (ctx : Option Failure) (b : PendingBuffer)
    → ((b.segments ≡ []) × (swap_take ctx b ≡ returned b [] b.closed ctx))
      ⊎ (swap_take ctx b ≡ returned (take_all b) b.segments b.closed b.upstream_err)
unfolding swap_take
swap_take_lem ctx b = elim (Bool-cases (not (is_none ctx) && is_empty b.segments)) [
  | inl t ↦ inl (ground arith, ground arith)
  | inr f ↦ inr (ground arith)
]

abbrev pub writer_parks : PendingBuffer → PendingBuffer
writer_parks b = record b { writer_parked = true }

-- The ends of a call of `Swap` before its coalescing wait.
pub data Swaps (ctx : Option Failure) (b : PendingBuffer) (r : Swapped) : Type 0 where
  has_nothing :
      b.segments ≡ []
      → b.closed ≡ false
      → ctx ≡ none
      → r ≡ waiting (writer_parks b)
      → IsValid (writer_parks b)
      → Swaps ctx b r
  is_canceled : (e : Failure) → ctx ≡ some e → r ≡ returned b [] b.closed (some e) → Swaps ctx b r
  is_drained :
      ctx ≡ none
      → b.segments ≡ []
      → b.closed ≡ true
      → r ≡ returned b [] true b.upstream_err
      → Swaps ctx b r
  holds_back :
      (x : Segment)
      → ctx ≡ none
      → b.segments ≡ x ∷ []
      → is_coalesceable x ≡ true
      → b.first_emission ≡ false
      → b.closed ≡ false
      → r ≡ coalescing b b.wake_channel
      → Swaps ctx b r
  takes :
      ctx ≡ none
      → b.segments ≢ []
      → r ≡ returned (take_all b) b.segments b.closed b.upstream_err
      → Swaps ctx b r

IsCalm-single :
    (xs : List Segment)
    → IsCalm xs
    → xs ≢ []
    → (x : Segment) × (xs ≡ x ∷ []) × (is_coalesceable x ≡ true)
IsCalm-single [] c h = absurd (h refl)
IsCalm-single (x ∷ []) c h = (x, refl, c)
IsCalm-single (x ∷ y ∷ ys) c h = absurd c

module _ (b : PendingBuffer) (v : IsValid b) where
  swap_waiting : b.segments ≡ [] → b.closed ≡ false → Swaps none b (swap none b)
  unfolding swap
  swap_waiting e o = has_nothing e o refl (ground (arith, v.open_err o)) record {
    counted = v.counted;
    well_formed = v.well_formed;
    separated = v.separated;
    barrier = v.barrier;
    wake = v.wake;
    writer = λ _. (e, o, v.open_err o);
    reader = v.reader;
    open_err = v.open_err;
    watermarks = v.watermarks;
  }

  swap_pending : b.segments ≢ [] → Swaps none b (swap none b)
  unfolding swap swap_take
  swap_pending h = elim (Bool-cases (should_wait b)) [
    | inl t ↦
        let calm : b.has_barrier ≡ false = unfold should_wait in ground arith in
        let (x, e, c) = IsCalm-single b.segments (v.barrier calm) h in
        holds_back x refl e c (unfold should_wait in ground arith)
          (unfold should_wait in ground arith) (ground arith)
    | inr f ↦ takes refl h (ground arith)
  ]

  -- Every call of `Swap` on a buffer in order: a writer waits only on an open buffer with nothing
  -- in it, and is held back by the coalescing delay only for one text or tool delta that is not
  -- the first emission; otherwise it takes the whole content, or returns with the context's error
  -- or, once drained, with the error of `Close`.
  pub swap_lem : (ctx : Option Failure) → Swaps ctx b (swap ctx b)
  unfolding swap
  swap_lem (some e) = is_canceled e refl (ground arith)
  swap_lem none = elim (Bool-cases (is_empty b.segments)) [
    | inl e ↦ elim (Bool-cases b.closed) [
      | inl c ↦ is_drained refl (ground arith) c (ground arith)
      | inr o ↦ swap_waiting (ground arith) o
    ]
    | inr f ↦ swap_pending (λ k. ground arith)
  ]

  -- `Close` never panics. The first call wakes both sides. It keeps the content, and records the error only of the
  -- first call.
  pub close_lem :
      (err : Option Failure)
      → (c : PendingBuffer) × (close err b ≡ some c)
        × IsValid c
        × (c.closed ≡ true)
        × (c.segments ≡ b.segments)
        × (c.current_bytes ≡ b.current_bytes)
        × (c.upstream_err ≡ (if b.closed then b.upstream_err else err))
        × (c.writer_parked ≡ (if b.closed then b.writer_parked else false))
        × (c.reader_parked ≡ (if b.closed then b.reader_parked else false))
  unfolding close notify_barrier
  close_lem err = elim (Bool-cases b.closed) [
    | inl k ↦ (b, ground arith, v, k, refl, refl, ground arith, ground arith, ground arith)
    | inr o ↦ (
      record b {
        closed = true;
        upstream_err = err;
        has_barrier = true;
        wake_closed = true;
        writer_parked = false;
        reader_parked = false;
      },
      ground (arith, v.wake),
      record {
        counted = v.counted;
        well_formed = v.well_formed;
        separated = v.separated;
        barrier = λ h. cc;
        wake = refl;
        writer = λ h. cc;
        reader = λ h. cc;
        open_err = λ h. cc;
        watermarks = v.watermarks;
      },
      refl,
      refl,
      refl,
      ground arith,
      ground arith,
      ground arith,
    )
  ]
