-- ===== src/Aggregator/Buffer/Appending.antt =====
-- `Append` on a buffer in order.
use mathlib.Core.Bool.{true≢false}
use buffered_llm_proxy.Base.{
  ◌+◌, ◌≤◌, ◌≡◌, refl, ap, ◌∙◌, true, false, List, [], ◌∷◌, ◌++◌, none, some, arith, inl, inr,
  Option-cases, Bool-cases,
}
use buffered_llm_proxy.Aggregator.Buffer.{
  PendingBuffer, notify_barrier, is_coalesceable, done, split_last, coalesceable_type, push,
  merge_last, append_new, append_segment,
}
use buffered_llm_proxy.Aggregator.Buffer.Invariant.{
  IsCalm, IsValid, split_last-none, split_last-some,
}
use buffered_llm_proxy.Semantic.Segment.{Segment, bytes_len, can_merge}
use buffered_llm_proxy.Semantic.Segment.Coalescing.{total_bytes, total_bytes-append}
use buffered_llm_proxy.Semantic.Segment.Growth.{Merging-bytes_len, Merging-event_type}
use buffered_llm_proxy.Semantic.Segment.Merging.{IsWellFormed, Merging, merge-Merging}
use buffered_llm_proxy.Aggregator.Buffer.Extends.{
  Extends, first, behind, into, Extends-IsSeparated, Extends-All,
}

-- What a successful `Append` does to the buffer.
pub record Accepts (b : PendingBuffer) (x : Segment) (c : PendingBuffer) : Type 0 where
  pub valid : IsValid c
  pub extends : Extends b.segments x c.segments
  pub bytes : c.current_bytes ≤ b.current_bytes + bytes_len x
  pub same_high : c.high_watermark ≡ b.high_watermark
  pub same_low : c.low_watermark ≡ b.low_watermark
  pub still_open : c.closed ≡ false

marked : PendingBuffer → PendingBuffer
marked b = record b { has_barrier = true; wake_closed = true }

-- The wake channel is never closed twice.
notify_barrier_lem :
    (b : PendingBuffer) → b.wake_closed ≡ b.has_barrier → notify_barrier b ≡ some (marked b)
unfolding notify_barrier marked
notify_barrier_lem b h = ground arith

marked-IsValid : (b : PendingBuffer) → IsValid b → IsValid (marked b)
unfolding marked
marked-IsValid b v = record {
  counted = v.counted;
  well_formed = v.well_formed;
  separated = v.separated;
  barrier = λ h. cc;
  wake = refl;
  writer = v.writer;
  reader = v.reader;
  open_err = v.open_err;
  watermarks = v.watermarks;
}

push-Accepts :
    (b : PendingBuffer) (x : Segment)
    → IsValid b
    → b.closed ≡ false
    → IsWellFormed x
    → Extends b.segments x (b.segments ++ (x ∷ []))
    → (b.has_barrier ≡ false → IsCalm (b.segments ++ (x ∷ [])))
    → Accepts b x (push b x)
unfolding push
push-Accepts b x v o w e calm = record {
  valid = record {
    counted = omega (arith, v.counted, total_bytes-append b.segments (x ∷ []));
    well_formed = Extends-All e w v.well_formed;
    separated = Extends-IsSeparated e v.separated;
    barrier = calm;
    wake = v.wake;
    writer = λ h. cc;
    reader = λ h. (omega (arith, (v.reader h).0), o);
    open_err = v.open_err;
    watermarks = v.watermarks;
  };
  extends = e;
  bytes = omega arith;
  same_high = refl;
  same_low = refl;
  still_open = o;
}

IsCalm-into :
    (ys : List Segment) (y t : Segment)
    → is_coalesceable t ≡ is_coalesceable y
    → IsCalm (ys ++ (y ∷ []))
    → IsCalm (ys ++ (t ∷ []))
IsCalm-into [] y t e c = e ∙ c
IsCalm-into (z ∷ []) y t e c = c
IsCalm-into (z ∷ w ∷ ys) y t e c = c

merge_last-Accepts :
    (b : PendingBuffer) (x y t : Segment) (ys : List Segment)
    → IsValid b
    → b.closed ≡ false
    → IsWellFormed x
    → b.segments ≡ ys ++ (y ∷ [])
    → Merging y x t
    → Accepts b x (merge_last b ys y t)
unfolding merge_last is_coalesceable
merge_last-Accepts b x y t ys v o w e m = record {
  valid = record {
    counted = ground (
      arith,
      bounds,
      v.counted,
      ap total_bytes e,
      total_bytes-append ys (y ∷ []),
      total_bytes-append ys (t ∷ []),
    );
    well_formed = Extends-All ext w v.well_formed;
    separated = Extends-IsSeparated ext v.separated;
    barrier = λ h.
        IsCalm-into ys y t (ap coalesceable_type (Merging-event_type m).1) (rw e at (v.barrier h));
    wake = v.wake;
    writer = λ h. cc;
    reader = λ h. (ground (arith, (v.reader h).0), o);
    open_err = v.open_err;
    watermarks = v.watermarks;
  };
  extends = ext;
  bytes = ground (arith, bounds);
  same_high = refl;
  same_low = refl;
  still_open = o;
}
  where
    ext : Extends b.segments x (ys ++ (t ∷ []))
    ext = into ys y t e m refl

    bounds : (bytes_len y ≤ bytes_len t) × (bytes_len t ≤ bytes_len y + bytes_len x)
    bounds = Merging-bytes_len m

append_new-Accepts :
    (b : PendingBuffer) (x : Segment)
    → IsValid b
    → b.closed ≡ false
    → IsWellFormed x
    → Extends b.segments x (b.segments ++ (x ∷ []))
    → (b.has_barrier ≡ false → b.segments ≡ [])
    → (c : PendingBuffer) × (append_new b x ≡ some (done c none)) × Accepts b x c
unfolding append_new marked
append_new-Accepts b x v o w e h = elim (Bool-cases (is_coalesceable x)) [
  | inl t ↦ (push b x, rw t refl, push-Accepts b x v o w e (λ k. rw (h k) t))
  | inr f ↦
      let a = push-Accepts (marked b) x (marked-IsValid b v) o w e (λ k. absurd (true≢false k)) in
      (
        push (marked b) x,
        ground (arith, notify_barrier_lem b v.wake),
        record {
          valid = a.valid;
          extends = a.extends;
          bytes = a.bytes;
          same_high = a.same_high;
          same_low = a.same_low;
          still_open = a.still_open;
        },
      )
]

-- The part behind the waiting always takes the segment in, and never panics.
pub append_segment-Accepts :
    (b : PendingBuffer) (x : Segment)
    → IsValid b
    → b.closed ≡ false
    → IsWellFormed x
    → (c : PendingBuffer) × (append_segment b x ≡ some (done c none)) × Accepts b x c
unfolding append_segment marked
append_segment-Accepts b x v o w = elim (Option-cases (split_last b.segments)) [
  | inl e ↦
      let nil = split_last-none b.segments e in
      let (c, r, a) = append_new-Accepts b x v o w (first nil (rw nil refl)) (λ _. nil) in
      (c, rw (e, append_segment) r, a)
  | inr ((ys, y), e) ↦
      let parts = split_last-some b.segments ys y e in
      elim (Bool-cases (can_merge y x)) [
        | inl t ↦
            let (z, r, m) = merge-Merging y x w t in
            (
              merge_last b ys y z,
              rw (e, append_segment) (rw (t, append_segment) (rw r refl)),
              merge_last-Accepts b x y z ys v o w parts m,
            )
        | inr f ↦
            let (c, r, a) =
              append_new-Accepts (marked b) x (marked-IsValid b v) o w (behind ys y parts f refl)
                (λ k. absurd (true≢false k)) in
            (
              c,
              rw (e, append_segment) (rw (f, notify_barrier_lem b v.wake) r),
              record {
                valid = a.valid;
                extends = a.extends;
                bytes = a.bytes;
                same_high = a.same_high;
                same_low = a.same_low;
                still_open = a.still_open;
              },
            )
      ]
]
