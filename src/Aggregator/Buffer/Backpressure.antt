-- ===== src/Aggregator/Buffer/Backpressure.antt =====
-- The watermarks: every way in which a call of `Append` ends, at its start and after a wait.
use mathlib.Core.Bool.{false≢true}
use buffered_llm_proxy.Base.{
  ℕ, ◌+◌, ◌≤◌, ◌<◌, ◌≡◌, refl, true, false, Option, none, some, arith, inl, inr, sym, ◌∙◌, ◌⊎◌,
  Bool-cases, leb,
}
use buffered_llm_proxy.Aggregator.Buffer.{
  PendingBuffer, Failure, buffer_closed, Appended, done, paused, append_wait, append,
}
use buffered_llm_proxy.Aggregator.Buffer.Appending.{Accepts, append_segment-Accepts}
use buffered_llm_proxy.Aggregator.Buffer.Invariant.{IsValid}
use buffered_llm_proxy.Metrics.{add_reader_pause}
use buffered_llm_proxy.Semantic.Segment.{Segment, bytes_len}
use buffered_llm_proxy.Semantic.Segment.Merging.{IsWellFormed}

abbrev pub parked : PendingBuffer → PendingBuffer
parked b = record b { reader_parked = true }

abbrev pub after_pause : ℕ → PendingBuffer → PendingBuffer
after_pause pause b = record b { metrics = add_reader_pause pause b.metrics }

pub parked-IsValid :
    (b : PendingBuffer)
    → IsValid b
    → b.low_watermark ≤ b.current_bytes
    → b.closed ≡ false
    → IsValid (parked b)
parked-IsValid b v h o = record {
  counted = v.counted;
  well_formed = v.well_formed;
  separated = v.separated;
  barrier = v.barrier;
  wake = v.wake;
  writer = v.writer;
  reader = λ _. (h, o);
  open_err = v.open_err;
  watermarks = v.watermarks;
}

pub after_pause-IsValid :
    (pause : ℕ) (b : PendingBuffer) → IsValid b → IsValid (after_pause pause b)
after_pause-IsValid pause b v = record {
  counted = v.counted;
  well_formed = v.well_formed;
  separated = v.separated;
  barrier = v.barrier;
  wake = v.wake;
  writer = v.writer;
  reader = v.reader;
  open_err = v.open_err;
  watermarks = v.watermarks;
}

-- The ends of the waiting loop: the reader parks again, gives up with the context's error or the
-- closed buffer's, or has its segment taken in.
pub data Waited (ctx : Option Failure) (pause : ℕ) (b : PendingBuffer) (x : Segment)
    (r : Option Appended) : Type 0 where
  parks :
      ctx ≡ none
      → b.closed ≡ false
      → b.low_watermark ≤ b.current_bytes
      → r ≡ some (paused (parked b))
      → IsValid (parked b)
      → Waited ctx pause b x r
  gives_up :
      (e : Failure)
      → ctx ≡ some e
      → r ≡ some (done (after_pause pause b) (some e))
      → Waited ctx pause b x r
  finds_closed :
      ctx ≡ none
      → b.closed ≡ true
      → r ≡ some (done (after_pause pause b) (some buffer_closed))
      → Waited ctx pause b x r
  accepts :
      (c : PendingBuffer)
      → ctx ≡ none
      → b.closed ≡ false
      → b.current_bytes < b.low_watermark
      → r ≡ some (done c none)
      → Accepts (after_pause pause b) x c
      → Waited ctx pause b x r

module _ (pause : ℕ) (b : PendingBuffer) (x : Segment) (v : IsValid b) (w : IsWellFormed x) where
  -- A woken reader parks again unless the buffer is closed, the context is done, or the content is
  -- below the low watermark; only then it goes on.
  pub append_wait_lem : (ctx : Option Failure) → Waited ctx pause b x (append_wait ctx pause b x)
  unfolding append_wait
  append_wait_lem (some e) = gives_up e refl (ground arith)
  append_wait_lem none = elim (Bool-cases b.closed) [
    | inl c ↦ finds_closed refl c (ground arith)
    | inr o ↦ elim (Bool-cases (leb b.low_watermark b.current_bytes)) [
      | inl h ↦
          let le : b.low_watermark ≤ b.current_bytes = ground arith in
          parks refl o le (ground arith) (parked-IsValid b v le o)
      | inr h ↦
          let (c, e, a) =
            append_segment-Accepts (after_pause pause b) x (after_pause-IsValid pause b v) o w in
          accepts c refl o (ground arith) (ground (arith, e)) a
    ]
  ]

  -- Every call of `Append` on a buffer in order ends in one of four ways and never panics: it is
  -- refused by a closed buffer; below the high watermark it takes the segment in; at or above it
  -- the reader parks, or returns the context's error.
  pub append_lem :
      (ctx : Option Failure)
      → ((b.closed ≡ true) × (append ctx pause b x ≡ some (done b (some buffer_closed))))
        ⊎ ((b.closed ≡ false)
            × (((b.current_bytes < b.high_watermark)
                  × ((c : PendingBuffer) × (append ctx pause b x ≡ some (done c none))
                      × Accepts b x c))
                ⊎ ((b.high_watermark ≤ b.current_bytes)
                    × (((ctx ≡ none)
                          × (append ctx pause b x ≡ some (paused (parked b)))
                          × IsValid (parked b))
                        ⊎ ((e : Failure) × (ctx ≡ some e)
                            × (append ctx pause b x
                                ≡ some (done (after_pause pause b) (some e))))))))
  unfolding append
  append_lem ctx = elim (Bool-cases b.closed) [
    | inl c ↦ inl (c, ground arith)
    | inr o ↦ elim (Bool-cases (leb b.high_watermark b.current_bytes)) [
      | inr h ↦
          let (c, e, a) = append_segment-Accepts b x v o w in
          inr (o, inl (ground arith, (c, ground (arith, e), a)))
      | inl h ↦ elim (append_wait_lem ctx) [
        | parks k _ _ e p ↦ inr (o, inr (ground arith, inl (k, ground (arith, e), p)))
        | gives_up f k e ↦ inr (o, inr (ground arith, inr (f, k, ground (arith, e))))
        | finds_closed _ k e ↦ absurd (false≢true (sym o ∙ k))
        | accepts c _ _ l e a ↦ absurd (ground (arith, v.watermarks))
      ]
    ]
  ]

-- Memory is bounded: with segments of at most `m` bytes, a buffer that has taken a segment in holds
-- less than the high watermark and `m` bytes.
pub append-lt-bound :
    (ctx : Option Failure) (pause m : ℕ) (b : PendingBuffer) (x : Segment) {c : PendingBuffer}
    → IsValid b
    → IsWellFormed x
    → bytes_len x ≤ m
    → append ctx pause b x ≡ some (done c none)
    → c.current_bytes < b.high_watermark + m
append-lt-bound ctx pause m b x {c} v w l e = elim (append_lem pause b x v w ctx) [
  | inl (_, f) ↦ ground (arith, f)
  | inr (_, inl (h, (d, f, a))) ↦ ground (arith, f, a.bytes)
  | inr (_, inr (_, inl (_, f, _))) ↦ ground (arith, f)
  | inr (_, inr (_, inr (_, _, f))) ↦ ground (arith, f)
]
