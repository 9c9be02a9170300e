-- ===== src/Aggregator/Threads/Liveness.antt =====
-- The two threads never wait for each other, and each call of the writer makes room or drains.
use mathlib.Core.Bool.{true≢false}
use buffered_llm_proxy.Base.{
  ℕ, ◌<◌, ◌≡◌, ◌≢◌, refl, sym, ap, ◌∙◌, subst, true, false, List, [], ◌∷◌, ◌++◌, none, arith, inl,
  inr, Bool-cases, if_false,
}
use buffered_llm_proxy.Aggregator.Buffer.{
  BufferConfig, new_pending_buffer, PendingBuffer, returned, coalescing, take_all, swap, swap_take,
}
use buffered_llm_proxy.Aggregator.Buffer.Backpressure.{
  parks, gives_up, finds_closed, accepts, append_wait_lem,
}
use buffered_llm_proxy.Aggregator.Buffer.Invariant.{IsValid}
use buffered_llm_proxy.Aggregator.Buffer.Swapping.{
  has_nothing, is_canceled, is_drained, holds_back, takes, swap_lem, swap_take_lem,
  take_all-IsValid, take_all-empty,
}
use buffered_llm_proxy.Aggregator.Threads.{
  Reader, reading, blocked, Writer, looping, waits, held, finished, System, Event, swaps, fires,
  retries, read_result, retry, write_result, swap_step, fire, step, run, start,
}
use buffered_llm_proxy.Aggregator.Threads.Safety.{ReaderOk, IsSafe, AreFit}
use buffered_llm_proxy.Aggregator.Threads.Schedules.{run-IsSafe, start-IsSafe}
use buffered_llm_proxy.Metrics.{StreamMetrics}
use buffered_llm_proxy.Semantic.Segment.{Segment}
use buffered_llm_proxy.Semantic.Segment.Coalescing.{total_bytes}
use buffered_llm_proxy.Semantic.Segment.Merging.{IsWellFormed}

IsValid-not_both :
    (b : PendingBuffer)
    → IsValid b
    → 0 < b.low_watermark
    → b.reader_parked ≡ true
    → b.writer_parked ≡ true
    → ⊥
IsValid-not_both b v l r w =
    let e = ap total_bytes (v.writer w).0 in omega (arith, v.counted, (v.reader r).0)

-- No deadlock: in no schedule are the reader and the writer parked at the same time, if the low
-- watermark of the buffer is not 0.
pub run-not_both_parked :
    (cfg : BufferConfig) (metrics : StreamMetrics) (m : ℕ) (es : List Event)
    → AreFit m es
    → 0 < (new_pending_buffer cfg metrics).low_watermark
    → let b = (run (start cfg metrics) es).buffer in
      ¬ ((b.reader_parked ≡ true) × (b.writer_parked ≡ true))
run-not_both_parked cfg metrics m es f l (r, w) =
    let v = run-IsSafe es (start cfg metrics) (start-IsSafe cfg metrics m) f in
    IsValid-not_both (run (start cfg metrics) es).buffer v.valid (omega (arith, v.same_low)) r w

-- The writer is still in its loop.
pub data IsActive : Writer → Type 0 where
  is_looping : IsActive looping
  is_waiting : IsActive waits
  is_held : IsActive held

-- The state in which the writer has taken the content `xs`.
record Took (s t : System) : Type 0 where
  buffer_is : t.buffer ≡ take_all s.buffer
  sent_is : t.sent ≡ s.sent ++ s.buffer.segments
  reader_is : t.reader ≡ s.reader
  ctx_is : t.ctx ≡ s.ctx
  taken_is : t.taken ≡ s.taken
  -- Never back in the coalescing wait, so that a further `fires` changes nothing.
  not_held : t.writer ≢ held
  ends : s.buffer.closed ≡ true → s.buffer.segments ≢ [] → t.writer ≡ finished none

Took-all :
    (s : System)
    → Took s (
        write_result s
          (returned (take_all s.buffer) s.buffer.segments s.buffer.closed s.buffer.upstream_err))
unfolding write_result
Took-all s = record {
  buffer_is = refl;
  sent_is = refl;
  reader_is = refl;
  ctx_is = refl;
  taken_is = refl;
  not_held = λ e. ground arith;
  ends = λ c n. ground (arith, (take_all-empty s.buffer).0);
}

fire-idle : (s : System) (w : Writer) → w ≢ held → fire s w ≡ s
unfolding fire
fire-idle s held h = absurd (h refl)
fire-idle s _ h = refl

module _ (s : System) (v : IsValid s.buffer) (live : s.ctx ≡ none)
    (pending : s.buffer.segments ≢ []) where
  after_take : (t : System) → Took s t → Took s (fire t t.writer)
  after_take t k = rw (fire-idle t t.writer k.not_held) k

  -- The coalescing wait ends with the content taken.
  fire-Took : Took s (write_result s (swap_take s.ctx s.buffer))
  fire-Took = elim (swap_take_lem s.ctx s.buffer) [
    | inl (e, _) ↦ absurd (pending e)
    | inr e ↦ rw e (Took-all s)
  ]

  held-Took : (n : ℕ) → let t = write_result s (coalescing s.buffer n) in Took s (fire t t.writer)
  unfolding write_result fire
  held-Took n =
      let k = fire-Took in
      record {
        buffer_is = k.buffer_is;
        sent_is = k.sent_is;
        reader_is = k.reader_is;
        ctx_is = k.ctx_is;
        taken_is = k.taken_is;
        not_held = k.not_held;
        ends = k.ends;
      }

  swap-Took : let t = write_result s (swap s.ctx s.buffer) in Took s (fire t t.writer)
  swap-Took = elim (swap_lem s.buffer v s.ctx) [
    | has_nothing e _ _ _ _ ↦ absurd (pending e)
    | is_canceled f e _ ↦ ground arith
    | is_drained _ e _ _ ↦ absurd (pending e)
    | holds_back _ _ _ _ _ _ e ↦ rw e (held-Took s.buffer.wake_channel)
    | takes _ _ e ↦ rw e (after_take _ (Took-all s))
  ]

  not_parked : s.buffer.writer_parked ≡ false
  not_parked = elim (Bool-cases s.buffer.writer_parked) [
    | inl t ↦ absurd (pending (v.writer t).0)
    | inr f ↦ f
  ]

  round-Took :
      (w : Writer) → IsActive w → let t = swap_step s w in s.writer ≡ w → Took s (fire t t.writer)
  unfolding swap_step
  round-Took looping is_looping e = swap-Took
  round-Took waits is_waiting e =
      if_false (λ t. Took s (fire t t.writer)) s.buffer.writer_parked s not_parked swap-Took
  round-Took held is_held e = subst (λ w. Took s (fire s w)) (sym e) (unfold fire in fire-Took)
  round-Took (finished _) a e = elim a [ ]

-- One round of an active writer, which may begin anywhere in `Swap`, takes whatever is pending.
round_lem :
    (s : System)
    → IsValid s.buffer
    → s.ctx ≡ none
    → s.buffer.segments ≢ []
    → IsActive s.writer
    → Took s (run s (swaps ∷ fires ∷ []))
unfolding run step
round_lem s v live pending a = round-Took s v live pending s.writer a refl

retry-accepts :
    (s : System) (x : Segment) (p : ℕ) (r : Reader)
    → IsValid s.buffer
    → IsWellFormed x
    → s.ctx ≡ none
    → s.buffer.closed ≡ false
    → s.buffer.current_bytes < s.buffer.low_watermark
    → s.buffer.reader_parked ≡ false
    → r ≡ blocked x
    → ((retry s r p).reader ≡ reading) × ((retry s r p).taken ≡ s.taken ++ (x ∷ []))
unfolding retry read_result
retry-accepts s x p r v w live opened room woken e = elim (append_wait_lem p s.buffer x v w s.ctx) [
  | parks _ _ l _ _ ↦ absurd (omega arith)
  | gives_up _ c _ ↦ ground arith
  | finds_closed _ c _ ↦ absurd (true≢false (sym c ∙ opened))
  | accepts c _ _ _ k a ↦ rw e (
      if_false (λ (t : System). (t.reader ≡ reading) × (t.taken ≡ s.taken ++ (x ∷ [])))
        s.buffer.reader_parked s woken (rw k (refl, refl)))
]

-- Backpressure ends: when a reader is parked and the writer is active, one round of the writer
-- empties the buffer, and the woken reader gets its segment in.
pub round_unblocks :
    {h l m : ℕ} (s : System) (x : Segment) (p : ℕ)
    → IsSafe h l m s
    → 0 < l
    → s.ctx ≡ none
    → s.reader ≡ blocked x
    → s.buffer.reader_parked ≡ true
    → IsActive s.writer
    → let t = run s (swaps ∷ fires ∷ retries p ∷ []) in
      (t.reader ≡ reading) × (t.taken ≡ s.taken ++ (x ∷ []))
unfolding run step
round_unblocks {m} s x p v low live at parked a =
    let pending : s.buffer.segments ≢ [] = λ e.
      omega (arith, ap total_bytes e, v.valid.counted, (v.valid.reader parked).0, v.same_low) in
    let k = round_lem s v.valid live pending a in
    let t = run s (swaps ∷ fires ∷ []) in
    let (_, n, _, lowest, c, woken) = take_all-empty s.buffer in
    let r =
      retry-accepts t x p t.reader (rw k.buffer_is (take_all-IsValid s.buffer v.valid))
        (subst (ReaderOk m) at v.reader_ok).0 (k.ctx_is ∙ live)
        (rw k.buffer_is (c ∙ (v.valid.reader parked).1))
        (rw k.buffer_is (omega (arith, n, lowest, v.same_low))) (rw k.buffer_is woken)
        (k.reader_is ∙ at) in
    (r.0, r.1 ∙ ap (λ u. u ++ (x ∷ [])) k.taken_is)

-- The end of the stream is delivered: once the buffer is closed, one round of an active writer
-- hands over everything that is pending, and the writer then ends.
pub round_drains :
    (s : System)
    → IsValid s.buffer
    → s.ctx ≡ none
    → s.buffer.closed ≡ true
    → s.buffer.segments ≢ []
    → IsActive s.writer
    → let t = run s (swaps ∷ fires ∷ []) in
      (t.sent ≡ s.sent ++ s.buffer.segments) × (t.buffer.segments ≡ []) × (t.writer ≡ finished none)
round_drains s v live c pending a =
    let k = round_lem s v live pending a in
    (k.sent_is, ap (λ b. b.segments) k.buffer_is ∙ (take_all-empty s.buffer).0, k.ends c pending)
