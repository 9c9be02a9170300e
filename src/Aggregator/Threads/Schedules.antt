-- ===== src/Aggregator/Threads/Schedules.antt =====
-- Every schedule of the reader and the writer keeps the system safe.
use buffered_llm_proxy.Base.{
  ℕ, ◌+◌, ◌<◌, ◌≡◌, ◌≢◌, refl, List, [], ◌∷◌, ◌++◌, Option, none, some, arith, if_either,
}
use buffered_llm_proxy.Aggregator.Buffer.{BufferConfig, new_pending_buffer, Failure}
use buffered_llm_proxy.Aggregator.Buffer.Invariant.{IsSeparated, new_pending_buffer-IsValid}
use buffered_llm_proxy.Aggregator.Threads.{
  Reader, reading, blocked, stopped, crashed, Writer, looping, waits, held, System, Event, submits,
  retries, ends, cancels, monitors, swaps, fires, submit, retry, end_reading, monitor, cancel,
  swap_step, fire, step, run, start,
}
use buffered_llm_proxy.Aggregator.Threads.Safety.{
  IsFit, ReaderOk, IsSafe, AreFit, append-IsSafe, append_wait-IsSafe, close-IsSafe, swap-IsSafe,
  swap_take-IsSafe,
}
use buffered_llm_proxy.Metrics.{StreamMetrics}
use buffered_llm_proxy.Semantic.Segment.{Segment}
use buffered_llm_proxy.Semantic.Segment.Channels.{Channel}
use buffered_llm_proxy.Semantic.Segment.Coalescing.{
  Coalesces, empty, text_of, total_bytes, Coalesces-text_of,
}

module _ {h l m : ℕ} (s : System) (v : IsSafe h l m s) where
  submit-IsSafe : (r : Reader) (x : Segment) (p : ℕ) → IsFit m x → IsSafe h l m (submit s r x p)
  unfolding submit
  submit-IsSafe reading x p f = append-IsSafe s v x p f
  submit-IsSafe _ x p f = v

  retry-IsSafe : (r : Reader) (p : ℕ) → ReaderOk m r → IsSafe h l m (retry s r p)
  unfolding retry
  retry-IsSafe (blocked x) p f =
      if_either (IsSafe h l m) s.buffer.reader_parked v (append_wait-IsSafe s v x p f)
  retry-IsSafe _ p f = v

  end_reading-IsSafe : (r : Reader) (err : Option Failure) → IsSafe h l m (end_reading s r err)
  unfolding end_reading
  end_reading-IsSafe reading err = close-IsSafe s v stopped err tt
  end_reading-IsSafe _ err = v

  monitor-IsSafe : (ctx : Option Failure) → IsSafe h l m (monitor s ctx)
  unfolding monitor
  monitor-IsSafe none = v
  monitor-IsSafe (some e) = close-IsSafe s v s.reader (some e) v.reader_ok

  cancel-IsSafe : (ctx : Option Failure) (e : Failure) → IsSafe h l m (cancel s ctx e)
  unfolding cancel
  cancel-IsSafe none e = record {
    valid = v.valid;
    coalesced = v.coalesced;
    bounded = v.bounded;
    same_high = v.same_high;
    same_low = v.same_low;
    reader_ok = v.reader_ok;
  }
  cancel-IsSafe (some _) e = v

  swap_step-IsSafe : (w : Writer) → IsSafe h l m (swap_step s w)
  unfolding swap_step
  swap_step-IsSafe looping = swap-IsSafe s v
  swap_step-IsSafe waits = if_either (IsSafe h l m) s.buffer.writer_parked v (swap-IsSafe s v)
  swap_step-IsSafe _ = v

  fire-IsSafe : (w : Writer) → IsSafe h l m (fire s w)
  unfolding fire
  fire-IsSafe held = swap_take-IsSafe s v
  fire-IsSafe _ = v

  step-IsSafe : (e : Event) → AreFit m (e ∷ []) → IsSafe h l m (step s e)
  unfolding step
  step-IsSafe (submits x p) f = submit-IsSafe s.reader x p f.0
  step-IsSafe (retries p) f = retry-IsSafe s.reader p v.reader_ok
  step-IsSafe (ends err) f = end_reading-IsSafe s.reader err
  step-IsSafe (cancels e) f = cancel-IsSafe s.ctx e
  step-IsSafe monitors f = monitor-IsSafe s.ctx
  step-IsSafe swaps f = swap_step-IsSafe s.writer
  step-IsSafe fires f = fire-IsSafe s.writer

AreFit-cons :
    (m : ℕ) (e : Event) (es : List Event) → AreFit m (e ∷ es) → AreFit m (e ∷ []) × AreFit m es
AreFit-cons m (submits x p) es f = ((f.0, tt), f.1)
AreFit-cons m _ es f = (tt, f)

pub run-IsSafe :
    {h l m : ℕ} (es : List Event) (s : System)
    → IsSafe h l m s
    → AreFit m es
    → IsSafe h l m (run s es)
unfolding run
run-IsSafe [] s v f = v
run-IsSafe {m} (e ∷ es) s v f =
    let (now, later) = AreFit-cons m e es f in
    run-IsSafe es (step s e) (step-IsSafe s v e now) later

pub start-IsSafe :
    (cfg : BufferConfig) (metrics : StreamMetrics) (m : ℕ)
    → let b = new_pending_buffer cfg metrics in
      IsSafe b.high_watermark b.low_watermark m (start cfg metrics)
unfolding start new_pending_buffer
start-IsSafe cfg metrics m =
    let w = new_pending_buffer-IsValid cfg metrics in
    record {
      valid = w;
      coalesced = empty;
      bounded = omega (arith, w.watermarks);
      same_high = refl;
      same_low = refl;
      reader_ok = tt;
    }

-- The buffer keeps its contract under every interleaving of the reader, the writer, the context and
-- the close: what the writer has received, followed by what is pending, is the sequence of segments
-- taken in with runs of neighbours merged, and it carries the same text on every channel.
pub run-Coalesces :
    (cfg : BufferConfig) (metrics : StreamMetrics) (m : ℕ) (es : List Event)
    → AreFit m es
    → let s = run (start cfg metrics) es in
      Coalesces s.taken (s.sent ++ s.buffer.segments)
      × ((c : Channel) → text_of c (s.sent ++ s.buffer.segments) ≡ text_of c s.taken)
run-Coalesces cfg metrics m es f =
    let v = run-IsSafe es (start cfg metrics) (start-IsSafe cfg metrics m) f in
    (v.coalesced, λ c. Coalesces-text_of c v.coalesced)

-- Under every interleaving, with segments of at most `m` bytes, the pending bytes stay below the
-- high watermark and `m`, the byte count is exact, and no two neighbours in the buffer could have
-- been merged; no step panics.
pub run-bounded :
    (cfg : BufferConfig) (metrics : StreamMetrics) (m : ℕ) (es : List Event)
    → AreFit m es
    → let s = run (start cfg metrics) es in
      (total_bytes s.buffer.segments < (new_pending_buffer cfg metrics).high_watermark + m)
      × (s.buffer.current_bytes ≡ total_bytes s.buffer.segments)
      × IsSeparated s.buffer.segments
      × (s.reader ≢ crashed)
run-bounded cfg metrics m es f =
    let v = run-IsSafe es (start cfg metrics) (start-IsSafe cfg metrics m) f in
    (
      omega (arith, v.bounded, v.valid.counted),
      v.valid.counted,
      v.valid.separated,
      λ e. rw e at v.reader_ok,
    )
