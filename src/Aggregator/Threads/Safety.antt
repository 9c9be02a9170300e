-- ===== src/Aggregator/Threads/Safety.antt =====
-- What holds after every schedule of the reader and the writer.
use buffered_llm_proxy.Base.{
  ℕ, ◌+◌, ◌≤◌, ◌<◌, ◌≡◌, refl, ◌∙◌, Bool, true, List, [], ◌∷◌, ◌++◌, append-nil, Option, some,
  arith, inl, inr,
}
use buffered_llm_proxy.Aggregator.Buffer.{
  PendingBuffer, Failure, append, append_wait, returned, waiting, coalescing, take_all, swap,
  swap_take, close, notify_barrier,
}
use buffered_llm_proxy.Aggregator.Buffer.Backpressure.{
  parked, parks, gives_up, finds_closed, accepts, after_pause, after_pause-IsValid, append_wait_lem,
  append_lem,
}
use buffered_llm_proxy.Aggregator.Buffer.Extends.{Extends, Extends-Coalesces}
use buffered_llm_proxy.Aggregator.Buffer.Invariant.{IsValid}
use buffered_llm_proxy.Aggregator.Buffer.Swapping.{
  has_nothing, is_canceled, is_drained, holds_back, takes, swap_lem, swap_take_lem,
  take_all-IsValid, take_all-empty, close_lem, writer_parks,
}
use buffered_llm_proxy.Aggregator.Threads.{
  Reader, reading, blocked, stopped, crashed, System, Event, closed_by, submits, read_result,
  write_result,
}
use buffered_llm_proxy.Semantic.Segment.{Segment, bytes_len}
use buffered_llm_proxy.Semantic.Segment.Coalescing.{Coalesces}
use buffered_llm_proxy.Semantic.Segment.Merging.{IsWellFormed}

-- A segment that the parser may hand over: well formed, and of at most `m` bytes.
abbrev pub IsFit : ℕ → Segment → Type 0
IsFit m x = IsWellFormed x × (bytes_len x ≤ m)

abbrev pub ReaderOk : ℕ → Reader → Type 0
ReaderOk m (blocked x) = IsFit m x
ReaderOk m crashed = ⊥
ReaderOk m _ = Unit {0}

-- With `h` the high watermark and `l` the low one.
pub record IsSafe (h l m : ℕ) (s : System) : Type 0 where
  pub valid : IsValid s.buffer
  pub coalesced : Coalesces s.taken (s.sent ++ s.buffer.segments)
  pub bounded : s.buffer.current_bytes < h + m
  pub same_high : s.buffer.high_watermark ≡ h
  pub same_low : s.buffer.low_watermark ≡ l
  pub reader_ok : ReaderOk m s.reader

close-watermarks :
    (err : Option Failure) (b : PendingBuffer) {c : PendingBuffer}
    → close err b ≡ some c
    → (c.high_watermark ≡ b.high_watermark) × (c.low_watermark ≡ b.low_watermark)
unfolding close notify_barrier
close-watermarks err b e = (ground arith, ground arith)

module _ {h l m : ℕ} (s : System) (v : IsSafe h l m s) where
  same_content-IsSafe :
      (b : PendingBuffer) (r : Reader)
      → IsValid b
      → b.segments ≡ s.buffer.segments
      → b.current_bytes ≡ s.buffer.current_bytes
      → (b.high_watermark ≡ s.buffer.high_watermark) × (b.low_watermark ≡ s.buffer.low_watermark)
      → ReaderOk m r
      → IsSafe h l m (record s { buffer = b; reader = r })
  same_content-IsSafe b r w e n k o = record {
    valid = w;
    coalesced = rw e v.coalesced;
    bounded = omega (arith, v.bounded);
    same_high = k.0 ∙ v.same_high;
    same_low = k.1 ∙ v.same_low;
    reader_ok = o;
  }

  accepted-IsSafe :
      (x : Segment) (c : PendingBuffer)
      → IsFit m x
      → s.buffer.current_bytes < h
      → IsValid c
      → Extends s.buffer.segments x c.segments
      → c.current_bytes ≤ s.buffer.current_bytes + bytes_len x
      → (c.high_watermark ≡ s.buffer.high_watermark) × (c.low_watermark ≡ s.buffer.low_watermark)
      → IsSafe h l m (record s { buffer = c; reader = reading; taken = s.taken ++ (x ∷ []) })
  accepted-IsSafe x c f l w e n k = record {
    valid = w;
    coalesced = Extends-Coalesces s.taken s.sent e v.coalesced;
    bounded = omega (arith, f.1);
    same_high = k.0 ∙ v.same_high;
    same_low = k.1 ∙ v.same_low;
    reader_ok = tt;
  }

  pub append-IsSafe :
      (x : Segment) (pause : ℕ)
      → IsFit m x
      → IsSafe h l m (read_result s x (append s.ctx pause s.buffer x))
  append-IsSafe x pause f = elim (append_lem pause s.buffer x v.valid f.0 s.ctx) [
    | inl (_, e) ↦ rw e (
        unfold read_result in
        same_content-IsSafe s.buffer stopped v.valid refl refl (refl, refl) tt)
    | inr (_, inl (l, (c, e, a))) ↦ rw e (
        unfold read_result in
        accepted-IsSafe x c f (omega (arith, v.same_high)) a.valid a.extends a.bytes
          (a.same_high, a.same_low))
    | inr (_, inr (_, inl (_, e, p))) ↦ rw e (
        unfold read_result in
        same_content-IsSafe (parked s.buffer) (blocked x) p refl refl (refl, refl) f)
    | inr (_, inr (_, inr (_, _, e))) ↦ rw e (
        unfold read_result in
        same_content-IsSafe (after_pause pause s.buffer) stopped
          (after_pause-IsValid pause s.buffer v.valid) refl refl (refl, refl) tt)
  ]

  pub append_wait-IsSafe :
      (x : Segment) (pause : ℕ)
      → IsFit m x
      → IsSafe h l m (read_result s x (append_wait s.ctx pause s.buffer x))
  append_wait-IsSafe x pause f = elim (append_wait_lem pause s.buffer x v.valid f.0 s.ctx) [
    | parks _ _ _ e p ↦ rw e (
        unfold read_result in
        same_content-IsSafe (parked s.buffer) (blocked x) p refl refl (refl, refl) f)
    | gives_up _ _ e ↦ rw e (
        unfold read_result in
        same_content-IsSafe (after_pause pause s.buffer) stopped
          (after_pause-IsValid pause s.buffer v.valid) refl refl (refl, refl) tt)
    | finds_closed _ _ e ↦ rw e (
        unfold read_result in
        same_content-IsSafe (after_pause pause s.buffer) stopped
          (after_pause-IsValid pause s.buffer v.valid) refl refl (refl, refl) tt)
    | accepts c _ _ l e a ↦ rw e (
        unfold read_result in
        accepted-IsSafe x c f (omega (arith, v.same_high, v.valid.watermarks)) a.valid a.extends
          a.bytes (a.same_high, a.same_low))
  ]

  pub close-IsSafe :
      (r : Reader) (err : Option Failure)
      → ReaderOk m r
      → IsSafe h l m (closed_by s r (close err s.buffer))
  close-IsSafe r err o =
      let (c, e, w, _, n, k, _, _, _) = close_lem s.buffer v.valid err in
      rw e (same_content-IsSafe c r w n k (close-watermarks err s.buffer e) o)

  Took-all-IsSafe :
      (closed : Bool) (err : Option Failure)
      → IsSafe h l m (write_result s (returned (take_all s.buffer) s.buffer.segments closed err))
  unfolding write_result
  Took-all-IsSafe closed err =
      let (e, n, k, j, _, _) = take_all-empty s.buffer in
      record {
        valid = take_all-IsValid s.buffer v.valid;
        coalesced = rw (e, append-nil (s.sent ++ s.buffer.segments)) v.coalesced;
        bounded = omega (arith, v.valid.watermarks, v.same_high);
        same_high = k ∙ v.same_high;
        same_low = j ∙ v.same_low;
        reader_ok = v.reader_ok;
      }

  took_nothing-IsSafe :
      (closed : Bool) (err : Option Failure)
      → IsSafe h l m (write_result s (returned s.buffer [] closed err))
  unfolding write_result
  took_nothing-IsSafe closed err = record {
    valid = v.valid;
    coalesced = rw (append-nil s.sent) v.coalesced;
    bounded = v.bounded;
    same_high = v.same_high;
    same_low = v.same_low;
    reader_ok = v.reader_ok;
  }

  writer_waits-IsSafe :
      (b : PendingBuffer)
      → IsValid b
      → b.segments ≡ s.buffer.segments
      → b.current_bytes ≡ s.buffer.current_bytes
      → (b.high_watermark ≡ s.buffer.high_watermark) × (b.low_watermark ≡ s.buffer.low_watermark)
      → IsSafe h l m (write_result s (waiting b))
  unfolding write_result
  writer_waits-IsSafe b w e n k = record {
    valid = w;
    coalesced = rw e v.coalesced;
    bounded = omega (arith, v.bounded);
    same_high = k.0 ∙ v.same_high;
    same_low = k.1 ∙ v.same_low;
    reader_ok = v.reader_ok;
  }

  writer_held-IsSafe : (n : ℕ) → IsSafe h l m (write_result s (coalescing s.buffer n))
  unfolding write_result
  writer_held-IsSafe n = record {
    valid = v.valid;
    coalesced = v.coalesced;
    bounded = v.bounded;
    same_high = v.same_high;
    same_low = v.same_low;
    reader_ok = v.reader_ok;
  }

  pub swap-IsSafe : IsSafe h l m (write_result s (swap s.ctx s.buffer))
  swap-IsSafe = elim (swap_lem s.buffer v.valid s.ctx) [
    | has_nothing _ _ _ e p ↦
        rw e (writer_waits-IsSafe (writer_parks s.buffer) p refl refl (refl, refl))
    | is_canceled f _ e ↦ rw e (took_nothing-IsSafe s.buffer.closed (some f))
    | is_drained _ _ _ e ↦ rw e (took_nothing-IsSafe true s.buffer.upstream_err)
    | holds_back _ _ _ _ _ _ e ↦ rw e (writer_held-IsSafe s.buffer.wake_channel)
    | takes _ _ e ↦ rw e (Took-all-IsSafe s.buffer.closed s.buffer.upstream_err)
  ]

  pub swap_take-IsSafe : IsSafe h l m (write_result s (swap_take s.ctx s.buffer))
  swap_take-IsSafe = elim (swap_take_lem s.ctx s.buffer) [
    | inl (_, e) ↦ rw e (took_nothing-IsSafe s.buffer.closed s.ctx)
    | inr e ↦ rw e (Took-all-IsSafe s.buffer.closed s.buffer.upstream_err)
  ]

-- The segments of a schedule are what the parser may hand over.
abbrev pub AreFit : ℕ → List Event → Type 0
AreFit m [] = Unit {0}
AreFit m (submits x _ ∷ es) = IsFit m x × AreFit m es
AreFit m (_ ∷ es) = AreFit m es
