-- ===== src/Aggregator/Buffer.antt =====
-- pkg/aggregator/buffer.go. A method holds the lock from its start to its return, so each is one
-- function on the buffer; where it waits on a condition variable or a timer it lets go of the lock,
-- and the function ends there and another one goes on. `none` is a panic.
--
-- A condition variable is a flag that says that its one user is parked; Signal and Broadcast clear
-- it. `barrierWake` is a channel that is made anew for each barrier: its number, and whether it is
-- closed. A size is a number of bytes held in memory, far below 2 ^ 63, so int64 does not wrap.
pub mod Invariant
pub mod Extends
pub mod Appending
pub mod Backpressure
pub mod Swapping
use buffered_llm_proxy.Base.{
  ℕ, ◌+◌, ◌-◌, ◌*◌, ◌/◌, Bool, true, false, not, ◌&&◌, ◌||◌, List, [], ◌∷◌, ◌++◌, Option, none,
  some, ltb, leb, if◌then◌else◌, is_empty, length, Bytes,
}
use buffered_llm_proxy.Base.Int.{ℤ, pos, negsuc}
use buffered_llm_proxy.Metrics.{StreamMetrics, set_pending_bytes, add_reader_pause}
use buffered_llm_proxy.Semantic.Types.{EventType, event_reasoning, event_content, event_tool_call}
use buffered_llm_proxy.Semantic.Segment.{Segment, event_type, bytes_len, can_merge, merge}

pub data Failure : Type 0 where
  buffer_closed canceled deadline_exceeded eof : Failure
  upstream_failure : Bytes → Failure

abbrev pub is_none {ℓ} : {A : Type ℓ} → Option A → Bool
is_none none = true
is_none (some _) = false

pub record BufferConfig : Type 0 where
  pub high_watermark : ℤ
  pub low_watermark : ℤ
  pub min_coalesce_wait : ℤ

abbrev pub default_buffer_config : BufferConfig
default_buffer_config = record {
  high_watermark = pos (32 * 1024 * 1024);
  low_watermark = pos (24 * 1024 * 1024);
  min_coalesce_wait = pos 0;
}

pub record PendingBuffer : Type 0 where
  pub writer_parked : Bool
  pub reader_parked : Bool
  pub wake_channel : ℕ
  pub wake_closed : Bool
  pub has_barrier : Bool
  pub first_emission : Bool
  pub segments : List Segment
  pub current_bytes : ℕ
  pub high_watermark : ℕ
  pub low_watermark : ℕ
  pub min_coalesce_wait : ℤ
  pub closed : Bool
  pub upstream_err : Option Failure
  pub metrics : StreamMetrics

abbrev high_or_default : ℤ → ℕ
high_or_default (pos h) = if leb h 0 then 32 * 1024 * 1024 else h
high_or_default (negsuc _) = 32 * 1024 * 1024

abbrev low_or_default : ℤ → ℕ → ℕ
low_or_default (pos l) h = if leb l 0 || leb h l then h * 3 / 4 else l
low_or_default (negsuc _) h = h * 3 / 4

unfoldable pub new_pending_buffer : BufferConfig → StreamMetrics → PendingBuffer
new_pending_buffer cfg m = record {
  writer_parked = false;
  reader_parked = false;
  wake_channel = 0;
  wake_closed = false;
  has_barrier = false;
  first_emission = true;
  segments = [];
  current_bytes = 0;
  high_watermark = high_or_default cfg.high_watermark;
  low_watermark = low_or_default cfg.low_watermark (high_or_default cfg.high_watermark);
  min_coalesce_wait = cfg.min_coalesce_wait;
  closed = false;
  upstream_err = none;
  metrics = m;
}

infixl 5 ◌>>=◌
abbrev pub ◌>>=◌ {ℓ κ} : {A : Type ℓ} {B : Type κ} → Option A → (A → Option B) → Option B
none >>= f = none
some a >>= f = f a

-- Closing a closed channel panics.
unfoldable pub close_wake : PendingBuffer → Option PendingBuffer
close_wake b = if b.wake_closed then none else some (record b { wake_closed = true })

unfoldable pub notify_barrier : PendingBuffer → Option PendingBuffer
unfolding close_wake
notify_barrier b =
    if not b.has_barrier then close_wake (record b { has_barrier = true }) else some b

unfoldable pub reset_barrier : PendingBuffer → PendingBuffer
reset_barrier b =
    if b.has_barrier
    then record b { has_barrier = false; wake_channel = b.wake_channel + 1; wake_closed = false }
    else b

abbrev coalesceable_type : EventType → Bool
coalesceable_type event_reasoning = true
coalesceable_type event_content = true
coalesceable_type event_tool_call = true
coalesceable_type _ = false

unfoldable pub is_coalesceable : Segment → Bool
is_coalesceable seg = coalesceable_type (event_type seg)

-- A call of `Append` ends with an error or none, or waits on `belowHighWater`.
pub data Appended : Type 0 where
  done : PendingBuffer → Option Failure → Appended
  paused : PendingBuffer → Appended

-- All but the last element, and the last.
unfoldable pub split_last {ℓ} : {A : Type ℓ} → List A → Option (List A × A)
split_last [] = none
split_last (x ∷ xs) = elim (split_last xs) [ none ↦ some ([], x) | some (ys, y) ↦ some (x ∷ ys, y) ]

-- `b.metrics.SetPendingBytes(b.currentBytes)` and `b.notEmpty.Signal()`
abbrev pub publish : PendingBuffer → PendingBuffer
publish b = record b {
  metrics = set_pending_bytes b.current_bytes b.metrics;
  writer_parked = false;
}

unfoldable pub push : PendingBuffer → Segment → PendingBuffer
push b seg = publish (record b {
  segments = b.segments ++ (seg ∷ []);
  current_bytes = b.current_bytes + bytes_len seg;
})

-- `last.Merge(seg)` has made `last` into `merged`.
unfoldable pub merge_last : PendingBuffer → List Segment → Segment → Segment → PendingBuffer
merge_last b init last merged = publish (record b {
  segments = init ++ (merged ∷ []);
  current_bytes =
      if ltb (bytes_len last) (bytes_len merged)
      then b.current_bytes + (bytes_len merged - bytes_len last)
      else b.current_bytes;
})

-- The last part of `Append`, once a new segment has to be added.
unfoldable pub append_new : PendingBuffer → Segment → Option Appended
unfolding push
append_new b seg = do
  b' ← if is_coalesceable seg then some b else notify_barrier b
  some (done (push b' seg) none)

-- `Append` behind its waiting.
unfoldable pub append_segment : PendingBuffer → Segment → Option Appended
unfolding append_new merge_last
append_segment b seg = elim (split_last b.segments) [
  | none ↦ append_new b seg
  | some (init, last) ↦
      if can_merge last seg
      then (do (merged, _) ← merge last seg; some (done (merge_last b init last merged) none))
      else (do b' ← notify_barrier b; append_new b' seg)
]

-- The waiting loop of `Append`, from a point where the lock is held; `pause` is the time since the
-- wait began. `ctx.Err()` is read once: the loop ends in the same result if it changes between.
unfoldable pub append_wait : Option Failure → ℕ → PendingBuffer → Segment → Option Appended
append_wait ctx pause b seg =
    if leb b.low_watermark b.current_bytes && not b.closed && is_none ctx
    then some (paused (record b { reader_parked = true }))
    else let b' = record b { metrics = add_reader_pause pause b.metrics } in
      elim ctx [
        | some e ↦ some (done b' (some e))
        | none ↦ if b.closed then some (done b' (some buffer_closed)) else append_segment b' seg
      ]

unfoldable pub append : Option Failure → ℕ → PendingBuffer → Segment → Option Appended
append ctx pause b seg =
    if b.closed
    then some (done b (some buffer_closed))
    else if leb b.high_watermark b.current_bytes
    then append_wait ctx pause b seg
    else append_segment b seg

-- A call of `Swap` returns a snapshot with the closed flag and an error, waits on `notEmpty`, or
-- waits for the coalescing timer, the wake channel that it saw, or the context.
pub data Swapped : Type 0 where
  returned : PendingBuffer → List Segment → Bool → Option Failure → Swapped
  waiting : PendingBuffer → Swapped
  coalescing : PendingBuffer → ℕ → Swapped

unfoldable pub take_all : PendingBuffer → PendingBuffer
take_all b = reset_barrier (record b {
  first_emission = false;
  segments = [];
  current_bytes = 0;
  reader_parked = false;
  metrics = set_pending_bytes 0 b.metrics;
})

-- `Swap` behind its coalescing wait.
unfoldable pub swap_take : Option Failure → PendingBuffer → Swapped
unfolding take_all
swap_take ctx b =
    if not (is_none ctx) && is_empty b.segments
    then returned b [] b.closed ctx
    else returned (take_all b) b.segments b.closed b.upstream_err

abbrev is_positive : ℤ → Bool
is_positive (pos n) = ltb 0 n
is_positive (negsuc _) = false

unfoldable pub should_wait : PendingBuffer → Bool
should_wait b =
    is_positive b.min_coalesce_wait
    && not b.first_emission
    && not b.has_barrier
    && not b.closed
    && is_none b.upstream_err

unfoldable pub swap : Option Failure → PendingBuffer → Swapped
unfolding swap_take should_wait
swap ctx b =
    if is_empty b.segments && not b.closed && is_none b.upstream_err && is_none ctx
    then waiting (record b { writer_parked = true })
    else if not (is_none ctx)
    then returned b [] b.closed ctx
    else if is_empty b.segments
    then returned b [] b.closed b.upstream_err
    else if should_wait b
    then coalescing b b.wake_channel
    else swap_take ctx b

unfoldable pub close : Option Failure → PendingBuffer → Option PendingBuffer
close err b = if b.closed then some b else do
  b' ← notify_barrier (record b { closed = true; upstream_err = err })
  some (record b' { writer_parked = false; reader_parked = false })

unfoldable pub len : PendingBuffer → ℕ
len b = length b.segments
