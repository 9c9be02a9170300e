-- ===== src/Aggregator/Threads.antt =====
-- The reader goroutine and the writer loop of `ProcessStream` in pkg/aggregator/stream.go, around
-- one buffer. A schedule is the list of the atomic steps in the order in which they take the lock;
-- a step that is not enabled changes nothing. Parsing, serializing and the client's writes are not
-- part of a step: `taken` are the segments that `Append` has taken in, `sent` those that `Swap`
-- has handed to the writer.
pub mod Safety
pub mod Schedules
pub mod Liveness
use buffered_llm_proxy.Base.{
  ℕ, Bool, true, false, not, ◌&&◌, List, [], ◌∷◌, ◌++◌, Option, none, some, if◌then◌else◌, is_empty,
}
use buffered_llm_proxy.Aggregator.Buffer.{
  PendingBuffer, BufferConfig, new_pending_buffer, Failure, eof, is_none, Appended, done, paused,
  append, append_wait, Swapped, returned, waiting, coalescing, swap, swap_take, close,
}
use buffered_llm_proxy.Metrics.{StreamMetrics}
use buffered_llm_proxy.Semantic.Segment.{Segment}

pub data Reader : Type 0 where
  reading : Reader
  blocked : Segment → Reader
  stopped : Reader
  crashed : Reader

pub data Writer : Type 0 where
  looping : Writer
  waits : Writer
  held : Writer
  finished : Option Failure → Writer

pub record System : Type 0 where
  pub buffer : PendingBuffer
  pub ctx : Option Failure
  pub reader : Reader
  pub writer : Writer
  pub taken : List Segment
  pub sent : List Segment

-- `submits`: the reader has parsed a segment. `retries`: a woken reader gets the lock again.
-- `ends`: the reader has met the end of the upstream or an error, and closes the buffer.
-- `cancels`: the context is done. `monitors`: the goroutine that watches it closes the buffer.
-- `swaps`: the writer calls `Swap`, or is woken in it. `fires`: its coalescing wait is over.
pub data Event : Type 0 where
  submits : Segment → ℕ → Event
  retries : ℕ → Event
  ends : Option Failure → Event
  cancels : Failure → Event
  monitors swaps fires : Event

unfoldable pub read_result : System → Segment → Option Appended → System
read_result s x none = record s { reader = crashed }
read_result s x (some (done b none)) = record s {
  buffer = b;
  reader = reading;
  taken = s.taken ++ (x ∷ []);
}
read_result s x (some (done b (some e))) = record s { buffer = b; reader = stopped }
read_result s x (some (paused b)) = record s { buffer = b; reader = blocked x }

unfoldable pub submit : System → Reader → Segment → ℕ → System
submit s reading x pause = read_result s x (append s.ctx pause s.buffer x)
submit s _ x pause = s

unfoldable pub retry : System → Reader → ℕ → System
retry s (blocked x) pause =
    if s.buffer.reader_parked then s else read_result s x (append_wait s.ctx pause s.buffer x)
retry s _ pause = s

abbrev closed_by : System → Reader → Option PendingBuffer → System
closed_by s r none = record s { reader = crashed }
closed_by s r (some b) = record s { buffer = b; reader = r }

unfoldable pub end_reading : System → Reader → Option Failure → System
end_reading s reading err = closed_by s stopped (close err s.buffer)
end_reading s _ err = s

unfoldable pub monitor : System → Option Failure → System
monitor s none = s
monitor s (some e) = closed_by s s.reader (close (some e) s.buffer)

unfoldable pub cancel : System → Option Failure → Failure → System
cancel s none e = record s { ctx = some e }
cancel s (some _) e = s

-- `err != nil && !errors.Is(err, io.EOF)`
abbrev pub is_fatal : Option Failure → Bool
is_fatal none = false
is_fatal (some eof) = false
is_fatal (some _) = true

-- The loop of the writer behind `Swap`: it ends on an error with an empty snapshot, and when the
-- buffer is closed and empty.
unfoldable pub write_result : System → Swapped → System
write_result s (waiting b) = record s { buffer = b; writer = waits }
write_result s (coalescing b _) = record s { buffer = b; writer = held }
write_result s (returned b snapshot closed err) = record s {
  buffer = b;
  sent = s.sent ++ snapshot;
  writer =
      if is_fatal err && is_empty snapshot
      then finished err
      else if closed && is_empty b.segments
      then finished none
      else looping;
}

unfoldable pub swap_step : System → Writer → System
swap_step s looping = write_result s (swap s.ctx s.buffer)
swap_step s waits = if s.buffer.writer_parked then s else write_result s (swap s.ctx s.buffer)
swap_step s _ = s

unfoldable pub fire : System → Writer → System
fire s held = write_result s (swap_take s.ctx s.buffer)
fire s _ = s

unfoldable pub step : System → Event → System
step s (submits x pause) = submit s s.reader x pause
step s (retries pause) = retry s s.reader pause
step s (ends err) = end_reading s s.reader err
step s (cancels e) = cancel s s.ctx e
step s monitors = monitor s s.ctx
step s swaps = swap_step s s.writer
step s fires = fire s s.writer

unfoldable pub run : System → List Event → System
run s [] = s
run s (e ∷ es) = run (step s e) es

unfoldable pub start : BufferConfig → StreamMetrics → System
start cfg m = record {
  buffer = new_pending_buffer cfg m;
  ctx = none;
  reader = reading;
  writer = looping;
  taken = [];
  sent = [];
}
