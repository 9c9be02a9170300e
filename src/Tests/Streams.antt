-- ===== src/Tests/Streams.antt =====
-- The buffer, the threads around it, the lines of a stream and the metrics, on concrete input.
use buffered_llm_proxy.Base.{
  ◌≡◌, ◌≢◌, ◌≤◌, ◌<◌, ◌+◌, ◌%◌, ◌^◌, ◌⊎◌, refl, true, false, List, [], ◌∷◌, ◌++◌, Option, none,
  some, Bytes, codes, equal, map, bytes_eq, arith,
}
use buffered_llm_proxy.Sse.Reader.{event, read_event}
use buffered_llm_proxy.Sse.Encode.{encode_event, split_lines}
use buffered_llm_proxy.Sse.Encode.RoundTrip.{read_event-encode_event}
use buffered_llm_proxy.Sse.Lines.{lines, full_line, line, ends_in_cr}
use buffered_llm_proxy.Sse.Lines.Whole.{stream_of, as_line, lines-stream_of}
use buffered_llm_proxy.Sse.Lines.Overlong.{full_line_overlong}
use buffered_llm_proxy.Metrics.{no_metrics, accumulate, new_accumulator, set_pending_bytes}
use buffered_llm_proxy.Metrics.Models.{
  Recorded, record_all, sum_of, entry, record_all_lem, decode_tokens-le,
}
use buffered_llm_proxy.Metrics.Pending.{set_all, AllAtMost, pending_bytes_max-bounds}
use buffered_llm_proxy.Aggregator.Buffer.{
  PendingBuffer, new_pending_buffer, Failure, canceled, buffer_closed, paused, append,
  append_segment, append_wait, append_new, push, notify_barrier, close_wake, is_coalesceable,
  split_last, merge_last, done, swap, close,
}
use buffered_llm_proxy.Aggregator.Buffer.Appending.{Accepts, append_segment-Accepts}
use buffered_llm_proxy.Aggregator.Buffer.Backpressure.{
  Waited, parked, after_pause, append_wait_lem, append_lem, append-lt-bound,
}
use buffered_llm_proxy.Aggregator.Buffer.Invariant.{
  IsValid, IsSeparated, new_pending_buffer-IsValid,
}
use buffered_llm_proxy.Aggregator.Buffer.Swapping.{Swaps, swap_lem, close_lem}
use buffered_llm_proxy.Aggregator.Threads.{
  System, submits, swaps, fires, retries, ends, run, start, crashed, reading, blocked, finished,
  step, submit, end_reading, read_result,
}
use buffered_llm_proxy.Aggregator.Threads.Safety.{AreFit, IsSafe}
use buffered_llm_proxy.Aggregator.Threads.Liveness.{
  run-not_both_parked, is_looping, IsActive, round_unblocks, round_drains,
}
use buffered_llm_proxy.Aggregator.Threads.Schedules.{
  run-Coalesces, run-bounded, run-IsSafe, start-IsSafe,
}
use buffered_llm_proxy.Semantic.Segment.{bytes_len, can_merge, event_type, merge}
use buffered_llm_proxy.Semantic.Segment.Channels.{Channel}
use buffered_llm_proxy.Semantic.Segment.Coalescing.{Coalesces, text_of, total_bytes}
use buffered_llm_proxy.Tests.Data.{content_a, content_b, reasoning_a, small_config, two_lines}

abbrev empty_buffer : PendingBuffer
empty_buffer = new_pending_buffer small_config no_metrics

abbrev schedule : List buffered_llm_proxy.Aggregator.Threads.Event
schedule = submits content_a 0 ∷ submits reasoning_a 0 ∷ submits content_b 0 ∷ []

abbrev at_work : System
at_work = run (start small_config no_metrics) schedule

schedule-AreFit : AreFit 100 schedule
unfolding bytes_len
schedule-AreFit = ground arith

run-Coalesces_example :
    Coalesces at_work.taken (at_work.sent ++ at_work.buffer.segments)
    × ((c : Channel)
        → text_of c (at_work.sent ++ at_work.buffer.segments) ≡ text_of c at_work.taken)
run-Coalesces_example = run-Coalesces small_config no_metrics 100 schedule schedule-AreFit

run-bounded_example :
    (total_bytes at_work.buffer.segments < empty_buffer.high_watermark + 100)
    × (at_work.buffer.current_bytes ≡ total_bytes at_work.buffer.segments)
    × IsSeparated at_work.buffer.segments
    × (at_work.reader ≢ crashed)
run-bounded_example = run-bounded small_config no_metrics 100 schedule schedule-AreFit

run-not_both_parked_example :
    ¬ ((at_work.buffer.reader_parked ≡ true) × (at_work.buffer.writer_parked ≡ true))
unfolding new_pending_buffer
run-not_both_parked_example =
    run-not_both_parked small_config no_metrics 100 schedule schedule-AreFit (omega arith)

at_work-IsSafe : IsSafe 80 40 100 at_work
unfolding new_pending_buffer
at_work-IsSafe =
    run-IsSafe schedule (start small_config no_metrics) (start-IsSafe small_config no_metrics 100)
      schedule-AreFit

-- The reader waits for room after the second segment.
at_work_parked :
    (at_work.reader ≡ blocked content_b)
    × (at_work.buffer.reader_parked ≡ true)
    × (at_work.ctx ≡ none)
    × IsActive at_work.writer
    × (at_work.buffer.segments ≢ [])
unfolding run step start submit read_result append append_segment append_new append_wait push
    notify_barrier close_wake is_coalesceable split_last merge_last can_merge bytes_len event_type
    new_pending_buffer set_pending_bytes merge
at_work_parked = (refl, refl, refl, is_looping, ground arith)

round_unblocks_example :
    let t = run at_work (swaps ∷ fires ∷ retries 0 ∷ []) in
    (t.reader ≡ reading) × (t.taken ≡ at_work.taken ++ (content_b ∷ []))
round_unblocks_example =
    let (r, p, c, w, _) = at_work_parked in
    round_unblocks at_work content_b 0 at_work-IsSafe (omega arith) c r p w

empty_buffer-IsValid : IsValid empty_buffer
empty_buffer-IsValid = new_pending_buffer-IsValid small_config no_metrics

ended : System
ended = run (start small_config no_metrics) (submits content_a 0 ∷ ends none ∷ [])

ended_facts :
    (ended.ctx ≡ none)
    × (ended.buffer.closed ≡ true)
    × (ended.buffer.segments ≢ [])
    × IsActive ended.writer
unfolding ended run step start submit read_result append append_segment append_new push
    is_coalesceable split_last bytes_len event_type new_pending_buffer end_reading close
    notify_barrier close_wake
ended_facts = (refl, refl, ground arith, is_looping)

ended-IsSafe : IsSafe 80 40 100 ended
unfolding new_pending_buffer ended bytes_len
ended-IsSafe =
    run-IsSafe (submits content_a 0 ∷ ends none ∷ []) (start small_config no_metrics)
      (start-IsSafe small_config no_metrics 100) (ground arith)

round_drains_example :
    let t = run ended (swaps ∷ fires ∷ []) in
    (t.sent ≡ ended.sent ++ ended.buffer.segments)
    × (t.buffer.segments ≡ [])
    × (t.writer ≡ finished none)
round_drains_example =
    round_drains ended ended-IsSafe.valid ended_facts.0 ended_facts.1 ended_facts.2 ended_facts.3

append_segment-Accepts_example :
    (c : PendingBuffer) × (append_segment empty_buffer content_a ≡ some (done c none))
    × Accepts empty_buffer content_a c
unfolding new_pending_buffer
append_segment-Accepts_example =
    append_segment-Accepts empty_buffer content_a empty_buffer-IsValid refl tt

append-lt-bound_example :
    (push empty_buffer content_a).current_bytes < empty_buffer.high_watermark + 67
unfolding append append_segment append_new push is_coalesceable event_type split_last bytes_len
    new_pending_buffer
append-lt-bound_example =
    append-lt-bound none 0 67 empty_buffer content_a {c = push empty_buffer content_a}
      empty_buffer-IsValid tt (omega arith) refl

append_wait_lem_example :
    Waited
      (some canceled)
      5
      empty_buffer
      content_a
      (append_wait (some canceled) 5 empty_buffer content_a)
append_wait_lem_example =
    append_wait_lem 5 empty_buffer content_a empty_buffer-IsValid tt (some canceled)

abbrev no_error : Option Failure
no_error = none

append_lem_example :
    let b = empty_buffer in
    let x = content_a in
    ((b.closed ≡ true) × (append none 0 b x ≡ some (done b (some buffer_closed))))
    ⊎ ((b.closed ≡ false)
        × (((b.current_bytes < b.high_watermark)
              × ((c : PendingBuffer) × (append none 0 b x ≡ some (done c none)) × Accepts b x c))
            ⊎ ((b.high_watermark ≤ b.current_bytes)
                × (((no_error ≡ none)
                      × (append none 0 b x ≡ some (paused (parked b)))
                      × IsValid (parked b))
                    ⊎ ((e : Failure) × (no_error ≡ some e)
                        × (append none 0 b x ≡ some (done (after_pause 0 b) (some e))))))))
append_lem_example = append_lem 0 empty_buffer content_a empty_buffer-IsValid tt none

swap_lem_example : Swaps none empty_buffer (swap none empty_buffer)
swap_lem_example = swap_lem empty_buffer empty_buffer-IsValid none

close_lem_example :
    (c : PendingBuffer) × (close (some canceled) empty_buffer ≡ some c)
    × IsValid c
    × (c.closed ≡ true)
    × (c.segments ≡ [])
    × (c.current_bytes ≡ 0)
    × (c.upstream_err ≡ some canceled)
    × (c.writer_parked ≡ false)
    × (c.reader_parked ≡ false)
unfolding new_pending_buffer
close_lem_example = close_lem empty_buffer empty_buffer-IsValid (some canceled)

abbrev lines_a : List Bytes
lines_a = codes "data: x" ∷ [] ∷ codes "id: 1" ∷ []

lines-stream_of_example : lines 16 9 (stream_of lines_a) ≡ map as_line lines_a
lines-stream_of_example = lines-stream_of lines_a 16 9 (ground arith)

full_line_overlong_example :
    (l : Bytes) × (full_line 4 0 (codes "abcdef\n") ≡ some (line (b'e' ∷ l), []))
unfolding ends_in_cr
full_line_overlong_example =
    full_line_overlong b'a' b'e' 0 (codes "bcd") (codes "f") [] (ground arith) (ground arith) refl
      (omega arith)

read_event-encode_event_example :
    read_event true (lines 16 0 (encode_event two_lines ++ stream_of []))
    ≡ event two_lines (lines 16 0 (stream_of []))
unfolding split_lines ends_in_cr
read_event-encode_event_example = read_event-encode_event true 16 0 two_lines [] (ground arith) tt

pending_bytes_max-bounds_example :
    (0 ≤ (set_all (5 ∷ 9 ∷ 2 ∷ []) no_metrics).pending_bytes_max)
    × AllAtMost (set_all (5 ∷ 9 ∷ 2 ∷ []) no_metrics).pending_bytes_max (5 ∷ 9 ∷ 2 ∷ [])
pending_bytes_max-bounds_example =
    pending_bytes_max-bounds (5 ∷ 9 ∷ 2 ∷ []) no_metrics (ground arith) (omega arith)

-- Two requests without a model, and one for `m`.
abbrev three_requests : List Recorded
three_requests =
    record { model = []; tokens = 3; ttft = 1; upstream = 9; clients = [] }
    ∷ record { model = codes "m"; tokens = 5; ttft = 2; upstream = 8; clients = 7 ∷ [] }
    ∷ record { model = []; tokens = 4; ttft = 3; upstream = 6; clients = [] }
    ∷ []

record_all_lem_example :
    let m = record_all three_requests no_metrics in
    let a = entry (codes "unknown") m in
    (a.requests ≡ sum_of (λ r. 1) (codes "unknown") three_requests % 2 ^ 64)
    × (a.total_tokens ≡ sum_of (λ r. r.tokens) (codes "unknown") three_requests % 2 ^ 64)
    × (a.total_ttft_ns ≡ sum_of (λ r. r.ttft) (codes "unknown") three_requests % 2 ^ 64)
    × (a.total_generation_duration_ns
        ≡ sum_of (λ r. r.upstream) (codes "unknown") three_requests % 2 ^ 64)
    × (record m { models = [] } ≡ no_metrics)
record_all_lem_example = record_all_lem three_requests (codes "unknown")

unknown_tokens : sum_of (λ r. r.tokens) (codes "unknown") three_requests ≡ 7
unfolding sum_of equal
unknown_tokens = refl

decode_tokens-le_example :
    let b = accumulate 3 1 9 9 new_accumulator in b.decode_tokens ≤ b.total_tokens
decode_tokens-le_example = decode_tokens-le 3 1 9 9 new_accumulator (omega arith) (omega arith)
