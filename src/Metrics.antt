-- ===== src/Metrics.antt =====
-- pkg/metrics/metrics.go: the counters of StreamMetrics and the accumulators of each model. Each
-- field is an int64, given by its 64 bits, and each operation is one atomic step.
pub mod Pending
pub mod Models
use buffered_llm_proxy.Base.{
  ℕ, ◌-◌, ◌^◌, Bool, not, List, [], ◌∷◌, Option, none, some, Bytes, codes, is_empty, bytes_eq,
  if◌then◌else◌,
}
use buffered_llm_proxy.Base.Map.{lookup, insert}
use buffered_llm_proxy.Base.Word.{add64, signed_le}

pub record ModelAccumulator : Type 0 where
  pub requests : ℕ
  pub total_tokens : ℕ
  pub decode_tokens : ℕ
  pub total_ttft_ns : ℕ
  pub last_ttft_ns : ℕ
  pub total_generation_duration_ns : ℕ
  pub total_client_duration_ns : ℕ

pub record StreamMetrics : Type 0 where
  pub upstream_sse_events : ℕ
  pub downstream_sse_events : ℕ
  pub reasoning_fragments_in : ℕ
  pub reasoning_events_out : ℕ
  pub content_fragments_in : ℕ
  pub content_events_out : ℕ
  pub tool_argument_fragments_in : ℕ
  pub tool_events_out : ℕ
  pub upstream_bytes : ℕ
  pub downstream_bytes : ℕ
  pub compression_uncompressed_bytes : ℕ
  pub compression_compressed_bytes : ℕ
  pub pending_bytes_current : ℕ
  pub pending_bytes_max : ℕ
  pub reader_pause_count : ℕ
  pub reader_pause_duration_ns : ℕ
  pub downstream_write_ns : ℕ
  pub models : List (Bytes × ModelAccumulator)

abbrev pub no_metrics : StreamMetrics
no_metrics = record {
  upstream_sse_events = 0;
  downstream_sse_events = 0;
  reasoning_fragments_in = 0;
  reasoning_events_out = 0;
  content_fragments_in = 0;
  content_events_out = 0;
  tool_argument_fragments_in = 0;
  tool_events_out = 0;
  upstream_bytes = 0;
  downstream_bytes = 0;
  compression_uncompressed_bytes = 0;
  compression_compressed_bytes = 0;
  pending_bytes_current = 0;
  pending_bytes_max = 0;
  reader_pause_count = 0;
  reader_pause_duration_ns = 0;
  downstream_write_ns = 0;
  models = [];
}

unfoldable pub inc_upstream_events : StreamMetrics → StreamMetrics
inc_upstream_events m = record m { upstream_sse_events = add64 m.upstream_sse_events 1 }

unfoldable pub inc_downstream_events : StreamMetrics → StreamMetrics
inc_downstream_events m = record m { downstream_sse_events = add64 m.downstream_sse_events 1 }

unfoldable pub inc_reasoning_fragments_in : StreamMetrics → StreamMetrics
inc_reasoning_fragments_in m = record m {
  reasoning_fragments_in = add64 m.reasoning_fragments_in 1;
}

unfoldable pub inc_reasoning_events_out : StreamMetrics → StreamMetrics
inc_reasoning_events_out m = record m { reasoning_events_out = add64 m.reasoning_events_out 1 }

unfoldable pub inc_content_fragments_in : StreamMetrics → StreamMetrics
inc_content_fragments_in m = record m { content_fragments_in = add64 m.content_fragments_in 1 }

unfoldable pub inc_content_events_out : StreamMetrics → StreamMetrics
inc_content_events_out m = record m { content_events_out = add64 m.content_events_out 1 }

unfoldable pub inc_tool_argument_fragments_in : StreamMetrics → StreamMetrics
inc_tool_argument_fragments_in m = record m {
  tool_argument_fragments_in = add64 m.tool_argument_fragments_in 1;
}

unfoldable pub inc_tool_events_out : StreamMetrics → StreamMetrics
inc_tool_events_out m = record m { tool_events_out = add64 m.tool_events_out 1 }

unfoldable pub add_upstream_bytes : ℕ → StreamMetrics → StreamMetrics
add_upstream_bytes n m = record m { upstream_bytes = add64 m.upstream_bytes n }

unfoldable pub add_downstream_bytes : ℕ → StreamMetrics → StreamMetrics
add_downstream_bytes n m = record m { downstream_bytes = add64 m.downstream_bytes n }

-- The store, and the loop that raises the maximum: when no other stream stores in between, its
-- first compare-and-swap succeeds.
unfoldable pub set_pending_bytes : ℕ → StreamMetrics → StreamMetrics
set_pending_bytes n m = record m {
  pending_bytes_current = n;
  pending_bytes_max = if signed_le n m.pending_bytes_max then m.pending_bytes_max else n;
}

unfoldable pub add_reader_pause : ℕ → StreamMetrics → StreamMetrics
add_reader_pause d m = record m {
  reader_pause_count = add64 m.reader_pause_count 1;
  reader_pause_duration_ns = add64 m.reader_pause_duration_ns d;
}

unfoldable pub add_downstream_write : ℕ → StreamMetrics → StreamMetrics
add_downstream_write d m = record m { downstream_write_ns = add64 m.downstream_write_ns d }

unfoldable pub add_compression_bytes : ℕ → ℕ → StreamMetrics → StreamMetrics
add_compression_bytes uncompressed compressed m = record m {
  compression_uncompressed_bytes = add64 m.compression_uncompressed_bytes uncompressed;
  compression_compressed_bytes = add64 m.compression_compressed_bytes compressed;
}

abbrev pub new_accumulator : ModelAccumulator
new_accumulator = record {
  requests = 0;
  total_tokens = 0;
  decode_tokens = 0;
  total_ttft_ns = 0;
  last_ttft_ns = 0;
  total_generation_duration_ns = 0;
  total_client_duration_ns = 0;
}

abbrev pub or_new : Option ModelAccumulator → ModelAccumulator
or_new none = new_accumulator
or_new (some a) = a

-- The first of the optional client durations, or the upstream one.
abbrev pub first_or : List ℕ → ℕ → ℕ
first_or [] d = d
first_or (c ∷ _) d = c

-- `tokens - 1` of an int64 above 1.
abbrev pub decoded : ℕ → ℕ
decoded tokens = if not (signed_le tokens 1) then tokens - 1 else tokens

-- The additions of `RecordModelMetrics`, under the accumulator's lock.
unfoldable pub accumulate : ℕ → ℕ → ℕ → ℕ → ModelAccumulator → ModelAccumulator
accumulate tokens ttft upstream client a = record {
  requests = add64 a.requests 1;
  total_tokens = add64 a.total_tokens tokens;
  decode_tokens = add64 a.decode_tokens (decoded tokens);
  total_ttft_ns = add64 a.total_ttft_ns ttft;
  last_ttft_ns = ttft;
  total_generation_duration_ns = add64 a.total_generation_duration_ns upstream;
  total_client_duration_ns = add64 a.total_client_duration_ns client;
}

abbrev pub model_name : Bytes → Bytes
model_name model = if is_empty model then codes "unknown" else model

unfoldable pub record_model_metrics : Bytes → ℕ → ℕ → ℕ → List ℕ → StreamMetrics → StreamMetrics
record_model_metrics model tokens ttft upstream clients m =
    let name = model_name model in
    let old = or_new (lookup name m.models) in
    record m {
      models =
          insert name (accumulate tokens ttft upstream (first_or clients upstream) old) m.models;
    }
