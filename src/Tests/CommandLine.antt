-- ===== src/Tests/CommandLine.antt =====
-- The command line, on concrete input.
use buffered_llm_proxy.Aggregator.Buffer.{new_pending_buffer}
use buffered_llm_proxy.Aggregator.Threads.{start, run, submits}
use buffered_llm_proxy.Aggregator.Threads.Safety.{AreFit}
use buffered_llm_proxy.Semantic.Segment.{bytes_len}
use buffered_llm_proxy.Tests.Data.{content_a, content_b}
use buffered_llm_proxy.Base.{
  ◌≡◌, ◌<◌, ◌*◌, ◌^◌, refl, true, List, [], ◌∷◌, Option, none, some, Bytes, codes, arith, equal,
}
use buffered_llm_proxy.Base.Int.{pos}
use buffered_llm_proxy.Base.Map.{lookup, insert}
use buffered_llm_proxy.Base.Split.{join}
use buffered_llm_proxy.Base.Trim.{trim_space}
use buffered_llm_proxy.Config.{Url, UpstreamConfig, Config, ok, parse_flags, buffer_config}
use buffered_llm_proxy.Config.Settings.{
  Setting, upstream_flag, port_flag, parts_of, set_flags, add_keys,
}
use buffered_llm_proxy.Config.Limits.{IsConfig, parse_flags-IsConfig, buffer_config-not_both_parked}
use buffered_llm_proxy.Config.Routes.{target_of, targets_of, parse_flags-resolve_upstream}
use buffered_llm_proxy.Metrics.{no_metrics}
use buffered_llm_proxy.Proxy.Upstreams.{target, new_proxy_server, resolve_upstream}

-- Any text is a URL on the host `h`.
abbrev parse_url : Bytes → Option Url
parse_url text = some (record {
  scheme = codes "http";
  host = codes "h";
  user = none;
  fragment = [];
  rest = text ∷ [];
})

abbrev parse : List Bytes → Option (List Setting)
parse args = some (upstream_flag (codes "a=http://h/a,b=http://h/b@k") ∷ port_flag (pos 80) ∷ [])

abbrev upstream_a : UpstreamConfig
upstream_a = record {
  name = codes "a";
  url = record {
    scheme = codes "http";
    host = codes "h";
    user = none;
    fragment = [];
    rest = codes "http://h/a" ∷ [];
  };
  api_key = [];
}

abbrev upstream_b : UpstreamConfig
upstream_b = record {
  name = codes "b";
  url = record {
    scheme = codes "http";
    host = codes "h";
    user = none;
    fragment = [];
    rest = codes "http://h/b" ∷ [];
  };
  api_key = codes "k";
}

abbrev schedule : List buffered_llm_proxy.Aggregator.Threads.Event
schedule = submits content_a 0 ∷ submits content_b 0 ∷ []

schedule-AreFit : AreFit 100 schedule
unfolding bytes_len
schedule-AreFit = ground arith

abbrev config : Config
config = record {
  host = codes "0.0.0.0";
  port = pos 80;
  upstream = codes "a=http://h/a,b=http://h/b@k";
  upstreams = upstream_a ∷ upstream_b ∷ [];
  max_buffer_mb = pos 32;
  low_water_mb = pos 24;
  min_coalesce_ms = pos 0;
  enable_metrics = true;
  enable_compression = true;
  parsed_upstream = upstream_a.url;
}

parsed : parse_flags parse parse_url [] ≡ ok config
unfolding parse_flags parts_of set_flags add_keys trim_space lookup insert equal join
parsed = refl

parse_flags-IsConfig_example : IsConfig config
parse_flags-IsConfig_example = parse_flags-IsConfig parse parse_url [] config parsed

buffer_config-not_both_parked_example :
    let b = new_pending_buffer (buffer_config config) no_metrics in
    let end = (run (start (buffer_config config) no_metrics) schedule).buffer in
    (b.high_watermark ≡ 32 * 2 ^ 20)
    × (0 < b.low_watermark)
    × (b.low_watermark < b.high_watermark)
    × (¬ ((end.reader_parked ≡ true) × (end.writer_parked ≡ true)))
buffer_config-not_both_parked_example =
    buffer_config-not_both_parked parse parse_url [] config 32 no_metrics 100 schedule parsed refl
      (omega arith) schedule-AreFit

parse_flags-resolve_upstream_example :
    resolve_upstream
      (new_proxy_server (targets_of config.upstreams) (some config.parsed_upstream))
      (codes "b/m")
    ≡ target (target_of upstream_b) (codes "m")
parse_flags-resolve_upstream_example =
    parse_flags-resolve_upstream parse parse_url [] config (upstream_a ∷ []) [] upstream_b
      (codes "m") parsed refl refl
