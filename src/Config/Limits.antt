-- ===== src/Config/Limits.antt =====
-- The numbers of a configuration, and the watermarks of the buffers it makes.
use mathlib.Core.Bool.{true≢false}
use buffered_llm_proxy.Aggregator.Buffer.{new_pending_buffer}
use buffered_llm_proxy.Aggregator.Threads.{Event, start, run}
use buffered_llm_proxy.Aggregator.Threads.Liveness.{run-not_both_parked}
use buffered_llm_proxy.Aggregator.Threads.Safety.{AreFit}
use buffered_llm_proxy.Base.{
  ℕ, ◌*◌, ◌^◌, ◌≤◌, ◌<◌, ◌≡◌, refl, sym, ap, ◌∙◌, subst, true, false, not, ◌||◌, List, [], ◌∷◌,
  Option, Bytes, leb, if◌then◌else◌, Bool-cases, Option-cases, inl, inr, arith,
}
use buffered_llm_proxy.Base.Int.{
  ℤ, pos, negsuc, mul64, quotient, int_le, mul64-small, quotient-mul64,
}
use buffered_llm_proxy.Config.{
  Url, UpstreamConfig, Config, ok, add_parts, no_upstreams, default_key, config_of, check,
  parse_settings, parse_flags, buffer_config,
}
use buffered_llm_proxy.Config.Settings.{
  Flags, Setting, default_flags, set_flags, parts_of, add_keys,
}
use buffered_llm_proxy.Config.Upstreams.{
  AreConfigured, OnOk, OnOk-and_then, IsSeen, no_upstreams-IsSeen, add_parts-IsSeen,
  default_key-AreConfigured,
}
use buffered_llm_proxy.Metrics.{StreamMetrics}

-- A configuration that can be used: the port is one of TCP, there is an upstream, the buffer has a
-- size, and the low watermark is below it.
pub record IsConfig (c : Config) : Type 0 where
  pub port_is : (p : ℕ) × (c.port ≡ pos p) × (1 ≤ p) × (p ≤ 65535)
  pub upstreams_are : AreConfigured c.upstreams
  pub first_is :
      (u : UpstreamConfig) × (us : List UpstreamConfig) × (c.upstreams ≡ u ∷ us)
      × (c.parsed_upstream ≡ u.url)
  pub max_is : (n : ℕ) × (c.max_buffer_mb ≡ pos n) × (1 ≤ n)
  pub low_is : int_le c.max_buffer_mb c.low_water_mb ≡ false

max_lem :
    (m : ℤ) → let max = if int_le m (pos 0) then pos 32 else m in (n : ℕ) × (max ≡ pos n) × (1 ≤ n)
max_lem (negsuc n) = (32, refl, omega arith)
max_lem (pos n) = elim (Bool-cases (leb n 0)) [
  | inl t ↦ (32, rw t refl, omega arith)
  | inr f ↦ (n, rw f refl, ground (arith, f))
]

port_lem :
    (port : ℤ)
    → (int_le port (pos 0) || not (int_le port (pos 65535))) ≡ false
    → (p : ℕ) × (port ≡ pos p) × (1 ≤ p) × (p ≤ 65535)
port_lem (pos p) h = (p, refl, ground (arith, h), ground (arith, h))
port_lem (negsuc p) h = absurd (true≢false h)

low_lem :
    (n : ℕ) (low : ℤ)
    → 1 ≤ n
    → int_le
        (pos n)
        (if int_le low (pos 0) || int_le (pos n) low then quotient (mul64 (pos n) 3) 4 else low)
      ≡ false
low_lem n low h = ground (arith, quotient-mul64 n h)

config_of-IsConfig :
    (f : Flags) (u : UpstreamConfig) (us : List UpstreamConfig)
    → AreConfigured (u ∷ us)
    → (int_le f.port (pos 0) || not (int_le f.port (pos 65535))) ≡ false
    → IsConfig (config_of f u.url (u ∷ us))
unfolding config_of
config_of-IsConfig f u us v p =
    let (n, e, h) = max_lem f.max_buffer_mb in
    record {
      port_is = port_lem f.port p;
      upstreams_are = v;
      first_is = (u, us, refl, refl);
      max_is = (n, e, h);
      low_is = rw e (low_lem n f.low_water_mb h);
    }

check-IsConfig :
    (f : Flags) (us : List UpstreamConfig) → AreConfigured us → OnOk IsConfig (check f us)
unfolding check
check-IsConfig f [] v = tt
check-IsConfig f (u ∷ us) v =
    elim (Bool-cases (int_le f.port (pos 0) || not (int_le f.port (pos 65535)))) [
      | inl t ↦ rw (t, check) tt
      | inr k ↦ rw (k, check) (config_of-IsConfig f u us v k)
    ]

bytes_of : (n : ℕ) → n < 2 ^ 40 → mul64 (mul64 (pos n) 1024) 1024 ≡ pos (n * 2 ^ 20)
bytes_of n h =
    rw (mul64-small n 1024 (omega (arith, h)))
      (mul64-small (n * 1024) 1024 (omega (arith, h)) ∙ ap pos (omega arith))

-- A buffer repairs the watermarks that it is given.
new_pending_buffer-watermarks :
    (high : ℕ) (low wait : ℤ) (metrics : StreamMetrics)
    → 2 ≤ high
    → let b =
        new_pending_buffer
          (record { high_watermark = pos high; low_watermark = low; min_coalesce_wait = wait })
          metrics in
      (b.high_watermark ≡ high) × (0 < b.low_watermark) × (b.low_watermark < high)
unfolding new_pending_buffer
new_pending_buffer-watermarks high (pos l) wait metrics h = ground (arith, h)
new_pending_buffer-watermarks high (negsuc l) wait metrics h = ground (arith, h)

watermarks :
    (c : Config) (n : ℕ) (metrics : StreamMetrics)
    → IsConfig c
    → c.max_buffer_mb ≡ pos n
    → n < 2 ^ 40
    → let b = new_pending_buffer (buffer_config c) metrics in
      (b.high_watermark ≡ n * 2 ^ 20) × (0 < b.low_watermark) × (b.low_watermark < b.high_watermark)
unfolding buffer_config
watermarks c n metrics v max small =
    let (k, e, one) = v.max_is in
    let same : pos k ≡ pos n = sym e ∙ max in
    let wait = mul64 c.min_coalesce_ms 1000000 in
    let low = mul64 (mul64 c.low_water_mb 1024) 1024 in
    let (high, zero_low, low_high) =
      new_pending_buffer-watermarks (n * 2 ^ 20) low wait metrics (ground (arith, same, one)) in
    rw (max, bytes_of n small) (high, zero_low, ground (arith, high, low_high))

module _ (parse : List Bytes → Option (List Setting)) (parse_url : Bytes → Option Url) where
  parse_settings-IsConfig : (f : Flags) → OnOk IsConfig (parse_settings parse parse_url f)
  unfolding parse_settings
  parse_settings-IsConfig f =
      let keys = add_keys (parts_of f.api_keys_flag.values) [] in
      let parts = parts_of f.upstreams_flag.values in
      OnOk-and_then IsSeen IsConfig (add_parts parse_url keys parts no_upstreams)
        (λ s. check f (default_key keys s.upstreams))
        (add_parts-IsSeen parse_url keys parts no_upstreams no_upstreams-IsSeen)
        (λ s v. check-IsConfig f (default_key keys s.upstreams) (
          default_key-AreConfigured keys s.upstreams
            (record { all_are = v.upstreams_are; distinct = v.distinct })))

  parsed-IsConfig : (args : List Bytes) → OnOk IsConfig (parse_flags parse parse_url args)
  unfolding parse_flags
  parsed-IsConfig args = elim (Option-cases (parse args)) [
    | inl n ↦ rw (n, parse_flags) tt
    | inr (settings, e) ↦
        rw (e, parse_flags) (parse_settings-IsConfig (set_flags settings default_flags))
  ]

  -- Whatever the arguments are, a configuration that `ParseFlags` returns can be used: its port is
  -- in 1 to 65535; it has an upstream, and the first one's URL is its own; each upstream has a scheme
  -- and a host, has no user or fragment left, and no slash in its name; no two have the same name; and the
  -- buffer has a size, with a low watermark below it.
  pub parse_flags-IsConfig :
      (args : List Bytes) (c : Config) → parse_flags parse parse_url args ≡ ok c → IsConfig c
  parse_flags-IsConfig args c e = subst (OnOk IsConfig) e (parsed-IsConfig args)

  -- The buffers of a configuration that `ParseFlags` returns have a low watermark above 0 and below
  -- the high one, which is the configured number of megabytes, as long as that is below 2 ^ 40; so in
  -- no schedule of reader and writer on such a buffer are both parked.
  pub buffer_config-not_both_parked :
      (args : List Bytes) (c : Config) (n : ℕ) (metrics : StreamMetrics) (m : ℕ) (es : List Event)
      → parse_flags parse parse_url args ≡ ok c
      → c.max_buffer_mb ≡ pos n
      → n < 2 ^ 40
      → AreFit m es
      → let b = new_pending_buffer (buffer_config c) metrics in
        let end = (run (start (buffer_config c) metrics) es).buffer in
        (b.high_watermark ≡ n * 2 ^ 20)
        × (0 < b.low_watermark)
        × (b.low_watermark < b.high_watermark)
        × (¬ ((end.reader_parked ≡ true) × (end.writer_parked ≡ true)))
  buffer_config-not_both_parked args c n metrics m es e max small fit =
      let v = parse_flags-IsConfig args c e in
      let (high, low, below) = watermarks c n metrics v max small in
      (high, low, below, run-not_both_parked (buffer_config c) metrics m es fit low)
