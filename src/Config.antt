-- ===== src/Config.antt =====
-- pkg/config/config.go: the command line. Package flag is a parameter: it turns the arguments into the
-- calls of the variables' setters, or fails. So is url.Parse; of a URL's fields those are written
-- out that the code reads or changes. An `int` has 64 bits.
pub mod Settings
pub mod Upstreams
pub mod Limits
pub mod Routes
use buffered_llm_proxy.Aggregator.Buffer.{BufferConfig}
use buffered_llm_proxy.Base.{
  ℕ, Bool, true, false, not, ◌&&◌, ◌||◌, List, [], ◌∷◌, ◌++◌, Option, none, some, Bytes, codes,
  is_empty, has_prefix, if◌then◌else◌, bytes_eq,
}
use buffered_llm_proxy.Base.Int.{ℤ, pos, negsuc, mul64, quotient, int_le}
use buffered_llm_proxy.Base.Map.{lookup, insert}
use buffered_llm_proxy.Base.Split.{split, cut_at, cut_last, contains, has_byte, join}
use buffered_llm_proxy.Base.Trim.{trim_space}
use buffered_llm_proxy.Config.Settings.{
  StringSliceValue, set_value, string_of, Flags, default_flags, Setting, host_flag, upstream_flag,
  api_key_flag, port_flag, max_buffer_mb_flag, low_water_mb_flag, min_coalesce_ms_flag,
  enable_metrics_flag, enable_compression_flag, set_flag, set_flags, parts_of, KeyMap, add_key,
  add_keys,
}

-- `*url.Userinfo`
pub record Userinfo : Type 0 where
  pub username : Bytes
  pub password : Option Bytes

-- `*url.URL`; `rest` is the other fields.
pub record Url : Type 0 where
  pub scheme : Bytes
  pub host : Bytes
  pub user : Option Userinfo
  pub fragment : Bytes
  pub rest : List Bytes

pub record UpstreamConfig : Type 0 where
  pub name : Bytes
  pub url : Url
  pub api_key : Bytes

pub record Config : Type 0 where
  pub host : Bytes
  pub port : ℤ
  pub upstream : Bytes
  pub upstreams : List UpstreamConfig
  pub max_buffer_mb : ℤ
  pub low_water_mb : ℤ
  pub min_coalesce_ms : ℤ
  pub enable_metrics : Bool
  pub enable_compression : Bool
  pub parsed_upstream : Url

pub data ConfigError : Type 0 where
  bad_flags no_upstream : ConfigError
  invalid_upstream duplicate_name : Bytes → ConfigError
  invalid_port : ℤ → ConfigError

pub data Parsed (A : Type 0) : Type 0 where
  ok : A → Parsed A
  failed : ConfigError → Parsed A

-- An error is returned at once.
abbrev pub and_then : {A B : Type 0} → Parsed A → (A → Parsed B) → Parsed B
and_then (ok a) f = f a
and_then (failed e) f = failed e

-- `name=url`, or the URL alone.
unfoldable pub split_name : Bytes → Bytes × Bytes
unfolding cut_at contains has_byte
split_name part = elim (cut_at b'=' part) [
  | none ↦ ([], part)
  | some (before, after) ↦
      let name = trim_space before in
      if not (contains (codes "://") name) && not (has_byte b'/' name)
      then (name, trim_space after)
      else ([], part)
]

-- `url@key`, or the URL alone.
unfoldable pub split_key : Bytes → Bytes × Bytes
unfolding cut_last has_byte has_prefix
split_key target = elim (cut_last b'@' target) [
  | none ↦ (target, [])
  | some (before, after) ↦
      if (has_prefix before (codes "http://") || has_prefix before (codes "https://"))
        && not (has_byte b'/' after)
      then (before, after)
      else (target, [])
]

abbrev password_or : Option Bytes → Bytes → Bytes
password_or none key = key
password_or (some pass) key = if is_empty key then pass else key

unfoldable pub key_of_user : Option Userinfo → Bytes → Bytes
key_of_user none key = key
key_of_user (some u) key = if is_empty key then password_or u.password u.username else key

abbrev pub key_of_fragment : Bytes → Bytes → Bytes
key_of_fragment fragment key = if is_empty key then fragment else key

abbrev pub value_or : Option Bytes → Bytes → Bytes
value_or none key = key
value_or (some k) _ = k

-- The URL without its user and fragment, and the key for the upstream.
unfoldable pub upstream_of : KeyMap → Bytes → Url → Bytes → UpstreamConfig
unfolding key_of_user
upstream_of keys name u inline_key = record {
  name = name;
  url = record u { user = none; fragment = [] };
  api_key =
      value_or (lookup name keys) (key_of_fragment u.fragment (key_of_user u.user inline_key));
}

abbrev pub is_seen : Option (Unit {0}) → Bool
is_seen none = false
is_seen (some _) = true

-- `cfg.Upstreams` and `seenNames`
pub record Seen : Type 0 where
  pub upstreams : List UpstreamConfig
  pub names : List (Bytes × Unit {0})

unfoldable pub add_upstream : UpstreamConfig → Seen → Parsed Seen
add_upstream u s =
    if is_empty u.name
    then ok (record s { upstreams = s.upstreams ++ (u ∷ []) })
    else if is_seen (lookup u.name s.names)
    then failed (duplicate_name u.name)
    else ok (record { upstreams = s.upstreams ++ (u ∷ []); names = insert u.name tt s.names })

-- What follows `url.Parse`, of the text `target`.
unfoldable pub checked_upstream :
    KeyMap → Bytes → Bytes → Bytes → Option Url → Parsed UpstreamConfig
unfolding upstream_of
checked_upstream keys name target key none = failed (invalid_upstream target)
checked_upstream keys name target key (some u) =
    if is_empty u.scheme || is_empty u.host
    then failed (invalid_upstream target)
    else ok (upstream_of keys name u key)

module _ (parse_url : Bytes → Option Url) where
  unfoldable pub parse_upstream : KeyMap → Bytes → Parsed UpstreamConfig
  unfolding split_name split_key checked_upstream
  parse_upstream keys part =
      let (name, text) = split_name part in
      let (target, key) = split_key text in checked_upstream keys name target key (parse_url target)

  -- The body of the loop for a part that is not empty.
  unfoldable pub add_part : KeyMap → Bytes → Seen → Parsed Seen
  unfolding parse_upstream add_upstream
  add_part keys part s = and_then (parse_upstream keys part) (λ u. add_upstream u s)

  unfoldable pub add_parts : KeyMap → List Bytes → Seen → Parsed Seen
  unfolding add_part
  add_parts keys [] s = ok s
  add_parts keys (part ∷ parts) s =
      and_then (if is_empty (trim_space part) then ok s else add_part keys (trim_space part) s)
        (λ s'. add_parts keys parts s')

-- A single upstream without a key gets the key that has no name.
unfoldable pub default_key : KeyMap → List UpstreamConfig → List UpstreamConfig
default_key keys (u ∷ []) =
    if is_empty u.api_key then record u { api_key = value_or (lookup [] keys) [] } ∷ [] else u ∷ []
default_key keys us = us

unfoldable pub config_of : Flags → Url → List UpstreamConfig → Config
config_of f url us =
    let max = if int_le f.max_buffer_mb (pos 0) then pos 32 else f.max_buffer_mb in
    record {
      host = f.host;
      port = f.port;
      upstream = string_of f.upstreams_flag;
      upstreams = us;
      max_buffer_mb = max;
      low_water_mb =
          if int_le f.low_water_mb (pos 0) || int_le max f.low_water_mb
          then quotient (mul64 max 3) 4
          else f.low_water_mb;
      min_coalesce_ms = f.min_coalesce_ms;
      enable_metrics = f.enable_metrics;
      enable_compression = f.enable_compression;
      parsed_upstream = url;
    }

-- What follows the loops.
unfoldable pub check : Flags → List UpstreamConfig → Parsed Config
unfolding config_of
check f [] = failed no_upstream
check f (u ∷ us) =
    if int_le f.port (pos 0) || not (int_le f.port (pos 65535))
    then failed (invalid_port f.port)
    else ok (config_of f u.url (u ∷ us))

abbrev pub no_upstreams : Seen
no_upstreams = record { upstreams = []; names = [] }

module _ (parse : List Bytes → Option (List Setting)) (parse_url : Bytes → Option Url) where
  -- The command line after `fs.Parse`.
  unfoldable pub parse_settings : Flags → Parsed Config
  unfolding add_parts check default_key
  parse_settings f =
      let keys = add_keys (parts_of f.api_keys_flag.values) [] in
      and_then (add_parts parse_url keys (parts_of f.upstreams_flag.values) no_upstreams)
        (λ s. check f (default_key keys s.upstreams))

  -- `ParseFlags`
  unfoldable pub parse_flags : List Bytes → Parsed Config
  unfolding parse_settings
  parse_flags args = elim (parse args) [
    | none ↦ failed bad_flags
    | some settings ↦ parse_settings (set_flags settings default_flags)
  ]

-- `BufferConfig`; a `time.Duration` counts nanoseconds.
unfoldable pub buffer_config : Config → BufferConfig
buffer_config c = record {
  high_watermark = mul64 (mul64 c.max_buffer_mb 1024) 1024;
  low_watermark = mul64 (mul64 c.low_water_mb 1024) 1024;
  min_coalesce_wait = mul64 c.min_coalesce_ms 1000000;
}
