-- ===== src/Config/Settings.antt =====
-- The flags of the command line, and the keys and parts that their values list.
use buffered_llm_proxy.Base.{
  Bool, true, false, List, [], ◌∷◌, ◌++◌, none, some, Bytes, codes, is_empty, if◌then◌else◌,
  bytes_eq,
}
use buffered_llm_proxy.Base.Int.{ℤ, pos}
use buffered_llm_proxy.Base.Map.{insert}
use buffered_llm_proxy.Base.Split.{split, cut_at, join}
use buffered_llm_proxy.Base.Trim.{trim_space}

pub record StringSliceValue : Type 0 where
  pub values : List Bytes
  pub is_set : Bool

-- `Set` and `String`
unfoldable pub set_value : Bytes → StringSliceValue → StringSliceValue
set_value val s = record {
  values = (if s.is_set then s.values else []) ++ (val ∷ []);
  is_set = true;
}

abbrev pub string_of : StringSliceValue → Bytes
string_of s = join (codes ",") s.values

-- The variables of the flags.
pub record Flags : Type 0 where
  pub host : Bytes
  pub port : ℤ
  pub upstreams_flag : StringSliceValue
  pub api_keys_flag : StringSliceValue
  pub max_buffer_mb : ℤ
  pub low_water_mb : ℤ
  pub min_coalesce_ms : ℤ
  pub enable_metrics : Bool
  pub enable_compression : Bool

abbrev pub default_flags : Flags
default_flags = record {
  host = codes "0.0.0.0";
  port = pos 8080;
  upstreams_flag = record { values = codes "http://127.0.0.1:8000" ∷ []; is_set = false };
  api_keys_flag = record { values = []; is_set = false };
  max_buffer_mb = pos 32;
  low_water_mb = pos 24;
  min_coalesce_ms = pos 0;
  enable_metrics = true;
  enable_compression = true;
}

-- A flag with its value; an alias sets the same variable.
pub data Setting : Type 0 where
  host_flag upstream_flag api_key_flag : Bytes → Setting
  port_flag max_buffer_mb_flag low_water_mb_flag min_coalesce_ms_flag : ℤ → Setting
  enable_metrics_flag enable_compression_flag : Bool → Setting

unfoldable pub set_flag : Setting → Flags → Flags
unfolding set_value
set_flag (host_flag v) f = record f { host = v }
set_flag (upstream_flag v) f = record f { upstreams_flag = set_value v f.upstreams_flag }
set_flag (api_key_flag v) f = record f { api_keys_flag = set_value v f.api_keys_flag }
set_flag (port_flag n) f = record f { port = n }
set_flag (max_buffer_mb_flag n) f = record f { max_buffer_mb = n }
set_flag (low_water_mb_flag n) f = record f { low_water_mb = n }
set_flag (min_coalesce_ms_flag n) f = record f { min_coalesce_ms = n }
set_flag (enable_metrics_flag b) f = record f { enable_metrics = b }
set_flag (enable_compression_flag b) f = record f { enable_compression = b }

unfoldable pub set_flags : List Setting → Flags → Flags
unfolding set_flag
set_flags [] f = f
set_flags (s ∷ settings) f = set_flags settings (set_flag s f)

-- The parts of comma-separated values, in order.
unfoldable pub parts_of : List Bytes → List Bytes
unfolding split
parts_of [] = []
parts_of (raw ∷ raws) = split b',' raw ++ parts_of raws

abbrev pub KeyMap : Type 0
KeyMap = List (Bytes × Bytes)

unfoldable pub add_key : Bytes → KeyMap → KeyMap
unfolding cut_at
add_key part m = elim (cut_at b'=' part) [
  | some (name, val) ↦ insert (trim_space name) (trim_space val) m
  | none ↦ insert [] part m
]

unfoldable pub add_keys : List Bytes → KeyMap → KeyMap
unfolding add_key
add_keys [] m = m
add_keys (part ∷ parts) m =
    add_keys parts (if is_empty (trim_space part) then m else add_key (trim_space part) m)
