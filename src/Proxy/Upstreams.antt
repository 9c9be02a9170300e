-- ===== src/Proxy/Upstreams.antt =====
-- pkg/proxy/server.go: the targets of `NewProxyServer` and `resolveUpstream`. A target's `*url.URL`
-- is any type. A pointer into the slice of targets, which is not changed later, is its target.
pub mod Resolving
use buffered_llm_proxy.Base.{
  ℕ, Bool, true, false, List, [], ◌∷◌, Option, none, some, Bytes, codes, is_empty, ◌==◌,
  if◌then◌else◌, bytes_eq,
}
use buffered_llm_proxy.Base.Map.{lookup, insert}

pub record UpstreamTarget {ℓ} (Url : Type ℓ) : Type ℓ where
  pub name : Bytes
  pub url : Url
  pub api_key : Bytes

pub record ProxyServer {ℓ} (Url : Type ℓ) : Type ℓ where
  pub upstreams : List (UpstreamTarget Url)
  pub upstream_map : List (Bytes × UpstreamTarget Url)

-- The errors are `upstream not found` and `model does not specify upstream prefix`.
pub data Resolved {ℓ} (Url : Type ℓ) : Type ℓ where
  target : UpstreamTarget Url → Bytes → Resolved Url
  not_found : Bytes → Bytes → Resolved Url
  no_prefix : Bytes → Resolved Url

-- `strings.Cut(s, "/")`: the text before and after the first slash.
unfoldable pub cut_slash : Bytes → Option (Bytes × Bytes)
cut_slash [] = none
cut_slash (c ∷ s) =
    if c == b'/'
    then some ([], s)
    else elim (cut_slash s) [ none ↦ none | some (before, after) ↦ some (c ∷ before, after) ]

-- The loop over the configured targets; one without a name has no entry.
unfoldable pub add_targets {ℓ} :
    {Url : Type ℓ}
    → List (UpstreamTarget Url)
    → List (Bytes × UpstreamTarget Url)
    → List (Bytes × UpstreamTarget Url)
add_targets [] m = m
add_targets (t ∷ ts) m = add_targets ts (if is_empty t.name then m else insert t.name t m)

abbrev url_target {ℓ} : {Url : Type ℓ} → Url → UpstreamTarget Url
url_target url = record { name = []; url = url; api_key = [] }

-- The routing fields of `NewProxyServer`: from the list of targets, or else from the one URL.
unfoldable pub new_proxy_server {ℓ} :
    {Url : Type ℓ} → List (UpstreamTarget Url) → Option Url → ProxyServer Url
unfolding add_targets
new_proxy_server (t ∷ ts) url = record {
  upstreams = t ∷ ts;
  upstream_map = add_targets (t ∷ ts) [];
}
new_proxy_server [] none = record { upstreams = []; upstream_map = [] }
new_proxy_server [] (some url) = record {
  upstreams = url_target url ∷ [];
  upstream_map = ([], url_target url) ∷ [];
}

-- The first key of the list that has an entry.
unfoldable pub first_of {ℓ} :
    {Url : Type ℓ} → List Bytes → List (Bytes × UpstreamTarget Url) → Option (UpstreamTarget Url)
first_of [] m = none
first_of (k ∷ ks) m = elim (lookup k m) [ none ↦ first_of ks m | some t ↦ some t ]

abbrev only {ℓ} : {Url : Type ℓ} → List (UpstreamTarget Url) → Option (UpstreamTarget Url)
only (t ∷ []) = some t
only _ = none

-- `resolveUpstream`
unfoldable pub resolve_upstream {ℓ} : {Url : Type ℓ} → ProxyServer Url → Bytes → Resolved Url
unfolding cut_slash first_of
resolve_upstream s model = elim (cut_slash model) [
  | some (prefix, rest) ↦ elim (lookup prefix s.upstream_map) [
    | some t ↦ target t rest
    | none ↦ not_found prefix model
  ]
  | none ↦ elim (only s.upstreams) [
    | some t ↦ target t model
    | none ↦ elim (first_of (codes "default" ∷ [] ∷ model ∷ []) s.upstream_map) [
      | some t ↦ target t model
      | none ↦ no_prefix model
    ]
  ]
]
