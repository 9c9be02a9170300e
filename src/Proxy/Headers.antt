-- ===== src/Proxy/Headers.antt =====
-- pkg/proxy/server.go: `copyHeaders`, `isHopByHop` and `applyAuthHeader`.
pub mod HopByHop
use buffered_llm_proxy.Base.{
  Bool, true, false, not, ◌||◌, List, [], ◌∷◌, ◌++◌, Bytes, codes, is_empty, equal, has_prefix,
  if◌then◌else◌,
}
use buffered_llm_proxy.Base.Lower.{to_lower}
use buffered_llm_proxy.Http.Header.{Header, set, add, canonical_key}

abbrev pub hop_by_hop : List Bytes
hop_by_hop =
    codes "connection"
    ∷ codes "keep-alive"
    ∷ codes "proxy-authenticate"
    ∷ codes "proxy-authorization"
    ∷ codes "te"
    ∷ codes "trailers"
    ∷ codes "transfer-encoding"
    ∷ codes "upgrade"
    ∷ []

abbrev pub is_one_of : Bytes → List Bytes → Bool
is_one_of s [] = false
is_one_of s (t ∷ ts) = equal s t || is_one_of s ts

-- `isHopByHop`
unfoldable pub is_hop_by_hop : Bytes → Bool
unfolding equal to_lower
is_hop_by_hop header = is_one_of (to_lower header) hop_by_hop

-- `for _, v := range vv { dst.Add(k, v) }`
unfoldable pub add_values : Bytes → List Bytes → Header → Header
unfolding add canonical_key
add_values key [] dst = dst
add_values key (v ∷ vs) dst = add_values key vs (add (canonical_key key) v dst)

-- `copyHeaders`
unfoldable pub copy_headers : Header → Header → Header
unfolding is_hop_by_hop add_values
copy_headers dst [] = dst
copy_headers dst ((key, vs) ∷ src) =
    copy_headers (if is_hop_by_hop key then dst else add_values key vs dst) src

-- `applyAuthHeader`
unfoldable pub apply_auth_header : Bytes → Header → Header
unfolding set has_prefix to_lower
apply_auth_header api_key h =
    if is_empty api_key
    then h
    else set (codes "Authorization")
        (if has_prefix (to_lower api_key) (codes "bearer ")
          then api_key
          else codes "Bearer " ++ api_key)
        h
