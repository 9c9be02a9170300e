-- ===== src/Tests/Routing.antt =====
-- Upstreams and paths, on concrete input.
use buffered_llm_proxy.Base.{◌≡◌, refl, [], ◌∷◌, none, Bytes, codes, equal}
use buffered_llm_proxy.Proxy.Paths.{ends_in_slash, single_joining_slash, single_joining_slash-four}
use buffered_llm_proxy.Proxy.Upstreams.{UpstreamTarget, target, new_proxy_server, resolve_upstream}
use buffered_llm_proxy.Proxy.Upstreams.Resolving.{resolve_upstream-new_proxy_server}

abbrev target_a : UpstreamTarget Bytes
target_a = record { name = codes "a"; url = codes "http://a"; api_key = [] }

abbrev target_b : UpstreamTarget Bytes
target_b = record { name = codes "b"; url = codes "http://b"; api_key = [] }

resolve_upstream-new_proxy_server_example :
    resolve_upstream (new_proxy_server (target_a ∷ target_b ∷ []) none) (codes "a/m")
    ≡ target target_a (codes "m")
unfolding equal
resolve_upstream-new_proxy_server_example =
    resolve_upstream-new_proxy_server [] (target_b ∷ []) target_a none (codes "m") refl (refl, tt)
      (refl, tt)

single_joining_slash-four_example :
    (single_joining_slash (codes "/x") (codes "y") ≡ codes "/x/y")
    × (single_joining_slash (codes "/x") (codes "/y") ≡ codes "/x/y")
    × (single_joining_slash (codes "/x/") (codes "y") ≡ codes "/x/y")
    × (single_joining_slash (codes "/x/") (codes "/y") ≡ codes "/x/y")
unfolding ends_in_slash
single_joining_slash-four_example = single_joining_slash-four (codes "/x") (codes "y") refl refl
