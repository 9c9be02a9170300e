-- ===== src/Config/Routes.antt =====
-- From the command line to the upstream of a request.
use buffered_llm_proxy.Base.{
  ◌≡◌, refl, ap, subst, true, false, List, [], ◌∷◌, ◌++◌, Option, some, Bytes, is_empty, arith,
}
use buffered_llm_proxy.Base.Split.{has_byte}
use buffered_llm_proxy.Config.{Url, UpstreamConfig, Config, ok, parse_flags}
use buffered_llm_proxy.Config.Settings.{Setting}
use buffered_llm_proxy.Config.Limits.{parse_flags-IsConfig}
use buffered_llm_proxy.Config.Upstreams.{AreUpstreams, is_taken, are_distinct}
use buffered_llm_proxy.Proxy.Upstreams.{UpstreamTarget, target, new_proxy_server, resolve_upstream}
use buffered_llm_proxy.Proxy.Upstreams.Resolving.{
  HasNoSlash, AreOther, resolve_upstream-new_proxy_server,
}

abbrev pub target_of : UpstreamConfig → UpstreamTarget Url
target_of u = record { name = u.name; url = u.url; api_key = u.api_key }

-- The loop of `main` over `cfg.Upstreams`.
unfoldable pub targets_of : List UpstreamConfig → List (UpstreamTarget Url)
targets_of [] = []
targets_of (u ∷ us) = target_of u ∷ targets_of us

targets_of-append :
    (us ws : List UpstreamConfig) → targets_of (us ++ ws) ≡ targets_of us ++ targets_of ws
unfolding targets_of
targets_of-append [] ws = refl
targets_of-append (u ∷ us) ws = ap (λ ts. target_of u ∷ ts) (targets_of-append us ws)

has_byte-HasNoSlash : (name : Bytes) → has_byte b'/' name ≡ false → HasNoSlash name
unfolding has_byte
has_byte-HasNoSlash [] h = tt
has_byte-HasNoSlash (c ∷ s) h = (ground (arith, h), has_byte-HasNoSlash s (ground (arith, h)))

is_taken-AreOther :
    (name : Bytes) (us : List UpstreamConfig)
    → is_taken name us ≡ false
    → AreOther name (targets_of us)
unfolding targets_of
is_taken-AreOther name [] h = tt
is_taken-AreOther name (u ∷ us) h =
    (ground (arith, h), is_taken-AreOther name us (ground (arith, h)))

no_slash_at :
    (before after : List UpstreamConfig) (u : UpstreamConfig)
    → AreUpstreams (before ++ (u ∷ after))
    → has_byte b'/' u.name ≡ false
no_slash_at [] after u v = v.0.no_slash
no_slash_at (_ ∷ before) after u v = no_slash_at before after u v.1

not_taken_at :
    (before after : List UpstreamConfig) (u : UpstreamConfig)
    → are_distinct (before ++ (u ∷ after)) ≡ true
    → is_empty u.name ≡ false
    → is_taken u.name after ≡ false
not_taken_at [] after u d n = ground (arith, d, n)
not_taken_at (_ ∷ before) after u d n = not_taken_at before after u (ground (arith, d)) n

module _ (parse : List Bytes → Option (List Setting)) (parse_url : Bytes → Option Url) where
  -- A proxy that is started with the upstreams of a command line sends a request for the model
  -- `name/model` to the upstream with that name, wherever it stands on the command line, with its own
  -- URL and key, and with the name `model`.
  pub parse_flags-resolve_upstream :
      (args : List Bytes) (c : Config) (before after : List UpstreamConfig) (u : UpstreamConfig)
      (model : Bytes)
      → parse_flags parse parse_url args ≡ ok c
      → c.upstreams ≡ before ++ (u ∷ after)
      → is_empty u.name ≡ false
      → resolve_upstream
          (new_proxy_server (targets_of c.upstreams) (some c.parsed_upstream))
          (u.name ++ (b'/' ∷ model))
        ≡ target (target_of u) model
  unfolding targets_of
  parse_flags-resolve_upstream args c before after u model e at n =
      let v = (parse_flags-IsConfig parse parse_url args c e).upstreams_are in
      let all = subst AreUpstreams at v.all_are in
      let distinct = subst (λ us. are_distinct us ≡ true) at v.distinct in
      rw (at, targets_of-append before (u ∷ after))
        (resolve_upstream-new_proxy_server (targets_of before) (targets_of after) (target_of u)
          (some c.parsed_upstream) model n
          (has_byte-HasNoSlash u.name (no_slash_at before after u all))
          (is_taken-AreOther u.name after (not_taken_at before after u distinct n)))
