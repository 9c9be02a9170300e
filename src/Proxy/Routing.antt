-- ===== src/Proxy/Routing.antt =====
-- pkg/proxy/server.go: which handler `ServeHTTP` calls.
use buffered_llm_proxy.Base.{
  ◌≡◌, refl, sym, ap, ◌∙◌, Bool, true, false, ◌&&◌, ◌||◌, [], ◌∷◌, ◌++◌, Bytes, codes, equal, ◌==◌,
  if_either, if◌then◌else◌, arith,
}
use buffered_llm_proxy.Proxy.Paths.{ends_in_slash}

pub data Route : Type 0 where
  dashboard monitor last_request metrics : Route
  chat_completions responses models : Route
  method_not_allowed not_found : Route

-- `strings.TrimSuffix(s, "/")`
unfoldable pub trim_slash : Bytes → Bytes
trim_slash [] = []
trim_slash (c ∷ []) = if c == b'/' then [] else c ∷ []
trim_slash (c ∷ d ∷ s) = c ∷ trim_slash (d ∷ s)

abbrev is_metrics_path : Bytes → Bool
is_metrics_path path =
    equal path (codes "/metrics")
    || equal path (codes "/dashboard")
    || equal path (codes "/monitor")
    || equal path (codes "/last_req")
    || equal path (codes "/last-request")

-- A handler of completions takes requests with the method POST.
abbrev posted : Route → Bytes → Route
posted route method = if equal method (codes "POST") then route else method_not_allowed

-- The handler for a path without its last slash.
unfoldable pub clean_route : Bool → Bytes → Bytes → Route
unfolding equal
clean_route allow_metrics_api method clean =
    if allow_metrics_api && is_metrics_path clean
    then if equal clean (codes "/dashboard")
      then dashboard
      else if equal clean (codes "/monitor")
      then monitor
      else if equal clean (codes "/last_req") || equal clean (codes "/last-request")
      then last_request
      else metrics
    else if equal clean (codes "/v1/chat/completions")
    then posted chat_completions method
    else if equal clean (codes "/v1/responses")
    then posted responses method
    else if equal clean (codes "/v1/models") && equal method (codes "GET")
    then models
    else not_found

-- `ServeHTTP`
unfoldable pub route_of : Bool → Bytes → Bytes → Route
unfolding trim_slash clean_route
route_of allow_metrics_api method path = clean_route allow_metrics_api method (trim_slash path)

trim_slash-snoc : (path : Bytes) → trim_slash (path ++ (b'/' ∷ [])) ≡ path
unfolding trim_slash
trim_slash-snoc [] = refl
trim_slash-snoc (c ∷ []) = refl
trim_slash-snoc (c ∷ d ∷ s) = ap (λ t. c ∷ t) (trim_slash-snoc (d ∷ s))

trim_slash-kept : (path : Bytes) → ends_in_slash path ≡ false → trim_slash path ≡ path
unfolding trim_slash ends_in_slash
trim_slash-kept [] e = refl
trim_slash-kept (c ∷ []) e = ground (arith, e)
trim_slash-kept (c ∷ d ∷ s) e = ap (λ t. c ∷ t) (trim_slash-kept (d ∷ s) e)

-- One slash behind a path makes no difference.
pub route_of-snoc :
    (allow : Bool) (method path : Bytes)
    → ends_in_slash path ≡ false
    → route_of allow method (path ++ (b'/' ∷ [])) ≡ route_of allow method path
unfolding route_of
route_of-snoc allow method path e =
    ap (clean_route allow method) (trim_slash-snoc path ∙ sym (trim_slash-kept path e))

abbrev is_report : Route → Bool
is_report dashboard = true
is_report monitor = true
is_report last_request = true
is_report metrics = true
is_report _ = false

-- Without the metrics API no path leads to a report on what the proxy does.
pub route_of-is_report : (method path : Bytes) → is_report (route_of false method path) ≡ false
unfolding route_of clean_route
route_of-is_report method path =
    let clean = trim_slash path in
    if_either (λ (r : Route). is_report r ≡ false) (equal clean (codes "/v1/chat/completions"))
      (if_either (λ (r : Route). is_report r ≡ false) (equal method (codes "POST")) refl refl)
      (if_either (λ (r : Route). is_report r ≡ false) (equal clean (codes "/v1/responses"))
        (if_either (λ (r : Route). is_report r ≡ false) (equal method (codes "POST")) refl refl)
        (if_either (λ (r : Route). is_report r ≡ false)
          (equal clean (codes "/v1/models") && equal method (codes "GET")) refl refl))
