-- ===== src/Proxy/Transparent.antt =====
-- pkg/proxy/server.go: `transparentProxy`, which passes a request without a stream on to an upstream,
-- and the records of last requests. The network is a parameter: what `client.Do` and the reading of
-- the body give. So are the times that are read from the clock. `none` is a panic of the hub.
pub mod Replies
use buffered_llm_proxy.Base.{
  ℕ, Bool, true, false, not, ◌&&◌, ◌||◌, List, [], ◌∷◌, ◌++◌, Option, none, some, Bytes, codes,
  is_empty, if◌then◌else◌, bytes_eq,
}
use buffered_llm_proxy.Base.Int.{ℤ}
use buffered_llm_proxy.Base.Map.{lookup, insert}
use buffered_llm_proxy.Compress.Writer.Calls.{Call, heads, sends}
use buffered_llm_proxy.Http.Header.{Header, set, del}
use buffered_llm_proxy.Proxy.Bodies.{JsonObjects, response_body}
use buffered_llm_proxy.Proxy.Headers.{apply_auth_header, copy_headers}
use buffered_llm_proxy.Proxy.Monitor.{
  MonitorHub, MonitorPacketEvent, downstream, has_subscribers, broadcast,
}
use buffered_llm_proxy.Proxy.Paths.{single_joining_slash}
use buffered_llm_proxy.Proxy.Upstreams.{UpstreamTarget}

pub record LastRequestRecord : Type 0 where
  pub model : Bytes
  pub timestamp_ms : ℤ
  pub duration_ms : ℤ
  pub status_code : ℕ
  pub stream : Bool
  pub request : Bytes
  pub response : Bytes

abbrev pub LastRequests : Type 0
LastRequests = List (Bytes × LastRequestRecord)

-- `recordLastReq`; no caller passes nil.
unfoldable pub record_last_req : LastRequestRecord → LastRequests → LastRequests
record_last_req rec reqs = if is_empty rec.model then reqs else insert rec.model rec reqs

-- `getLastReq`
unfoldable pub get_last_req : Bytes → LastRequests → Option LastRequestRecord
get_last_req model reqs = lookup model reqs

-- The fields of a `*url.URL` that the proxy changes; `origin` is the rest of it.
pub record TargetUrl : Type 0 where
  pub origin : Bytes
  pub path : Bytes
  pub raw_query : Bytes

pub record Request : Type 0 where
  pub method : Bytes
  pub path : Bytes
  pub raw_query : Bytes
  pub header : Header
  pub body : Bytes

pub record OutRequest : Type 0 where
  pub method : Bytes
  pub url : Bytes
  pub header : Header
  pub body : Bytes

-- An error of `client.Do`, or a reply; a broken reply has what can be read of its body, and then the
-- error of reading it.
pub data Reply : Type 0 where
  no_reply : Bytes → Reply
  broken_reply : ℕ → Header → Bytes → Bytes → Reply
  reply : ℕ → Header → Bytes → Reply

pub record Network : Type 0 where
  pub url_string : TargetUrl → Bytes
  -- The error of `http.NewRequestWithContext` for a method and a URL.
  pub request_error : Bytes → Bytes → Option Bytes
  pub send : OutRequest → Reply

-- The arguments of `transparentProxy` about the request of the client, and the times.
pub record Session : Type 0 where
  pub id : Bytes
  pub model : Bytes
  pub preloaded_body : Option Bytes
  pub original_body : Bytes
  pub started_ms : ℤ
  pub duration_ms : ℤ
  pub response_ms : ℤ
  pub end_ms : ℤ

-- What a handler does: the header that it leaves in `w.Header()`, and then its calls.
pub record Answer : Type 0 where
  pub header : Header
  pub calls : List Call

pub record ServerState : Type 0 where
  pub hub : MonitorHub
  pub last_reqs : LastRequests

-- `http.Error`
unfoldable pub http_error : Header → Bytes → ℕ → Answer
unfolding set del
http_error h message code = record {
  header = set (codes "X-Content-Type-Options") (codes "nosniff") (
      set (codes "Content-Type") (codes "text/plain; charset=utf-8")
        (del (codes "Content-Length") h));
  calls = heads code ∷ sends (message ++ (10 ∷ [])) ∷ [];
}

abbrev url_target : Option TargetUrl → Option (UpstreamTarget TargetUrl)
url_target none = none
url_target (some url) = some (record { name = []; url = url; api_key = [] })

-- The target, or the first upstream, or the one URL.
abbrev pub target_or :
    Option (UpstreamTarget TargetUrl)
    → List (UpstreamTarget TargetUrl)
    → Option TargetUrl
    → Option (UpstreamTarget TargetUrl)
target_or (some t) ts url = some t
target_or none (t ∷ _) url = some t
target_or none [] url = url_target url

abbrev dest_url : TargetUrl → Request → TargetUrl
dest_url url r = record url { path = single_joining_slash url.path r.path; raw_query = r.raw_query }

abbrev body_or : Option Bytes → Bytes → Bytes
body_or none body = body
body_or (some preloaded) body = preloaded

unfoldable pub out_request :
    Network → UpstreamTarget TargetUrl → Option Bytes → Request → OutRequest
unfolding single_joining_slash copy_headers apply_auth_header
out_request net t preloaded r = record {
  method = r.method;
  url = net.url_string (dest_url t.url r);
  header = apply_auth_header t.api_key (copy_headers [] r.header);
  body = body_or preloaded r.body;
}

-- The request as it is recorded.
abbrev recorded_request : Session → Bytes
recorded_request s =
    if is_empty s.original_body then body_or s.preloaded_body [] else s.original_body

abbrev pub last_request : Session → ℕ → Bytes → LastRequestRecord
last_request s status response = record {
  model = s.model;
  timestamp_ms = s.started_ms;
  duration_ms = s.duration_ms;
  status_code = status;
  stream = false;
  request = recorded_request s;
  response = response;
}

abbrev response_event : Session → Bytes → MonitorPacketEvent
response_event s body = record {
  session_id = s.id;
  model = s.model;
  timestamp_ms = s.response_ms;
  direction = downstream;
  packet_type = codes "response";
  payload = body;
  summary = codes "Non-Streaming Response";
}

abbrev end_event : Session → MonitorPacketEvent
end_event s = record {
  session_id = s.id;
  model = s.model;
  timestamp_ms = s.end_ms;
  direction = downstream;
  packet_type = codes "session_end";
  payload = codes "{\"status\":\"completed\"}";
  summary = codes "Connection Closed";
}

-- The two events of a response, if somebody watches.
unfoldable pub announce : Session → Bytes → MonitorHub → Option MonitorHub
unfolding has_subscribers broadcast
announce s body hub =
    if not (is_empty s.id) && has_subscribers s.model hub
    then elim (broadcast (response_event s body) hub) [
      | none ↦ none
      | some hub' ↦ broadcast (end_event s) hub'
    ]
    else some hub

-- What follows `client.Do`, with the header of the client's writer.
unfoldable pub pass_on :
    JsonObjects → Session → Header → ServerState → Reply → Option (Answer × ServerState)
unfolding http_error record_last_req response_body announce copy_headers del
pass_on json s h st (no_reply e) = some (
  http_error h (codes "upstream error: " ++ e) 502,
  record st {
    last_reqs = record_last_req (last_request s 502 (codes "upstream error: " ++ e)) st.last_reqs;
  },
)
pass_on json s h st (broken_reply status header body e) =
    some (http_error h (codes "failed to read upstream response: " ++ e) 502, st)
pass_on json s h st (reply status header body) =
    let out = response_body json s.model header body in
    elim (announce s out st.hub) [
      | none ↦ none
      | some hub ↦ some (
        record {
          header = del (codes "Content-Length") (copy_headers h header);
          calls = heads status ∷ sends out ∷ [];
        },
        record { hub = hub; last_reqs = record_last_req (last_request s status out) st.last_reqs },
      )
    ]

-- A request to one upstream.
unfoldable pub request_from :
    JsonObjects
    → Network
    → UpstreamTarget TargetUrl
    → Request
    → Session
    → Header
    → ServerState
    → Option (Answer × ServerState)
unfolding out_request pass_on http_error
request_from json net t r s h st =
    let out = out_request net t s.preloaded_body r in
    elim (net.request_error out.method out.url) [
      | some e ↦ some (http_error h (codes "failed to create upstream request: " ++ e) 500, st)
      | none ↦ pass_on json s h st (net.send out)
    ]

-- `transparentProxy`
unfoldable pub transparent_proxy :
    JsonObjects
    → Network
    → List (UpstreamTarget TargetUrl)
    → Option TargetUrl
    → Option (UpstreamTarget TargetUrl)
    → Request
    → Session
    → Header
    → ServerState
    → Option (Answer × ServerState)
unfolding request_from http_error
transparent_proxy json net upstreams url target r s h st = elim (target_or target upstreams url) [
  | none ↦ some (http_error h (codes "no upstream configured") 502, st)
  | some t ↦ request_from json net t r s h st
]
