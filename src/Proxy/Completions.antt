-- ===== src/Proxy/Completions.antt =====
-- pkg/proxy/server.go: `handleStreamingEndpoint`, up to where it hands a stream over to the pipeline.
pub mod Rewriting
use buffered_llm_proxy.Base.{
  ℕ, Bool, true, false, not, ◌&&◌, ◌||◌, List, [], ◌∷◌, ◌++◌, Option, none, some, Bytes, codes,
  is_empty, equal, ◌==◌, if◌then◌else◌,
}
use buffered_llm_proxy.Base.Int.{ℤ}
use buffered_llm_proxy.Base.Split.{contains}
use buffered_llm_proxy.Compress.Writer.Calls.{Call, heads, sends, pushes}
use buffered_llm_proxy.Http.Header.{Header, get, set, del}
use buffered_llm_proxy.Proxy.Bodies.{JsonObjects, rewrite_model_in_body}
use buffered_llm_proxy.Proxy.Headers.{copy_headers}
use buffered_llm_proxy.Proxy.Monitor.{
  MonitorHub, MonitorPacketEvent, upstream, has_subscribers, broadcast,
}
use buffered_llm_proxy.Proxy.Transparent.{
  LastRequestRecord, record_last_req, TargetUrl, Request, OutRequest, Reply, no_reply, broken_reply,
  reply, Network, Session, Answer, ServerState, http_error, out_request, transparent_proxy,
}
use buffered_llm_proxy.Proxy.Upstreams.{
  UpstreamTarget, ProxyServer, Resolved, target, not_found, no_prefix, resolve_upstream,
}
use buffered_llm_proxy.Semantic.Types.{Value, object, text, to_fields}

-- `json.Unmarshal` into a streamCheckPayload, whose error is ignored: what is left in `Stream` and
-- `Model`; `json.Marshal` of a map; and `%q`.
pub record Texts : Type 0 where
  pub payload : Bytes → Bool × Bytes
  pub encode : Value → Bytes
  pub quote : Bytes → Bytes

-- The body of the request, or the error of reading it.
pub data BodyRead : Type 0 where
  unreadable read : Bytes → BodyRead

-- The number of the session and the times.
pub record Clock : Type 0 where
  pub session_id : Bytes
  pub request_ms : ℤ
  pub started_ms : ℤ
  pub duration_ms : ℤ
  pub response_ms : ℤ
  pub end_ms : ℤ

-- The handler is through, or it goes on with the pipeline on the body of the reply, with the error
-- that ends the body, if there is one.
pub data Outcome : Type 0 where
  answered : Answer → ServerState → Outcome
  streaming : Answer → ServerState → Bytes → Option Bytes → Outcome

abbrev request_event : Clock → Bytes → Bytes → MonitorPacketEvent
request_event clock model body = record {
  session_id = clock.session_id;
  model = model;
  timestamp_ms = clock.request_ms;
  direction = upstream;
  packet_type = codes "request";
  payload = body;
  summary = codes "Client Request";
}

unfoldable pub announce_request : Clock → Bytes → Bytes → MonitorHub → Option MonitorHub
unfolding has_subscribers broadcast
announce_request clock model body hub =
    if has_subscribers model hub then broadcast (request_event clock model body) hub else some hub

abbrev pub last_request : Clock → Bytes → Bool → Bytes → ℕ → Bytes → LastRequestRecord
last_request clock model stream body status response = record {
  model = model;
  timestamp_ms = clock.started_ms;
  duration_ms = clock.duration_ms;
  status_code = status;
  stream = stream;
  request = body;
  response = response;
}

abbrev recorded : LastRequestRecord → ServerState → ServerState
recorded rec st = record st { last_reqs = record_last_req rec st.last_reqs }

-- The JSON of the error that no upstream was found.
abbrev error_body : Texts → Bytes → Bytes
error_body texts message = texts.encode (
    object (
      to_fields (
        (
          codes "error",
          object (
              to_fields (
                (codes "message", text message)
                ∷ (codes "type", text (codes "invalid_request_error"))
                ∷ (codes "param", text (codes "model"))
                ∷ (codes "code", text (codes "model_not_found"))
                ∷ [])),
        )
        ∷ [])))

unfoldable pub rejected : Clock → Bytes → Bool → Bytes → Header → ServerState → Bytes → Outcome
unfolding set record_last_req
rejected clock model stream body h st out =
    answered
      (record {
        header = set (codes "Content-Type") (codes "application/json") h;
        calls = heads 400 ∷ sends out ∷ [];
      })
      (recorded (last_request clock model stream body 400 out) st)

-- The body for the upstream, with its name of the model.
unfoldable pub upstream_body : JsonObjects → Bytes → Bytes → Bytes → Bytes
unfolding rewrite_model_in_body equal
upstream_body json model target_model body =
    if not (is_empty target_model) && not (equal target_model model)
    then rewrite_model_in_body json body target_model
    else body

abbrev stream_header : Header → Header → Header
stream_header h header = del (codes "Content-Length") (
    set (codes "X-Accel-Buffering") (codes "no") (
      set (codes "Connection") (codes "keep-alive") (
        set (codes "Cache-Control") (codes "no-cache")
          (set (codes "Content-Type") (codes "text/event-stream") (copy_headers h header)))))

unfoldable pub stream_or_pass :
    Clock → Bytes → Bytes → Header → ServerState → ℕ → Header → Bytes → Option Bytes → Outcome
unfolding record_last_req contains get copy_headers set del
stream_or_pass clock model body h st status header out err =
    if not (status == 200)
      || not (contains (codes "text/event-stream") (get (codes "Content-Type") header))
    then answered (record { header = copy_headers h header; calls = heads status ∷ sends out ∷ [] })
        (recorded (last_request clock model true body status out) st)
    else streaming (record { header = stream_header h header; calls = heads 200 ∷ pushes ∷ [] }) st
        out err

-- What follows `client.Do`. A reply that is no stream is passed on as far as it can be read.
unfoldable pub stream_reply : Clock → Bytes → Bytes → Header → ServerState → Reply → Outcome
unfolding http_error record_last_req stream_or_pass
stream_reply clock model body h st (no_reply e) =
    answered (http_error h (codes "upstream error: " ++ e) 502)
      (recorded (last_request clock model true body 502 (codes "upstream error: " ++ e)) st)
stream_reply clock model body h st (broken_reply status header out e) =
    stream_or_pass clock model body h st status header out (some e)
stream_reply clock model body h st (reply status header out) =
    stream_or_pass clock model body h st status header out none

-- The request for a stream asks for events that are not compressed.
unfoldable pub stream_request : Network → UpstreamTarget TargetUrl → Bytes → Request → OutRequest
unfolding out_request set del
stream_request net t body r =
    let out = out_request net t (some body) r in
    record out {
      header =
          del (codes "Accept-Encoding")
            (set (codes "Accept") (codes "text/event-stream") out.header);
    }

abbrev answered_or_panic : Option (Answer × ServerState) → Option Outcome
answered_or_panic none = none
answered_or_panic (some (a, st)) = some (answered a st)

abbrev pub session_of : Clock → Bytes → Bytes → Bytes → Session
session_of clock model body sent = record {
  id = clock.session_id;
  model = model;
  preloaded_body = some sent;
  original_body = body;
  started_ms = clock.started_ms;
  duration_ms = clock.duration_ms;
  response_ms = clock.response_ms;
  end_ms = clock.end_ms;
}

module _ (json : JsonObjects) (texts : Texts) (net : Network) where
  unfoldable pub stream_from :
      UpstreamTarget TargetUrl
      → Clock
      → Bytes
      → Bytes
      → Bytes
      → Request
      → Header
      → ServerState
      → Outcome
  unfolding stream_request stream_reply http_error
  stream_from t clock model body sent r h st =
      let out = stream_request net t sent r in
      elim (net.request_error out.method out.url) [
        | some e ↦ answered (http_error h (codes "failed to create upstream request: " ++ e) 500) st
        | none ↦ stream_reply clock model body h st (net.send out)
      ]

  -- The request at the upstream that its model names, or the error that there is none.
  unfoldable pub route :
      ProxyServer TargetUrl
      → Option TargetUrl
      → Clock
      → Bytes
      → Bool
      → Bytes
      → Request
      → Header
      → ServerState
      → Resolved TargetUrl
      → Option Outcome
  unfolding rejected upstream_body stream_from transparent_proxy
  route ps url clock model stream body r h st (not_found prefix name) =
      let message =
        codes "upstream "
        ++ texts.quote prefix
        ++ codes " not found for model "
        ++ texts.quote name in
      some (rejected clock model stream body h st (error_body texts message))
  route ps url clock model stream body r h st (no_prefix name) =
      let message =
        codes "model "
        ++ texts.quote name
        ++ codes " does not specify upstream prefix (expected <upstream>/<model>)" in
      some (rejected clock model stream body h st (error_body texts message))
  route ps url clock model stream body r h st (target t target_model) =
      let sent = upstream_body json model target_model body in
      if stream
      then some (stream_from t clock model body sent r h st)
      else answered_or_panic (
          transparent_proxy json net ps.upstreams url (some t) r (session_of clock model body sent)
            h st)

  -- What follows the event of the request.
  abbrev pub announced :
      ProxyServer TargetUrl
      → Option TargetUrl
      → Clock
      → Bytes
      → Bool
      → Bytes
      → Request
      → Header
      → ServerState
      → Option MonitorHub
      → Option Outcome
  announced ps url clock model stream body r h st none = none
  announced ps url clock model stream body r h st (some hub) =
      route ps url clock model stream body r h (record st { hub = hub }) (resolve_upstream ps model)

  abbrev pub accepted :
      ProxyServer TargetUrl
      → Option TargetUrl
      → Clock
      → Bytes
      → Request
      → Header
      → ServerState
      → Bool × Bytes
      → Option Outcome
  accepted ps url clock body r h st (stream, model) =
      announced ps url clock model stream body r h st (announce_request clock model body st.hub)

  -- `handleStreamingEndpoint`
  unfoldable pub handle_streaming_endpoint :
      ProxyServer TargetUrl
      → Option TargetUrl
      → Clock
      → Request
      → Header
      → ServerState
      → BodyRead
      → Option Outcome
  unfolding announce_request resolve_upstream route http_error
  handle_streaming_endpoint ps url clock r h st (unreadable e) =
      some (answered (http_error h (codes "failed to read body: " ++ e) 400) st)
  handle_streaming_endpoint ps url clock r h st (read body) =
      accepted ps url clock body r h st (texts.payload body)
