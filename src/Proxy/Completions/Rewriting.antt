-- ===== src/Proxy/Completions/Rewriting.antt =====
-- A completion without a stream, from the client's request to its response.
use buffered_llm_proxy.Base.{
  ℕ, ◌≡◌, refl, ap, ◌∙◌, true, false, Option, none, some, Bytes, codes, is_empty, equal, equal_iff,
  Bool-cases, inl, inr, bytes_eq,
}
use buffered_llm_proxy.Base.Map.{lookup}
use buffered_llm_proxy.Compress.Codec.{Codec, Decodes}
use buffered_llm_proxy.Compress.Writer.{Writer, wrap_response_writer, close}
use buffered_llm_proxy.Compress.Writer.Delivery.{decode_of, Delivers}
use buffered_llm_proxy.Compress.Writer.Calls.{run}
use buffered_llm_proxy.Http.Header.{Header, get}
use buffered_llm_proxy.Http.Response.{new_response, is_final}
use buffered_llm_proxy.Metrics.{StreamMetrics}
use buffered_llm_proxy.Proxy.Bodies.{JsonObjects}
use buffered_llm_proxy.Proxy.Bodies.Renaming.{
  ObjectsRoundTrip, Asks, no_name, same_name, Replies, rewrite_model_in_body-Asks,
}
use buffered_llm_proxy.Proxy.Completions.{
  Texts, read, Clock, answered, request_event, announce_request, upstream_body, session_of,
  answered_or_panic, route, announced, accepted, handle_streaming_endpoint,
}
use buffered_llm_proxy.Proxy.Headers.HopByHop.{HopField, field_name}
use buffered_llm_proxy.Proxy.Monitor.{MonitorHub, has_subscribers}
use buffered_llm_proxy.Proxy.Monitor.Broadcasts.{broadcast-IsHub}
use buffered_llm_proxy.Proxy.Monitor.Wellformed.{IsHub}
use buffered_llm_proxy.Proxy.Transparent.{
  LastRequestRecord, get_last_req, TargetUrl, Request, reply, Network, Answer, ServerState,
  out_request, transparent_proxy,
}
use buffered_llm_proxy.Proxy.Transparent.Replies.{Sends, transparent_proxy-Delivers}
use buffered_llm_proxy.Proxy.Upstreams.{UpstreamTarget, ProxyServer, target, resolve_upstream}

upstream_body-Asks :
    (json : JsonObjects) (compact : Bytes → Bytes) (model target_model body : Bytes)
    → ObjectsRoundTrip json compact
    → Asks json compact model target_model body (upstream_body json model target_model body)
unfolding upstream_body
upstream_body-Asks json compact model target_model body trip =
    elim (Bool-cases (is_empty target_model)) [
      | inl t ↦ no_name t (rw (t, upstream_body) refl)
      | inr n ↦ elim (Bool-cases (equal target_model model)) [
        | inl q ↦ same_name ((equal_iff target_model model).0 q) (rw (n, q, upstream_body) refl)
        | inr k ↦
            rw (n, k, upstream_body)
              (rewrite_model_in_body-Asks json compact trip model target_model body n k)
      ]
    ]

announce_request-IsHub :
    (clock : Clock) (model body : Bytes) (hub : MonitorHub)
    → IsHub hub
    → (hub' : MonitorHub) × (announce_request clock model body hub ≡ some hub') × IsHub hub'
unfolding announce_request
announce_request-IsHub clock model body hub v = elim (Bool-cases (has_subscribers model hub)) [
  | inr f ↦ (hub, rw (f, announce_request) refl, v)
  | inl t ↦
      let (hub', e, v') = broadcast-IsHub (request_event clock model body) hub v in
      (hub', rw (t, announce_request) e, v')
]

module _ (json : JsonObjects) (texts : Texts) (net : Network) where
  handle-route :
      (ps : ProxyServer TargetUrl) (url : Option TargetUrl) (clock : Clock) (r : Request)
      (h : Header) (st : ServerState) (body model target_model : Bytes)
      (t : UpstreamTarget TargetUrl) (hub : MonitorHub)
      → texts.payload body ≡ (false, model)
      → announce_request clock model body st.hub ≡ some hub
      → resolve_upstream ps model ≡ target t target_model
      → let sent = upstream_body json model target_model body in
        handle_streaming_endpoint json texts net ps url clock r h st (read body)
        ≡ answered_or_panic (
            transparent_proxy json net ps.upstreams url
              (some t)
              r
              (session_of clock model body sent)
              h
              (record st { hub = hub }))
  unfolding handle_streaming_endpoint route
  handle-route ps url clock r h st body model target_model t hub p a e =
      ap (accepted json texts net ps url clock body r h st) p
      ∙ ap (announced json texts net ps url clock model false body r h st) a
      ∙ ap (route json texts net ps url clock model false body r h (record st { hub = hub })) e

module _ {z g : Codec} (unzstd ungzip : Bytes → Bytes) (zstd-Decodes : Decodes z unzstd)
    (gzip-Decodes : Decodes g ungzip) (parse_float : Bytes → Option ℕ) where
  -- A completion without a stream, for a model that a configured upstream serves and that replies
  -- with the status of a final response, where encoding/json encodes the objects it has decoded. The
  -- proxy does not panic on a well-formed hub and leaves one. The upstream is asked with the client's
  -- body if it has no other name of the model or the body is no object; otherwise with an object that
  -- has the upstream's name of the model and, up to spelling, the body's other members. A response is
  -- recorded with the upstream's status: for JSON that is an object with a model, that object with
  -- the client's name of the model, and any other body as it is. Through a writer that compresses,
  -- the client is sent one header with that status, and what `Delivers` says of the recorded bytes
  -- and of the header that the handler left. The header that is sent has no Content-Length, and it
  -- has none of the fields of `HopField` but those that the writer's header had before.
  pub handle_streaming_endpoint-Delivers :
      (json : JsonObjects) (compact : Bytes → Bytes) (texts : Texts) (net : Network)
      (ps : ProxyServer TargetUrl) (url : Option TargetUrl) (clock : Clock) (r : Request)
      (h : Header) (st : ServerState) (t : UpstreamTarget TargetUrl)
      (model target_model body : Bytes) (status : ℕ) (header : Header) (answer : Bytes)
      (field : HopField) (m : Option StreamMetrics)
      → ObjectsRoundTrip json compact
      → let sent = upstream_body json model target_model body in
        let out = out_request net t (some sent) r in
        IsHub st.hub
        → texts.payload body ≡ (false, model)
        → resolve_upstream ps model ≡ target t target_model
        → net.request_error out.method out.url ≡ none
        → net.send out ≡ reply status header answer
        → is_empty model ≡ false
        → is_final status ≡ true
        → lookup (field_name field) h ≡ none
        → (a : Answer) × (st' : ServerState) × (rec : LastRequestRecord)
          × (handle_streaming_endpoint json texts net ps url clock r h st (read body)
              ≡ some (answered a st'))
          × IsHub st'.hub
          × (get_last_req model st'.last_reqs ≡ some rec)
          × (rec.status_code ≡ status)
          × Replies json compact model (get (codes "Content-Type") header) answer rec.response
          × (let w0 : Writer z g =
                wrap_response_writer parse_float
                  (record new_response { header = a.header })
                  r.header
                  m in
              (w : Writer z g) × (run a.calls w0 ≡ some w)
              × Sends status field (close w)
              × Delivers
                  (decode_of unzstd ungzip)
                  w0.encoding
                  a.header
                  status
                  rec.response
                  m
                  (close w))
          × Asks json compact model target_model body out.body
  unfolding out_request
  handle_streaming_endpoint-Delivers json compact texts net ps url clock r h st t model target_model
        body status header answer field m trip v p to ok replies named f no_hop =
      let sent = upstream_body json model target_model body in
      let (hub, e, v') = announce_request-IsHub clock model body st.hub v in
      let (a, st', rec, runs, v'', got, code, said, delivers) =
        transparent_proxy-Delivers unzstd ungzip zstd-Decodes gzip-Decodes parse_float json compact
          net ps.upstreams url (some t) r (session_of clock model body sent) h
          (record st { hub = hub }) t status header answer field m trip v' refl ok replies named f
          no_hop in
      (
        a,
        st',
        rec,
        handle-route json texts net ps url clock r h st body model target_model t hub p e to
            ∙ ap answered_or_panic runs,
        v'',
        got,
        code,
        said,
        delivers,
        upstream_body-Asks json compact model target_model body trip,
      )
