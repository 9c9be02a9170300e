-- ===== src/Proxy/Transparent/Replies.antt =====
-- A request without a stream, from the upstream's reply to the client.
use buffered_llm_proxy.Base.{
  ℕ, ◌≡◌, refl, ap, ◌∙◌, subst, true, false, not, ◌&&◌, List, [], ◌∷◌, append-nil, Option, none,
  some, Bytes, codes, is_empty, equal, equal_iff, if_either, Bool-cases, inl, inr, bytes_eq, arith,
}
use buffered_llm_proxy.Base.Map.{lookup, lookup-insert, lookup-remove}
use buffered_llm_proxy.Compress.Codec.{Codec, Decodes}
use buffered_llm_proxy.Compress.Writer.{Writer, wrap_response_writer, close}
use buffered_llm_proxy.Compress.Writer.Delivery.{
  decode_of, Delivers, as_it_is, encoded, encoded_field,
}
use buffered_llm_proxy.Compress.Accept.{Encoding}
use buffered_llm_proxy.Compress.Writer.Delivery.Whole.{run-Delivers}
use buffered_llm_proxy.Compress.Writer.Calls.{heads, sends, run}
use buffered_llm_proxy.Http.Header.{Header, get, del}
use buffered_llm_proxy.Http.Response.{new_response, is_final}
use buffered_llm_proxy.Metrics.{StreamMetrics}
use buffered_llm_proxy.Proxy.Bodies.{JsonObjects, response_body}
use buffered_llm_proxy.Proxy.Bodies.Renaming.{ObjectsRoundTrip, Replies, response_body-Replies}
use buffered_llm_proxy.Proxy.Headers.{copy_headers}
use buffered_llm_proxy.Proxy.Headers.HopByHop.{
  HopField, connection, keep_alive, proxy_authenticate, proxy_authorization, te, trailers,
  transfer_encoding, upgrade, field_name, hop-field_name, hop-copy_headers,
}
use buffered_llm_proxy.Proxy.Monitor.{MonitorHub, has_subscribers}
use buffered_llm_proxy.Proxy.Monitor.Broadcasts.{broadcast-IsHub}
use buffered_llm_proxy.Proxy.Monitor.Wellformed.{IsHub}
use buffered_llm_proxy.Proxy.Transparent.{
  LastRequestRecord, record_last_req, get_last_req, last_request, TargetUrl, Request, Reply, reply,
  Network, Session, Answer, ServerState, target_or, out_request, response_event, end_event,
  announce, pass_on, request_from, transparent_proxy,
}
use buffered_llm_proxy.Proxy.Upstreams.{UpstreamTarget}

announce-IsHub :
    (s : Session) (body : Bytes) (hub : MonitorHub)
    → IsHub hub
    → (hub' : MonitorHub) × (announce s body hub ≡ some hub') × IsHub hub'
unfolding announce
announce-IsHub s body hub v =
    elim (Bool-cases (not (is_empty s.id) && has_subscribers s.model hub)) [
      | inr f ↦ (hub, rw (f, announce) refl, v)
      | inl t ↦
          let (hub1, e1, v1) = broadcast-IsHub (response_event s body) hub v in
          let (hub2, e2, v2) = broadcast-IsHub (end_event s) hub1 v1 in
          (hub2, rw (t, announce, e1) e2, v2)
    ]

get-record_last_req :
    (rec : LastRequestRecord) (reqs : List (Bytes × LastRequestRecord))
    → is_empty rec.model ≡ false
    → get_last_req rec.model (record_last_req rec reqs) ≡ some rec
unfolding get_last_req record_last_req
get-record_last_req rec reqs f =
    rw f
      (lookup-insert rec.model rec.model rec reqs ∙ ground (arith, equal_iff rec.model rec.model))

hop-del :
    (field : HopField) (h header : Header)
    → lookup (field_name field) h ≡ none
    → lookup (field_name field) (del (codes "Content-Length") (copy_headers h header)) ≡ none
unfolding del
hop-del field h header e =
    let name = field_name field in
    lookup-remove (codes "Content-Length") name (copy_headers h header)
    ∙ if_either (λ (r : Option (List Bytes)). r ≡ none) (equal (codes "Content-Length") name) refl
        (hop-copy_headers name h header (hop-field_name field) ∙ e)

length-del : (h : Header) → lookup (codes "Content-Length") (del (codes "Content-Length") h) ≡ none
unfolding del equal
length-del h = lookup-remove (codes "Content-Length") (codes "Content-Length") h

-- A field of one hop is none of the encoder's.
encoded_field-hop :
    (e : Encoding) (h : Header) (field : HopField)
    → encoded_field e h (field_name field) ≡ lookup (field_name field) h
unfolding equal
encoded_field-hop e h connection = refl
encoded_field-hop e h keep_alive = refl
encoded_field-hop e h proxy_authenticate = refl
encoded_field-hop e h proxy_authorization = refl
encoded_field-hop e h te = refl
encoded_field-hop e h trailers = refl
encoded_field-hop e h transfer_encoding = refl
encoded_field-hop e h upgrade = refl

encoded_field-length :
    (e : Encoding) (h : Header) → encoded_field e h (codes "Content-Length") ≡ none
unfolding equal
encoded_field-length e h = refl

abbrev replied : Header → Header → ℕ → Bytes → Answer
replied h header status out = record {
  header = del (codes "Content-Length") (copy_headers h header);
  calls = heads status ∷ sends out ∷ [];
}

pass_on-reply :
    (json : JsonObjects) (s : Session) (h header : Header) (st : ServerState) (status : ℕ)
    (body : Bytes)
    → IsHub st.hub
    → let out = response_body json s.model header body in
      (hub : MonitorHub) × IsHub hub
      × (pass_on json s h st (reply status header body)
          ≡ some (
            replied h header status out,
            record {
              hub = hub;
              last_reqs = record_last_req (last_request s status out) st.last_reqs;
            },
          ))
unfolding pass_on
pass_on-reply json s h header st status body v =
    let (hub, e, v') = announce-IsHub s (response_body json s.model header body) st.hub v in
    (hub, v', rw (e, pass_on) refl)

transparent_proxy-reply :
    (json : JsonObjects) (net : Network) (upstreams : List (UpstreamTarget TargetUrl))
    (url : Option TargetUrl) (target : Option (UpstreamTarget TargetUrl)) (r : Request)
    (s : Session) (h : Header) (st : ServerState) (t : UpstreamTarget TargetUrl) (answer : Reply)
    → let out = out_request net t s.preloaded_body r in
      target_or target upstreams url ≡ some t
      → net.request_error out.method out.url ≡ none
      → net.send out ≡ answer
      → transparent_proxy json net upstreams url target r s h st ≡ pass_on json s h st answer
unfolding transparent_proxy request_from
transparent_proxy-reply json net upstreams url target r s h st t answer e n a =
    rw (e, transparent_proxy) (rw (n, request_from) (ap (pass_on json s h st) a))

module _ {z g : Codec} where
  -- The header that the client is sent has no field of one hop and no length.
  abbrev pub Sends : ℕ → HopField → Writer z g → Type 0
  Sends status field w =
      (h : Header) × (w.client.sent ≡ (status, h) ∷ [])
      × (lookup (field_name field) h ≡ none)
      × (lookup (codes "Content-Length") h ≡ none)

  Delivers-Sends :
      (decode : Encoding → Bytes → Bytes) (e : Encoding) (h : Header) (status : ℕ) (out : Bytes)
      (m : Option StreamMetrics) (w : Writer z g) (field : HopField)
      → lookup (field_name field) h ≡ none
      → lookup (codes "Content-Length") h ≡ none
      → Delivers decode e h status out m w
      → Sends status field w
  Delivers-Sends decode e h status out m w field hop length (as_it_is _ sent _ _) =
      (h, sent, hop, length)
  Delivers-Sends decode e h status out m w field hop length (encoded h' _ sent fields _ _ _) = (
    h',
    sent,
    fields (field_name field) ∙ encoded_field-hop e h field ∙ hop,
    fields (codes "Content-Length") ∙ encoded_field-length e h,
  )

module _ {z g : Codec} (unzstd ungzip : Bytes → Bytes) (zstd-Decodes : Decodes z unzstd)
    (gzip-Decodes : Decodes g ungzip) (parse_float : Bytes → Option ℕ) where
  run-replied :
      (a : Header) (request : Header) (status : ℕ) (out : Bytes) (m : Option StreamMetrics)
      → is_final status ≡ true
      → let w0 : Writer z g =
          wrap_response_writer parse_float (record new_response { header = a }) request m in
        (w : Writer z g) × (run (heads status ∷ sends out ∷ []) w0 ≡ some w)
        × Delivers (decode_of unzstd ungzip) w0.encoding a status out m (close w)
  run-replied a request status out m f =
      let w0 : Writer z g =
        wrap_response_writer parse_float (record new_response { header = a }) request m in
      let (w, e, d, _) =
        run-Delivers unzstd ungzip zstd-Decodes gzip-Decodes parse_float a request m (heads status)
          (sends out ∷ []) f in
      (
        w,
        e,
        subst (λ p. Delivers (decode_of unzstd ungzip) w0.encoding a status p m (close w))
            (append-nil out) d,
      )

  -- A request without a stream, for a named model, that the upstream replies to with the status of a
  -- final response. The proxy does not panic on a well-formed hub and leaves one. It records a
  -- response, with the upstream's status, that is the upstream's body, or that body's object with the
  -- client's name of the model. Through a writer that compresses, the client is sent exactly the
  -- recorded bytes under that status, as they are or encoded as its header says. That header has no
  -- length of the upstream's body, and no field of one hop that the writer's header did not have
  -- before.
  pub transparent_proxy-Delivers :
      (json : JsonObjects) (compact : Bytes → Bytes) (net : Network)
      (upstreams : List (UpstreamTarget TargetUrl)) (url : Option TargetUrl)
      (target : Option (UpstreamTarget TargetUrl)) (r : Request) (s : Session) (h : Header)
      (st : ServerState) (t : UpstreamTarget TargetUrl) (status : ℕ) (header : Header)
      (body : Bytes) (field : HopField) (m : Option StreamMetrics)
      → ObjectsRoundTrip json compact
      → let out = out_request net t s.preloaded_body r in
        IsHub st.hub
        → target_or target upstreams url ≡ some t
        → net.request_error out.method out.url ≡ none
        → net.send out ≡ reply status header body
        → is_empty s.model ≡ false
        → is_final status ≡ true
        → lookup (field_name field) h ≡ none
        → (a : Answer) × (st' : ServerState) × (rec : LastRequestRecord) × (transparent_proxy json
              net upstreams url target r s h st
            ≡ some (a, st'))
          × IsHub st'.hub
          × (get_last_req s.model st'.last_reqs ≡ some rec)
          × (rec.status_code ≡ status)
          × Replies json compact s.model (get (codes "Content-Type") header) body rec.response
          × (let w0 : Writer z g =
                wrap_response_writer parse_float
                  (record new_response { header = a.header })
                  r.header
                  m in
              (w : Writer z g) × (run a.calls w0 ≡ some w)
              × Sends status field (close w)
              × Delivers
                  (decode_of unzstd ungzip)
                  w0.encoding
                  a.header
                  status
                  rec.response
                  m
                  (close w))
  transparent_proxy-Delivers json compact net upstreams url target r s h st t status header body
        field m trip v to ok answer named f no_hop =
      let out = response_body json s.model header body in
      let (hub, v', e) = pass_on-reply json s h header st status body v in
      let a = replied h header status out in
      let w0 : Writer z g =
        wrap_response_writer parse_float (record new_response { header = a.header }) r.header m in
      let (w, runs, delivers) = run-replied a.header r.header status out m f in
      (
        a,
        record { hub = hub; last_reqs = record_last_req (last_request s status out) st.last_reqs },
        last_request s status out,
        transparent_proxy-reply json net upstreams url target r s h st t (reply status header body)
              to ok answer
            ∙ e,
        v',
        get-record_last_req (last_request s status out) st.last_reqs (named),
        refl,
        response_body-Replies json compact trip s.model header body,
        (
          w,
          runs,
          Delivers-Sends (decode_of unzstd ungzip) w0.encoding a.header status out m (close w) field
              (hop-del field h header no_hop) (length-del (copy_headers h header)) delivers,
          delivers,
        ),
      )
