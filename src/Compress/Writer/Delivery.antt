-- ===== src/Compress/Writer/Delivery.antt =====
-- What a client has received once the writer is closed.
pub mod Opening
pub mod Whole
use mathlib.Core.Bool.{true≢false}
use buffered_llm_proxy.Base.{
  ℕ, ◌+◌, ◌%◌, ◌^◌, ◌≡◌, refl, sym, ap, ◌∙◌, Bool, true, false, not, if◌then◌else◌, ◌||◌, List, [],
  ◌∷◌, ◌++◌, Option, none, some, Bytes, codes, length, is_empty, equal, equal_iff, bytes_eq, arith,
  Bool-cases, inl, inr, length-append,
}
use buffered_llm_proxy.Base.Map.{lookup, lookup-insert, lookup-remove}
use buffered_llm_proxy.Base.Word.{add64}
use buffered_llm_proxy.Compress.Accept.{
  Encoding, encoding_none, encoding_zstd, encoding_gzip, select_encoding,
}
use buffered_llm_proxy.Compress.Codec.{Codec, Action, acts, session, written, Decodes}
use buffered_llm_proxy.Compress.Writer.{
  Writer, is_identity, is_plain, encoded_header, encoding_name, take_encoder, start_encoding,
  open_header, with_header, write, flush, passed_on, zstd_close, gzip_close, close_encoded,
  record_metrics, flush_client, close, wrap_response_writer,
}
use buffered_llm_proxy.Compress.Writer.Plain.{IsPlain, run-IsPlain}
use buffered_llm_proxy.Compress.Writer.Calls.{
  Call, heads, sends, pushes, payload, actions_of, written-actions_of, total, total-payload, apply,
  run,
}
use buffered_llm_proxy.Compress.Writer.Sessions.{InSession, begun}
use buffered_llm_proxy.Http.Header.{Header, values, set, add, del}
use buffered_llm_proxy.Http.Response.{has_body, takes_body, send_flush, send_flush-sent}
use buffered_llm_proxy.Metrics.{StreamMetrics, add_compression_bytes}

-- The status of a response whose first call this is.
abbrev pub status_of : Call → ℕ
status_of (heads status) = status
status_of _ = 200

-- What a field of a compressed response's header is, where the handler left the header `h`: three
-- fields are the encoder's business, and any other is the handler's.
abbrev pub encoded_field : Encoding → Header → Bytes → Option (List Bytes)
encoded_field e h key =
    if equal (codes "Vary") key
    then some (values (codes "Vary") h ++ (codes "Accept-Encoding" ∷ []))
    else if equal (codes "Content-Encoding") key
    then some (encoding_name e ∷ [])
    else if equal (codes "Content-Length") key
    then none
    else lookup key h

pub lookup-encoded_header :
    (e : Encoding) (h : Header) (key : Bytes)
    → lookup key (encoded_header e h) ≡ encoded_field e h key
unfolding encoded_header set add del equal
lookup-encoded_header e h key =
    let kept = del (codes "Content-Length") h in
    let named = set (codes "Content-Encoding") (encoding_name e) kept in
    lookup-insert (codes "Vary") key (values (codes "Vary") named ++ (codes "Accept-Encoding" ∷ []))
      named
    ∙ rw
        (
          lookup-insert (codes "Content-Encoding") (codes "Vary") (encoding_name e ∷ []) kept,
          lookup-remove (codes "Content-Length") (codes "Vary") h,
          lookup-insert (codes "Content-Encoding") key (encoding_name e ∷ []) kept,
          lookup-remove (codes "Content-Length") key h,
        )
        refl

-- What a codec promises, for the decoder of each encoding.
abbrev pub decode_of : (Bytes → Bytes) → (Bytes → Bytes) → Encoding → Bytes → Bytes
decode_of unzstd ungzip encoding_none bytes = bytes
decode_of unzstd ungzip encoding_zstd bytes = unzstd bytes
decode_of unzstd ungzip encoding_gzip bytes = ungzip bytes

-- `n` bytes that became `out` are added to the metrics, if there are any.
abbrev pub with_bytes : ℕ → Bytes → Option StreamMetrics → Option StreamMetrics
with_bytes n out none = none
with_bytes n out (some m) = some (add_compression_bytes (n % 2 ^ 64) (length out % 2 ^ 64) m)

module _ {z g : Codec} where
  -- The ends of a response to which the handler wrote `payload`: as it is with its own header, or
  -- encoded, under a header that is the handler's but for three fields. A status without a body has
  -- none.
  pub data Delivers (decode : Encoding → Bytes → Bytes) (e : Encoding) (h : Header) (status : ℕ)
      (payload : Bytes) (m : Option StreamMetrics) (w : Writer z g) : Type 0 where
    as_it_is :
        is_plain e status h ≡ true
        → w.client.sent ≡ (status, h) ∷ []
        → w.client.body ≡ (if has_body status then payload else [])
        → w.metrics ≡ m
        → Delivers decode e h status payload m w
    encoded :
        (h' : Header)
        → is_plain e status h ≡ false
        → w.client.sent ≡ (status, h') ∷ []
        → ((key : Bytes) → lookup key h' ≡ encoded_field e h key)
        → has_body status ≡ true
        → decode e w.client.body ≡ payload
        → w.metrics ≡ with_bytes (length payload) w.client.body m
        → Delivers decode e h status payload m w

  close_lem :
      (w : Writer z g)
      → w.encoding ≡ encoding_none
      → w.wrote_header ≡ true
      → w.closed ≡ false
      → close w ≡ flush_client (record w { closed = true })
  unfolding close close_encoded record_metrics
  close_lem w e h o = ground (arith, e, h, o)

  pub close-plain :
      {w : Writer z g} {sent : List (ℕ × Header)} {out : Bytes} {m : Option StreamMetrics}
      → IsPlain w sent out m
      → ((close w).client.sent ≡ sent)
        × ((close w).client.body ≡ (if takes_body sent then out else []))
        × ((close w).metrics ≡ m)
  unfolding flush_client
  close-plain {w} v =
      let (s, b) = send_flush-sent w.client (ap is_empty v.sent_is ∙ v.begun) in
      rw (close_lem w v.encoding_is v.header_done v.still_open)
        (s ∙ v.sent_is, b ∙ v.body_is, v.metrics_are)

  -- A writer whose encoder is closed, at the end of `Close`.
  abbrev pub finished : Option StreamMetrics → Writer z g → Writer z g
  finished m w = flush_client (record_metrics m (record w { closed = true }))

  pub finished_lem :
      (e : Encoding) (w : Writer z g) {sent : List (ℕ × Header)} {out : Bytes} {n : ℕ}
      (m : Option StreamMetrics)
      → InSession e w sent out n m
      → is_identity e ≡ false
      → ((finished m w).client.sent ≡ sent)
        × ((finished m w).client.body ≡ out)
        × ((finished m w).metrics ≡ with_bytes n out m)
  unfolding record_metrics flush_client
  finished_lem e w none v i =
      let (s, b) = send_flush-sent w.client (begun v) in
      (s ∙ v.sent_is, b ∙ v.body_is, v.metrics_are)
  finished_lem e w (some m) v i =
      let k : is_identity w.encoding ≡ false = ap is_identity v.encoding_is ∙ i in
      let (s, b) = send_flush-sent w.client (begun v) in
      rw (v.not_recorded, k, record_metrics)
        (s ∙ v.sent_is, b ∙ v.body_is, rw (v.uncompressed_is, v.counted_is) refl)

  pub close-zstd :
      (w : Writer z g) (s : z.State)
      → w.wrote_header ≡ true
      → w.closed ≡ false
      → w.encoding ≡ encoding_zstd
      → w.zstd_encoder ≡ some s
      → close w ≡ finished w.metrics (passed_on (z.close s).1 (record w { zstd_encoder = none }))
  unfolding close close_encoded zstd_close passed_on
  close-zstd w s h o k e = ground (arith, h, o, k, e)

  pub close-gzip :
      (w : Writer z g) (s : g.State)
      → w.wrote_header ≡ true
      → w.closed ≡ false
      → w.encoding ≡ encoding_gzip
      → w.gzip_writer ≡ some s
      → close w ≡ finished w.metrics (passed_on (g.close s).1 (record w { gzip_writer = none }))
  unfolding close close_encoded gzip_close passed_on
  close-gzip w s h o k e = ground (arith, h, o, k, e)
