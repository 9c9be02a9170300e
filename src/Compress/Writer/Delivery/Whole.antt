-- ===== src/Compress/Writer/Delivery/Whole.antt =====
-- From the wrapping of a response writer to its end.
use mathlib.Core.Bool.{true≢false}
use buffered_llm_proxy.Base.{
  ℕ, ◌≡◌, refl, sym, ap, ◌∙◌, true, false, List, [], ◌∷◌, Option, none, some, Bytes, length,
  bytes_eq, arith, Bool-cases, inl, inr,
}
use buffered_llm_proxy.Compress.Accept.{Encoding, encoding_none, encoding_zstd, encoding_gzip}
use buffered_llm_proxy.Compress.Codec.{Codec, acts, session, Decodes}
use buffered_llm_proxy.Compress.Writer.{
  Writer, is_identity, is_plain, encoded_header, open_header, passed_on, zstd_close, gzip_close,
  close_encoded, record_metrics, flush_client, close, wrap_response_writer,
}
use buffered_llm_proxy.Compress.Writer.Plain.{run-IsPlain}
use buffered_llm_proxy.Compress.Writer.Calls.{
  Call, payload, actions_of, written-actions_of, total, total-payload, run,
}
use buffered_llm_proxy.Compress.Writer.Sessions.{
  InSession, passed_on-InSession, flushed-InSession, run-zstd, run-gzip,
}
use buffered_llm_proxy.Http.Header.{Header}
use buffered_llm_proxy.Http.Response.{new_response, is_final}
use buffered_llm_proxy.Metrics.{StreamMetrics}
use buffered_llm_proxy.Compress.Writer.Delivery.{
  status_of, decode_of, with_bytes, Delivers, as_it_is, encoded, lookup-encoded_header, close-plain,
  finished, finished_lem, close-zstd, close-gzip,
}
use buffered_llm_proxy.Compress.Writer.Delivery.Opening.{
  fresh, header-IsPlain, header-zstd, header-gzip, apply-open_header, takes_body-plain,
}

counted-payload : (calls : List Call) → total 0 calls ≡ length (payload calls)
counted-payload calls = total-payload 0 calls ∙ omega arith

module _ {z g : Codec} where
  run-opened :
      (c : Call) (calls : List Call) (w : Writer z g)
      → w.wrote_header ≡ false
      → is_final (status_of c) ≡ true
      → run (c ∷ calls) w ≡ run (c ∷ calls) (open_header (status_of c) w)
  unfolding run
  run-opened c calls w k f =
      ap (λ (r : Option (Writer z g)). elim r [ none ↦ none | some w' ↦ run calls w' ])
        (apply-open_header c w k f)

  closed-close_encoded : (e : Encoding) (w : Writer z g) → (close_encoded e w).closed ≡ w.closed
  unfolding close_encoded zstd_close gzip_close passed_on
  closed-close_encoded e w = ground arith

  closed-record_metrics :
      (m : Option StreamMetrics) (w : Writer z g) → (record_metrics m w).closed ≡ w.closed
  unfolding record_metrics
  closed-record_metrics m w = ground arith

  closed-close : (w : Writer z g) → (close w).closed ≡ true
  unfolding close flush_client
  closed-close w =
      let w' = record w { closed = true } in
      ground (
        arith,
        closed-close_encoded w.encoding w',
        closed-record_metrics w.metrics (close_encoded w.encoding w'),
      )

  close-closed : (w : Writer z g) → w.closed ≡ true → close w ≡ w
  unfolding close
  close-closed w t = ground (arith, t)

  close-close : (w : Writer z g) → close (close w) ≡ close w
  close-close w = close-closed (close w) (closed-close w)

module _ {z g : Codec} (unzstd ungzip : Bytes → Bytes) (zstd-Decodes : Decodes z unzstd)
    (gzip-Decodes : Decodes g ungzip) where
  plain-Delivers :
      (e : Encoding) (h : Header) (m : Option StreamMetrics) (c : Call) (calls : List Call)
      → is_final (status_of c) ≡ true
      → is_plain e (status_of c) h ≡ true
      → (w : Writer z g) × (run (c ∷ calls) (open_header (status_of c) (fresh e h m)) ≡ some w)
        × Delivers (decode_of unzstd ungzip) e h (status_of c) (payload (c ∷ calls)) m (close w)
  plain-Delivers e h m c calls f p =
      let (w, r, v) =
        run-IsPlain (c ∷ calls) (open_header (status_of c) (fresh e h m)) []
          (header-IsPlain e h m (status_of c) f p) in
      let (sent, body, metrics) = close-plain v in (w, r, as_it_is p sent body metrics)

  -- The encoder of a compressed response is closed, and so is the writer.
  finished-Delivers :
      (e : Encoding) (h : Header) (m : Option StreamMetrics) (status : ℕ) (body : Bytes)
      (w w' : Writer z g) (out : Bytes) {n : ℕ}
      → is_plain e status h ≡ false
      → is_identity e ≡ false
      → close w ≡ finished m w'
      → InSession e w' ((status, encoded_header e h) ∷ []) out n m
      → decode_of unzstd ungzip e out ≡ body
      → n ≡ length body
      → Delivers (decode_of unzstd ungzip) e h status body m (close w)
  finished-Delivers e h m status body w w' out p i closes v decodes counts =
      let (sent, sent_body, metrics) = finished_lem e w' m v i in
      rw closes (
        encoded (encoded_header e h) p sent (lookup-encoded_header e h)
          (takes_body-plain e status h p) (ap (decode_of unzstd ungzip e) sent_body ∙ decodes)
          (metrics
            ∙ ap (λ k. with_bytes k out m) counts
            ∙ ap (λ b. with_bytes (length body) b m) (sym sent_body)))

  zstd-Delivers :
      (h : Header) (m : Option StreamMetrics) (c : Call) (calls : List Call)
      → is_final (status_of c) ≡ true
      → is_plain encoding_zstd (status_of c) h ≡ false
      → (w : Writer z g) × (run (c ∷ calls) (open_header (status_of c) (fresh encoding_zstd h m))
          ≡ some w)
        × Delivers
            (decode_of unzstd ungzip)
            encoding_zstd
            h
            (status_of c)
            (payload (c ∷ calls))
            m
            (close w)
  unfolding session
  zstd-Delivers h m c calls f p =
      let (v, e) = header-zstd h m (status_of c) f p in
      let (w, r, v', e') =
        run-zstd (c ∷ calls) (open_header (status_of c) (fresh encoding_zstd h m)) z.reset v e in
      let s = (acts z (actions_of (c ∷ calls)) (z.reset, [])).0 in
      (
        w,
        r,
        finished-Delivers encoding_zstd h m (status_of c) (payload (c ∷ calls)) w
            (passed_on (z.close s).1 (record w { zstd_encoder = none }))
            (session z (actions_of (c ∷ calls))) p refl
            (close-zstd w s v'.header_done v'.still_open v'.encoding_is e'
              ∙ ap (λ k. finished k (passed_on (z.close s).1 (record w { zstd_encoder = none })))
                  v'.metrics_are)
            (passed_on-InSession (z.close s).1 (flushed-InSession none w.gzip_writer v'))
            (zstd-Decodes (actions_of (c ∷ calls)) ∙ written-actions_of (c ∷ calls))
            (counted-payload (c ∷ calls)),
      )

  gzip-Delivers :
      (h : Header) (m : Option StreamMetrics) (c : Call) (calls : List Call)
      → is_final (status_of c) ≡ true
      → is_plain encoding_gzip (status_of c) h ≡ false
      → (w : Writer z g) × (run (c ∷ calls) (open_header (status_of c) (fresh encoding_gzip h m))
          ≡ some w)
        × Delivers
            (decode_of unzstd ungzip)
            encoding_gzip
            h
            (status_of c)
            (payload (c ∷ calls))
            m
            (close w)
  unfolding session
  gzip-Delivers h m c calls f p =
      let (v, e) = header-gzip h m (status_of c) f p in
      let (w, r, v', e') =
        run-gzip (c ∷ calls) (open_header (status_of c) (fresh encoding_gzip h m)) g.reset v e in
      let s = (acts g (actions_of (c ∷ calls)) (g.reset, [])).0 in
      (
        w,
        r,
        finished-Delivers encoding_gzip h m (status_of c) (payload (c ∷ calls)) w
            (passed_on (g.close s).1 (record w { gzip_writer = none }))
            (session g (actions_of (c ∷ calls))) p refl
            (close-gzip w s v'.header_done v'.still_open v'.encoding_is e'
              ∙ ap (λ k. finished k (passed_on (g.close s).1 (record w { gzip_writer = none })))
                  v'.metrics_are)
            (passed_on-InSession (g.close s).1 (flushed-InSession w.zstd_encoder none v'))
            (gzip-Decodes (actions_of (c ∷ calls)) ∙ written-actions_of (c ∷ calls))
            (counted-payload (c ∷ calls)),
      )

  encoded-Delivers :
      (e : Encoding) (h : Header) (m : Option StreamMetrics) (c : Call) (calls : List Call)
      → is_final (status_of c) ≡ true
      → is_plain e (status_of c) h ≡ false
      → (w : Writer z g) × (run (c ∷ calls) (open_header (status_of c) (fresh e h m)) ≡ some w)
        × Delivers (decode_of unzstd ungzip) e h (status_of c) (payload (c ∷ calls)) m (close w)
  encoded-Delivers encoding_none h m c calls f p = absurd (true≢false (unfold is_plain in p))
  encoded-Delivers encoding_zstd h m c calls f p = zstd-Delivers h m c calls f p
  encoded-Delivers encoding_gzip h m c calls f p = gzip-Delivers h m c calls f p

  opened-Delivers :
      (e : Encoding) (h : Header) (m : Option StreamMetrics) (c : Call) (calls : List Call)
      → is_final (status_of c) ≡ true
      → (w : Writer z g) × (run (c ∷ calls) (open_header (status_of c) (fresh e h m)) ≡ some w)
        × Delivers (decode_of unzstd ungzip) e h (status_of c) (payload (c ∷ calls)) m (close w)
  opened-Delivers e h m c calls f = elim (Bool-cases (is_plain e (status_of c) h)) [
    | inl t ↦ plain-Delivers e h m c calls f t
    | inr k ↦ encoded-Delivers e h m c calls f k
  ]

  -- A writer wraps a client of a request with the header `request`, and the handler does `c`, then
  -- `calls`, and closes the writer, where a `c` that writes a header writes that of a final response:
  -- the code 101, or one from 200 to 999. If the decoders undo the encoders, no call panics, and the
  -- client gets one header, with the status of `c`, and the whole payload. When the chosen encoding
  -- does not apply to the response, the header is the handler's and the payload is as it is, but for
  -- a status without a body, which has none. Otherwise the payload is encoded, under a header that
  -- is the handler's but for three fields: it names the encoding, has no length and adds to Vary; the
  -- metrics then count the bytes on both sides of the encoder. Closing again changes nothing.
  pub run-Delivers :
      (parse_float : Bytes → Option ℕ) (h request : Header) (m : Option StreamMetrics) (c : Call)
      (calls : List Call)
      → is_final (status_of c) ≡ true
      → let w0 : Writer z g =
          wrap_response_writer parse_float (record new_response { header = h }) request m in
        (w : Writer z g) × (run (c ∷ calls) w0 ≡ some w)
        × Delivers
            (decode_of unzstd ungzip)
            w0.encoding
            h
            (status_of c)
            (payload (c ∷ calls))
            m
            (close w)
        × (close (close w) ≡ close w)
  unfolding wrap_response_writer
  run-Delivers parse_float h request m c calls f =
      let w0 : Writer z g =
        wrap_response_writer parse_float (record new_response { header = h }) request m in
      let (w, r, d) = opened-Delivers w0.encoding h m c calls f in
      (w, run-opened c calls w0 refl f ∙ r, d, close-close w)
