-- ===== src/Compress/Writer/Delivery/Opening.antt =====
-- The first call on a writer.
use buffered_llm_proxy.Base.{
  ℕ, ◌≡◌, refl, sym, ap, ◌∙◌, Bool, true, false, Bytes, if◌then◌else◌, [], ◌∷◌, Option, none, some,
  bytes_eq, arith, Bool-cases, inl, inr,
}
use buffered_llm_proxy.Compress.Accept.{Encoding, encoding_none, encoding_zstd, encoding_gzip}
use buffered_llm_proxy.Compress.Codec.{Codec}
use buffered_llm_proxy.Compress.Writer.{
  Writer, is_plain, encoded_header, take_encoder, start_encoding, open_header, write_header,
  with_header, write, flush, write_encoded, flush_encoded, flush_client,
}
use buffered_llm_proxy.Compress.Writer.Plain.{IsPlain}
use buffered_llm_proxy.Compress.Writer.Calls.{Call, heads, sends, pushes, apply}
use buffered_llm_proxy.Compress.Writer.Sessions.{
  open_header-done, write_header-done, with_header-done, InSession,
}
use buffered_llm_proxy.Http.Header.{Header}
use buffered_llm_proxy.Http.Response.{
  new_response, send_header, is_code, is_final, has_body, send_header-final, send_header-body,
}
use buffered_llm_proxy.Metrics.{StreamMetrics}
use buffered_llm_proxy.Compress.Writer.Delivery.{status_of}

-- A response that is compressed has a body.
pub takes_body-plain :
    (e : Encoding) (status : ℕ) (h : Header) → is_plain e status h ≡ false → has_body status ≡ true
unfolding is_plain
takes_body-plain e status h p = ground (arith, p)

final_is_code : (status : ℕ) → is_final status ≡ true → is_code status ≡ true
final_is_code status f = ground (arith, f)

no_bytes : (b : Bool) → let out : Bytes = [] in (if b then out else []) ≡ out
no_bytes true = refl
no_bytes false = refl

module _ {z g : Codec} where
  -- A writer on which nothing has been called yet.
  abbrev pub fresh : Encoding → Header → Option StreamMetrics → Writer z g
  fresh e h m = record {
    client = record new_response { header = h };
    encoding = e;
    wrote_header = false;
    status_code = 0;
    gzip_writer = none;
    zstd_encoder = none;
    counted = 0;
    uncompressed_bytes = 0;
    metrics = m;
    recorded_metrics = false;
    closed = false;
  }

  pub header-IsPlain :
      (e : Encoding) (h : Header) (m : Option StreamMetrics) (status : ℕ)
      → is_final status ≡ true
      → is_plain e status h ≡ true
      → IsPlain (open_header status (fresh e h m)) ((status, h) ∷ []) [] m
  unfolding open_header send_header
  header-IsPlain e h m status f p =
      let client = record new_response { header = h } in
      rw (p, open_header)
        (record {
          encoding_is = refl;
          header_done = refl;
          sent_is = send_header-final status client f refl;
          begun = refl;
          body_is = send_header-body status client ∙ sym (no_bytes (has_body status));
          still_open = refl;
          metrics_are = refl;
        })

  pub header-zstd :
      (h : Header) (m : Option StreamMetrics) (status : ℕ)
      → is_final status ≡ true
      → is_plain encoding_zstd status h ≡ false
      → InSession encoding_zstd
          (open_header status (fresh encoding_zstd h m))
          ((status, encoded_header encoding_zstd h) ∷ [])
          []
          0
          m
        × ((open_header status (fresh encoding_zstd h m)).zstd_encoder ≡ some z.reset)
  unfolding open_header start_encoding send_header take_encoder
  header-zstd h m status f p =
      let client = record new_response { header = encoded_header encoding_zstd h } in
      rw (p, open_header)
        (
          record {
            encoding_is = refl;
            header_done = refl;
            sent_is = send_header-final status client f refl;
            takes = takes_body-plain encoding_zstd status h p;
            body_is = send_header-body status client;
            still_open = refl;
            counted_is = refl;
            uncompressed_is = refl;
            metrics_are = refl;
            not_recorded = refl;
          },
          refl,
        )

  pub header-gzip :
      (h : Header) (m : Option StreamMetrics) (status : ℕ)
      → is_final status ≡ true
      → is_plain encoding_gzip status h ≡ false
      → InSession encoding_gzip
          (open_header status (fresh encoding_gzip h m))
          ((status, encoded_header encoding_gzip h) ∷ [])
          []
          0
          m
        × ((open_header status (fresh encoding_gzip h m)).gzip_writer ≡ some g.reset)
  unfolding open_header start_encoding send_header take_encoder
  header-gzip h m status f p =
      let client = record new_response { header = encoded_header encoding_gzip h } in
      rw (p, open_header)
        (
          record {
            encoding_is = refl;
            header_done = refl;
            sent_is = send_header-final status client f refl;
            takes = takes_body-plain encoding_gzip status h p;
            body_is = send_header-body status client;
            still_open = refl;
            counted_is = refl;
            uncompressed_is = refl;
            metrics_are = refl;
            not_recorded = refl;
          },
          refl,
        )

  wrote_header-take_encoder :
      (e : Encoding) (w : Writer z g) → (take_encoder e w).wrote_header ≡ w.wrote_header
  unfolding take_encoder
  wrote_header-take_encoder encoding_none w = refl
  wrote_header-take_encoder encoding_zstd w = refl
  wrote_header-take_encoder encoding_gzip w = refl

  wrote_header-open_header :
      (status : ℕ) (w : Writer z g) → (open_header status w).wrote_header ≡ true
  unfolding open_header start_encoding
  wrote_header-open_header status w = elim (Bool-cases w.wrote_header) [
    | inl t ↦ rw (open_header-done status w t) t
    | inr k ↦
        rw (k, open_header)
          (elim (Bool-cases (is_plain w.encoding status w.client.header)) [
            | inl t ↦ rw (t, open_header) refl
            | inr f ↦ rw (f, open_header) (wrote_header-take_encoder w.encoding _)
          ])
  ]

  with_header-open_header :
      (w : Writer z g) → w.wrote_header ≡ false → with_header w ≡ with_header (open_header 200 w)
  with_header-open_header w k =
      let e : with_header w ≡ open_header 200 w = unfold with_header in ground (arith, k) in
      e ∙ sym (with_header-done (open_header 200 w) (wrote_header-open_header 200 w))

  write_header-open :
      (status : ℕ) (w : Writer z g)
      → is_code status ≡ true
      → write_header status w ≡ some (open_header status w)
  unfolding write_header
  write_header-open status w c = ground (arith, c)

  -- The first call writes the header, whichever call it is.
  pub apply-open_header :
      (c : Call) (w : Writer z g)
      → w.wrote_header ≡ false
      → is_final (status_of c) ≡ true
      → apply c w ≡ apply c (open_header (status_of c) w)
  unfolding apply write flush
  apply-open_header (heads status) w k f =
      write_header-open status w (final_is_code status f)
      ∙ sym (write_header-done status (open_header status w) (wrote_header-open_header status w))
  apply-open_header (sends p) w k f =
      ap (λ (v : Writer z g). write_encoded v.encoding p v) (with_header-open_header w k)
  apply-open_header pushes w k f =
      ap (λ (v : Writer z g). some (flush_client (flush_encoded v.encoding v)))
        (with_header-open_header w k)
