-- ===== src/Compress/Writer.antt =====
-- `ResponseWriter`: a response writer that compresses. Its pools of encoders are not modelled: an
-- encoder that is taken from a pool is reset. `none` is a panic: a write to a nil encoder, or a
-- status that is no code.
pub mod Calls
pub mod Sessions
pub mod Plain
pub mod Delivery
use buffered_llm_proxy.Base.{
  ℕ, Bool, true, false, not, ◌&&◌, ◌||◌, List, [], ◌∷◌, Option, none, some, Bytes, codes, length,
  is_empty, leb, ltb, ◌==◌, if◌then◌else◌,
}
use buffered_llm_proxy.Base.Word.{add64}
use buffered_llm_proxy.Compress.Accept.{
  Encoding, encoding_none, encoding_zstd, encoding_gzip, select_encoding,
}
use buffered_llm_proxy.Compress.Codec.{Codec}
use buffered_llm_proxy.Http.Header.{Header, get, set, add, del}
use buffered_llm_proxy.Http.Response.{Response, is_code, send_header, send_bytes, send_flush}
use buffered_llm_proxy.Metrics.{StreamMetrics, add_compression_bytes}

-- `client` is the embedded writer, `counted` the count of its byteCounter.
pub record Writer (z g : Codec) : Type 0 where
  pub client : Response
  pub encoding : Encoding
  pub wrote_header : Bool
  pub status_code : ℕ
  pub gzip_writer : Option g.State
  pub zstd_encoder : Option z.State
  pub counted : ℕ
  pub uncompressed_bytes : ℕ
  pub metrics : Option StreamMetrics
  pub recorded_metrics : Bool
  pub closed : Bool

abbrev pub is_identity : Encoding → Bool
is_identity encoding_none = true
is_identity _ = false

abbrev pub encoding_name : Encoding → Bytes
encoding_name encoding_none = []
encoding_name encoding_zstd = codes "zstd"
encoding_name encoding_gzip = codes "gzip"

-- The test of `WriteHeader` for a response that is not compressed.
unfoldable pub is_plain : Encoding → ℕ → Header → Bool
is_plain encoding status header =
    is_identity encoding
    || status == 204
    || status == 304
    || leb 100 status && ltb status 200
    || not (is_empty (get (codes "Content-Encoding") header))

unfoldable pub encoded_header : Encoding → Header → Header
encoded_header encoding header =
    add (codes "Vary") (codes "Accept-Encoding") (
      set (codes "Content-Encoding") (encoding_name encoding) (del (codes "Content-Length") header))

module _ {z g : Codec} where
  -- `WrapResponseWriter` for a request with the header `request`.
  unfoldable pub wrap_response_writer :
      (Bytes → Option ℕ) → Response → Header → Option StreamMetrics → Writer z g
  unfolding select_encoding
  wrap_response_writer parse_float client request metrics = record {
    client = client;
    encoding =
        if is_empty (get (codes "Range") request)
        then select_encoding parse_float (get (codes "Accept-Encoding") request)
        else encoding_none;
    wrote_header = false;
    status_code = 0;
    gzip_writer = none;
    zstd_encoder = none;
    counted = 0;
    uncompressed_bytes = 0;
    metrics = metrics;
    recorded_metrics = false;
    closed = false;
  }

  -- The switch of `WriteHeader`, which takes an encoder.
  unfoldable pub take_encoder : Encoding → Writer z g → Writer z g
  take_encoder encoding_none w = w
  take_encoder encoding_zstd w = record w { zstd_encoder = some z.reset }
  take_encoder encoding_gzip w = record w { gzip_writer = some g.reset }

  unfoldable pub start_encoding : ℕ → Writer z g → Writer z g
  unfolding take_encoder encoded_header send_header
  start_encoding status w =
      let header = encoded_header w.encoding w.client.header in
      take_encoder w.encoding
        (record w { client = send_header status (record w.client { header = header }) })

  -- What `WriteHeader` does with a code that is one.
  unfoldable pub open_header : ℕ → Writer z g → Writer z g
  unfolding is_plain start_encoding send_header
  open_header status w =
      if w.wrote_header
      then w
      else let w' = record w { wrote_header = true; status_code = status } in
        if is_plain w.encoding status w.client.header
        then record w' { encoding = encoding_none; client = send_header status w.client }
        else start_encoding status w'

  -- `WriteHeader`; the embedded writer panics for what is no code.
  unfoldable pub write_header : ℕ → Writer z g → Option (Writer z g)
  unfolding open_header
  write_header status w =
      if w.wrote_header || is_code status then some (open_header status w) else none

  -- `if !rw.wroteHeader { rw.WriteHeader(http.StatusOK) }`
  unfoldable pub with_header : Writer z g → Writer z g
  unfolding open_header
  with_header w = if w.wrote_header then w else open_header 200 w

  -- What an encoder passes on goes through the counter to the client.
  unfoldable pub passed_on : Bytes → Writer z g → Writer z g
  unfolding send_bytes
  passed_on out w = record w {
    client = send_bytes out w.client;
    counted = add64 w.counted (length out);
  }

  unfoldable pub zstd_write : Bytes → Writer z g → Option z.State → Option (Writer z g)
  unfolding passed_on
  zstd_write p w none = none
  zstd_write p w (some s) =
      let (s', out) = z.write p s in
      some (
        passed_on out (record w {
          zstd_encoder = some s';
          uncompressed_bytes = add64 w.uncompressed_bytes (length p);
        }))

  unfoldable pub gzip_write : Bytes → Writer z g → Option g.State → Option (Writer z g)
  unfolding passed_on
  gzip_write p w none = none
  gzip_write p w (some s) =
      let (s', out) = g.write p s in
      some (
        passed_on out (record w {
          gzip_writer = some s';
          uncompressed_bytes = add64 w.uncompressed_bytes (length p);
        }))

  unfoldable pub write_encoded : Encoding → Bytes → Writer z g → Option (Writer z g)
  unfolding zstd_write gzip_write send_bytes
  write_encoded encoding_none p w = some (record w { client = send_bytes p w.client })
  write_encoded encoding_zstd p w = zstd_write p w w.zstd_encoder
  write_encoded encoding_gzip p w = gzip_write p w w.gzip_writer

  unfoldable pub write : Bytes → Writer z g → Option (Writer z g)
  unfolding with_header write_encoded
  write p w = write_encoded (with_header w).encoding p (with_header w)

  unfoldable pub zstd_flush : Writer z g → Option z.State → Writer z g
  unfolding passed_on
  zstd_flush w none = w
  zstd_flush w (some s) =
      let (s', out) = z.flush s in passed_on out (record w { zstd_encoder = some s' })

  unfoldable pub gzip_flush : Writer z g → Option g.State → Writer z g
  unfolding passed_on
  gzip_flush w none = w
  gzip_flush w (some s) =
      let (s', out) = g.flush s in passed_on out (record w { gzip_writer = some s' })

  unfoldable pub flush_encoded : Encoding → Writer z g → Writer z g
  unfolding zstd_flush gzip_flush
  flush_encoded encoding_none w = w
  flush_encoded encoding_zstd w = zstd_flush w w.zstd_encoder
  flush_encoded encoding_gzip w = gzip_flush w w.gzip_writer

  unfoldable pub flush_client : Writer z g → Writer z g
  unfolding send_flush
  flush_client w = record w { client = send_flush w.client }

  -- The embedded writer is an `http.Flusher`, as that of net/http is.
  unfoldable pub flush : Writer z g → Writer z g
  unfolding with_header flush_encoded flush_client
  flush w = flush_client (flush_encoded (with_header w).encoding (with_header w))

  unfoldable pub zstd_close : Writer z g → Option z.State → Writer z g
  unfolding passed_on
  zstd_close w none = w
  zstd_close w (some s) = passed_on (z.close s).1 (record w { zstd_encoder = none })

  unfoldable pub gzip_close : Writer z g → Option g.State → Writer z g
  unfolding passed_on
  gzip_close w none = w
  gzip_close w (some s) = passed_on (g.close s).1 (record w { gzip_writer = none })

  unfoldable pub close_encoded : Encoding → Writer z g → Writer z g
  unfolding zstd_close gzip_close
  close_encoded encoding_none w = w
  close_encoded encoding_zstd w = zstd_close w w.zstd_encoder
  close_encoded encoding_gzip w = gzip_close w w.gzip_writer

  unfoldable pub record_metrics : Option StreamMetrics → Writer z g → Writer z g
  unfolding add_compression_bytes
  record_metrics none w = w
  record_metrics (some m) w =
      if not w.recorded_metrics && not (is_identity w.encoding)
      then record w {
        recorded_metrics = true;
        metrics = some (add_compression_bytes w.uncompressed_bytes w.counted m);
      }
      else w

  unfoldable pub close : Writer z g → Writer z g
  unfolding close_encoded record_metrics flush_client
  close w =
      if w.closed
      then w
      else let w' = record w { closed = true } in
        if not w.wrote_header
        then w'
        else flush_client (record_metrics w.metrics (close_encoded w.encoding w'))
