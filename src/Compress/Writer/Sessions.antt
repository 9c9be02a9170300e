-- ===== src/Compress/Writer/Sessions.antt =====
-- A handler's calls on a writer that compresses are a session of its encoder.
use buffered_llm_proxy.Base.{
  ℕ, ◌+◌, ◌%◌, ◌^◌, ◌≡◌, refl, ap, ◌∙◌, true, false, is_empty, List, [], ◌∷◌, ◌++◌, Option, none,
  some, Bytes, Bool, ◌||◌, if◌then◌else◌, length, length-append, arith,
}
use buffered_llm_proxy.Base.Word.{add64}
use buffered_llm_proxy.Compress.Accept.{Encoding, encoding_zstd, encoding_gzip}
use buffered_llm_proxy.Compress.Codec.{Codec, acts}
use buffered_llm_proxy.Compress.Writer.{
  Writer, open_header, write_header, with_header, passed_on, zstd_write, gzip_write, write_encoded,
  write, zstd_flush, gzip_flush, flush_encoded, flush_client, flush,
}
use buffered_llm_proxy.Http.Header.{Header}
use buffered_llm_proxy.Metrics.{StreamMetrics}
use buffered_llm_proxy.Http.Response.{
  is_code, takes_body, takes_body-begun, send_bytes-sent, send_flush-sent,
}
use buffered_llm_proxy.Compress.Writer.Calls.{
  Call, heads, sends, pushes, actions_of, total, apply, run,
}

counted-append :
    (out more : Bytes) → add64 (length out % 2 ^ 64) (length more) ≡ length (out ++ more) % 2 ^ 64
unfolding add64
counted-append out more = omega (arith, length-append out more)

add64-mod : (n k : ℕ) → add64 (n % 2 ^ 64) k ≡ (n + k) % 2 ^ 64
unfolding add64
add64-mod n k = omega arith

module _ {z g : Codec} where
  -- The writer is compressing: its encoder is in the state `s`, the client has been sent the header
  -- `h` and the bytes `out`, and `n` bytes have been written.
  pub record InSession (e : Encoding) (w : Writer z g) (sent : List (ℕ × Header)) (out : Bytes)
      (n : ℕ) (m : Option StreamMetrics) : Type 0 where
    pub encoding_is : w.encoding ≡ e
    pub header_done : w.wrote_header ≡ true
    pub sent_is : w.client.sent ≡ sent
    pub takes : takes_body sent ≡ true
    pub body_is : w.client.body ≡ out
    pub still_open : w.closed ≡ false
    pub counted_is : w.counted ≡ length out % 2 ^ 64
    pub uncompressed_is : w.uncompressed_bytes ≡ n % 2 ^ 64
    pub metrics_are : w.metrics ≡ m
    pub not_recorded : w.recorded_metrics ≡ false

  -- The encoder has gone on to another state, and has taken `k` bytes.
  pub taken-InSession :
      {e : Encoding} {w : Writer z g} {sent : List (ℕ × Header)} {out : Bytes} {n : ℕ}
      {m : Option StreamMetrics} (k : ℕ) (zs : Option z.State) (gs : Option g.State)
      → InSession e w sent out n m
      → InSession e
          (record w {
            zstd_encoder = zs;
            gzip_writer = gs;
            uncompressed_bytes = add64 w.uncompressed_bytes k;
          })
          sent
          out
          (n + k)
          m
  taken-InSession {n} k zs gs v = record {
    encoding_is = v.encoding_is;
    header_done = v.header_done;
    sent_is = v.sent_is;
    takes = v.takes;
    body_is = v.body_is;
    still_open = v.still_open;
    counted_is = v.counted_is;
    uncompressed_is = ap (λ u. add64 u k) v.uncompressed_is ∙ add64-mod n k;
    metrics_are = v.metrics_are;
    not_recorded = v.not_recorded;
  }

  pub flushed-InSession :
      {e : Encoding} {w : Writer z g} {sent : List (ℕ × Header)} {out : Bytes} {n : ℕ}
      {m : Option StreamMetrics} (zs : Option z.State) (gs : Option g.State)
      → InSession e w sent out n m
      → InSession e (record w { zstd_encoder = zs; gzip_writer = gs }) sent out n m
  flushed-InSession zs gs v = record {
    encoding_is = v.encoding_is;
    header_done = v.header_done;
    sent_is = v.sent_is;
    takes = v.takes;
    body_is = v.body_is;
    still_open = v.still_open;
    counted_is = v.counted_is;
    uncompressed_is = v.uncompressed_is;
    metrics_are = v.metrics_are;
    not_recorded = v.not_recorded;
  }

  pub begun :
      {e : Encoding} {w : Writer z g} {sent : List (ℕ × Header)} {out : Bytes} {n : ℕ}
      {m : Option StreamMetrics}
      → InSession e w sent out n m
      → is_empty w.client.sent ≡ false
  begun {sent} v = ap is_empty v.sent_is ∙ takes_body-begun sent v.takes

  pub passed_on-InSession :
      {e : Encoding} {w : Writer z g} {sent : List (ℕ × Header)} {out : Bytes} {n : ℕ}
      {m : Option StreamMetrics} (more : Bytes)
      → InSession e w sent out n m
      → InSession e (passed_on more w) sent (out ++ more) n m
  unfolding passed_on
  passed_on-InSession {w} {out} more v = record {
    encoding_is = v.encoding_is;
    header_done = v.header_done;
    sent_is = (send_bytes-sent more w.client (begun v)).0 ∙ v.sent_is;
    takes = v.takes;
    body_is =
        (send_bytes-sent more w.client (begun v)).1
        ∙ rw (ap takes_body v.sent_is ∙ v.takes) (ap (λ b. b ++ more) v.body_is);
    still_open = v.still_open;
    counted_is = ap (λ k. add64 k (length more)) v.counted_is ∙ counted-append out more;
    uncompressed_is = v.uncompressed_is;
    metrics_are = v.metrics_are;
    not_recorded = v.not_recorded;
  }

  pub flush_client-InSession :
      {e : Encoding} {w : Writer z g} {sent : List (ℕ × Header)} {out : Bytes} {n : ℕ}
      {m : Option StreamMetrics}
      → InSession e w sent out n m
      → InSession e (flush_client w) sent out n m
  unfolding flush_client
  flush_client-InSession {w} v = record {
    encoding_is = v.encoding_is;
    header_done = v.header_done;
    sent_is = (send_flush-sent w.client (begun v)).0 ∙ v.sent_is;
    takes = v.takes;
    body_is = (send_flush-sent w.client (begun v)).1 ∙ v.body_is;
    still_open = v.still_open;
    counted_is = v.counted_is;
    uncompressed_is = v.uncompressed_is;
    metrics_are = v.metrics_are;
    not_recorded = v.not_recorded;
  }

  pub open_header-done :
      (status : ℕ) (w : Writer z g) → w.wrote_header ≡ true → open_header status w ≡ w
  unfolding open_header
  open_header-done status w h = ground arith

  written-done :
      (w : Writer z g) (code : Bool) (w' : Writer z g)
      → w.wrote_header ≡ true
      → (if w.wrote_header || code then some w' else none) ≡ some w'
  written-done w code w' h = ground (arith, h)

  pub write_header-done :
      (status : ℕ) (w : Writer z g) → w.wrote_header ≡ true → write_header status w ≡ some w
  unfolding write_header
  write_header-done status w h =
      written-done w (is_code status) (open_header status w) h
      ∙ ap some (open_header-done status w h)

  pub with_header-done : (w : Writer z g) → w.wrote_header ≡ true → with_header w ≡ w
  unfolding with_header
  with_header-done w h = ground arith

  abbrev after_zstd_write : Bytes → Writer z g → z.State → Writer z g
  after_zstd_write p w s = passed_on (z.write p s).1 (record w {
    zstd_encoder = some (z.write p s).0;
    uncompressed_bytes = add64 w.uncompressed_bytes (length p);
  })

  abbrev after_gzip_write : Bytes → Writer z g → g.State → Writer z g
  after_gzip_write p w s = passed_on (g.write p s).1 (record w {
    gzip_writer = some (g.write p s).0;
    uncompressed_bytes = add64 w.uncompressed_bytes (length p);
  })

  write-zstd :
      (p : Bytes) (w : Writer z g) (s : z.State)
      → w.wrote_header ≡ true
      → w.encoding ≡ encoding_zstd
      → w.zstd_encoder ≡ some s
      → write p w ≡ some (after_zstd_write p w s)
  unfolding write write_encoded zstd_write
  write-zstd p w s h k e = rw (with_header-done w h) (ground (arith, k, e))

  write-gzip :
      (p : Bytes) (w : Writer z g) (s : g.State)
      → w.wrote_header ≡ true
      → w.encoding ≡ encoding_gzip
      → w.gzip_writer ≡ some s
      → write p w ≡ some (after_gzip_write p w s)
  unfolding write write_encoded gzip_write
  write-gzip p w s h k e = rw (with_header-done w h) (ground (arith, k, e))

  flush-zstd :
      (w : Writer z g) (s : z.State)
      → w.wrote_header ≡ true
      → w.encoding ≡ encoding_zstd
      → w.zstd_encoder ≡ some s
      → flush w
        ≡ flush_client (passed_on (z.flush s).1 (record w { zstd_encoder = some (z.flush s).0 }))
  unfolding flush flush_encoded zstd_flush
  flush-zstd w s h k e = rw (with_header-done w h) (ground (arith, k, e))

  flush-gzip :
      (w : Writer z g) (s : g.State)
      → w.wrote_header ≡ true
      → w.encoding ≡ encoding_gzip
      → w.gzip_writer ≡ some s
      → flush w
        ≡ flush_client (passed_on (g.flush s).1 (record w { gzip_writer = some (g.flush s).0 }))
  unfolding flush flush_encoded gzip_flush
  flush-gzip w s h k e = rw (with_header-done w h) (ground (arith, k, e))

  pub run-zstd :
      (calls : List Call) (w : Writer z g) (s : z.State) {sent : List (ℕ × Header)} {out : Bytes}
      {n : ℕ} {m : Option StreamMetrics}
      → InSession encoding_zstd w sent out n m
      → w.zstd_encoder ≡ some s
      → let (s', out') = acts z (actions_of calls) (s, out) in
        (w' : Writer z g) × (run calls w ≡ some w')
        × InSession encoding_zstd w' sent out' (total n calls) m
        × (w'.zstd_encoder ≡ some s')
  unfolding run acts apply
  run-zstd [] w s v e = (w, refl, v, e)
  run-zstd (heads status ∷ calls) w s v e =
      rw (write_header-done status w v.header_done, run) (run-zstd calls w s v e)
  run-zstd (sends p ∷ calls) w s v e =
      let (s', more) = z.write p s in
      rw (write-zstd p w s v.header_done v.encoding_is e, run)
        (run-zstd calls (after_zstd_write p w s) s'
          (passed_on-InSession more (taken-InSession (length p) (some s') w.gzip_writer v))
          (unfold passed_on in refl))
  run-zstd (pushes ∷ calls) w s v e =
      let (s', more) = z.flush s in
      rw (flush-zstd w s v.header_done v.encoding_is e) (
        run-zstd calls (flush_client (passed_on more (record w { zstd_encoder = some s' }))) s'
          (flush_client-InSession
            (passed_on-InSession more (flushed-InSession (some s') w.gzip_writer v)))
          (unfold passed_on flush_client in refl))

  pub run-gzip :
      (calls : List Call) (w : Writer z g) (s : g.State) {sent : List (ℕ × Header)} {out : Bytes}
      {n : ℕ} {m : Option StreamMetrics}
      → InSession encoding_gzip w sent out n m
      → w.gzip_writer ≡ some s
      → let (s', out') = acts g (actions_of calls) (s, out) in
        (w' : Writer z g) × (run calls w ≡ some w')
        × InSession encoding_gzip w' sent out' (total n calls) m
        × (w'.gzip_writer ≡ some s')
  unfolding run acts apply
  run-gzip [] w s v e = (w, refl, v, e)
  run-gzip (heads status ∷ calls) w s v e =
      rw (write_header-done status w v.header_done, run) (run-gzip calls w s v e)
  run-gzip (sends p ∷ calls) w s v e =
      let (s', more) = g.write p s in
      rw (write-gzip p w s v.header_done v.encoding_is e, run)
        (run-gzip calls (after_gzip_write p w s) s'
          (passed_on-InSession more (taken-InSession (length p) w.zstd_encoder (some s') v))
          (unfold passed_on in refl))
  run-gzip (pushes ∷ calls) w s v e =
      let (s', more) = g.flush s in
      rw (flush-gzip w s v.header_done v.encoding_is e) (
        run-gzip calls (flush_client (passed_on more (record w { gzip_writer = some s' }))) s'
          (flush_client-InSession
            (passed_on-InSession more (flushed-InSession w.zstd_encoder (some s') v)))
          (unfold passed_on flush_client in refl))
