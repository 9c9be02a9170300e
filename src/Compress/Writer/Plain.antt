-- ===== src/Compress/Writer/Plain.antt =====
-- A handler's calls on a writer that does not compress reach the client as they are.
use buffered_llm_proxy.Compress.Writer.Sessions.{write_header-done}
use buffered_llm_proxy.Base.{
  Bool, is_empty, if◌then◌else◌, ℕ, ◌≡◌, ◌∙◌, refl, ap, true, false, List, [], ◌∷◌, ◌++◌, Option,
  some, Bytes, arith, append_assoc, append-nil,
}
use buffered_llm_proxy.Compress.Accept.{encoding_none}
use buffered_llm_proxy.Compress.Codec.{Codec}
use buffered_llm_proxy.Compress.Writer.{
  Writer, with_header, write_encoded, write, flush_encoded, flush_client, flush,
}
use buffered_llm_proxy.Compress.Writer.Calls.{Call, heads, sends, pushes, payload, apply, run}
use buffered_llm_proxy.Http.Header.{Header}
use buffered_llm_proxy.Http.Response.{send_bytes, takes_body, send_bytes-sent, send_flush-sent}
use buffered_llm_proxy.Metrics.{StreamMetrics}

if-append :
    (b : Bool) (out p : Bytes)
    → (if b then (if b then out else []) ++ p else (if b then out else []))
      ≡ (if b then out ++ p else [])
if-append true out p = refl
if-append false out p = refl

module _ {z g : Codec} where
  pub record IsPlain (w : Writer z g) (sent : List (ℕ × Header)) (out : Bytes)
      (m : Option StreamMetrics) : Type 0 where
    pub encoding_is : w.encoding ≡ encoding_none
    pub header_done : w.wrote_header ≡ true
    pub sent_is : w.client.sent ≡ sent
    pub begun : is_empty sent ≡ false
    pub body_is : w.client.body ≡ (if takes_body sent then out else [])
    pub still_open : w.closed ≡ false
    pub metrics_are : w.metrics ≡ m

  write-plain :
      (p : Bytes) (w : Writer z g)
      → w.wrote_header ≡ true
      → w.encoding ≡ encoding_none
      → write p w ≡ some (record w { client = send_bytes p w.client })
  unfolding write with_header write_encoded
  write-plain p w h e = ground (arith, h, e)

  flush-plain :
      (w : Writer z g)
      → w.wrote_header ≡ true
      → w.encoding ≡ encoding_none
      → flush w ≡ flush_client w
  unfolding flush with_header flush_encoded
  flush-plain w h e = ground (arith, h, e)

  sent_begun :
      {w : Writer z g} {sent : List (ℕ × Header)} {out : Bytes} {m : Option StreamMetrics}
      → IsPlain w sent out m
      → is_empty w.client.sent ≡ false
  sent_begun v = ap is_empty v.sent_is ∙ v.begun

  sent-IsPlain :
      {w : Writer z g} {sent : List (ℕ × Header)} {out : Bytes} {m : Option StreamMetrics}
      (p : Bytes)
      → IsPlain w sent out m
      → IsPlain (record w { client = send_bytes p w.client }) sent (out ++ p) m
  sent-IsPlain {w} {sent} {out} p v =
      let (s, b) = send_bytes-sent p w.client (sent_begun v) in
      record {
        encoding_is = v.encoding_is;
        header_done = v.header_done;
        sent_is = s ∙ v.sent_is;
        begun = v.begun;
        body_is = b ∙ rw (v.sent_is, v.body_is) (if-append (takes_body sent) out p);
        still_open = v.still_open;
        metrics_are = v.metrics_are;
      }

  flushed-IsPlain :
      {w : Writer z g} {sent : List (ℕ × Header)} {out : Bytes} {m : Option StreamMetrics}
      → IsPlain w sent out m
      → IsPlain (flush_client w) sent out m
  unfolding flush_client
  flushed-IsPlain {w} v =
      let (s, b) = send_flush-sent w.client (sent_begun v) in
      record {
        encoding_is = v.encoding_is;
        header_done = v.header_done;
        sent_is = s ∙ v.sent_is;
        begun = v.begun;
        body_is = b ∙ v.body_is;
        still_open = v.still_open;
        metrics_are = v.metrics_are;
      }

  pub run-IsPlain :
      (calls : List Call) (w : Writer z g) {sent : List (ℕ × Header)} (out : Bytes)
      {m : Option StreamMetrics}
      → IsPlain w sent out m
      → (w' : Writer z g) × (run calls w ≡ some w') × IsPlain w' sent (out ++ payload calls) m
  unfolding run apply
  run-IsPlain [] w out v = (w, refl, rw (append-nil out) v)
  run-IsPlain (heads status ∷ calls) w out v =
      rw (write_header-done status w v.header_done, run) (run-IsPlain calls w out v)
  run-IsPlain (sends p ∷ calls) w out v =
      rw (write-plain p w v.header_done v.encoding_is, run)
        (rw (← (append_assoc out p (payload calls))) (
          run-IsPlain calls (record w { client = send_bytes p w.client }) (out ++ p)
            (sent-IsPlain p v)))
  run-IsPlain (pushes ∷ calls) w out v =
      rw (flush-plain w v.header_done v.encoding_is)
        (run-IsPlain calls (flush_client w) out (flushed-IsPlain v))
