-- ===== src/Tests/Compression.antt =====
-- Compressed responses, on concrete input.
use buffered_llm_proxy.Base.{
  ◌≡◌, refl, sym, ap, subst, ◌∙◌, ℕ, List, [], ◌∷◌, ◌++◌, append-nil, append_assoc, Option, none,
  some, Bytes, codes, equal,
}
use buffered_llm_proxy.Base.Map.{lookup}
use buffered_llm_proxy.Base.Float.{float_one, float_lt}
use buffered_llm_proxy.Base.Split.{split, cut_at}
use buffered_llm_proxy.Base.Lower.{to_lower}
use buffered_llm_proxy.Base.Trim.{trim_space}
use buffered_llm_proxy.Compress.Accept.{encoding_gzip, select_encoding}
use buffered_llm_proxy.Compress.Accept.Quality.{
  entries, quality, preferred, select_encoding-eq-preferred,
}
use buffered_llm_proxy.Compress.Codec.{
  Codec, Action, writes, flushes, acts, session, written, Decodes,
}
use buffered_llm_proxy.Compress.Writer.{Writer, wrap_response_writer, close}
use buffered_llm_proxy.Compress.Writer.Delivery.{decode_of, Delivers}
use buffered_llm_proxy.Compress.Writer.Delivery.Whole.{run-Delivers}
use buffered_llm_proxy.Compress.Writer.Calls.{Call, heads, sends, pushes, run}
use buffered_llm_proxy.Http.Header.{Header, get}
use buffered_llm_proxy.Http.Response.{new_response}

-- An encoder that buffers all until it is flushed or closed.
abbrev pub buffering : Codec
buffering = record {
  State = Bytes;
  reset = [];
  write = λ p s. (s ++ p, []);
  flush = λ s. ([], s);
  close = λ s. ([], s);
}

acts-written :
    (actions : List Action) (held out : Bytes)
    → let (s, out') = acts buffering actions (held, out) in
      out' ++ s ≡ out ++ (held ++ written actions)
unfolding acts written
acts-written [] held out = ap (λ t. out ++ t) (sym (append-nil held))
acts-written (writes p ∷ rest) held out =
    subst
      (λ o.
        let (s, out') = acts buffering rest (held ++ p, o) in
        out' ++ s ≡ out ++ (held ++ (p ++ written rest)))
      (sym (append-nil out))
      (acts-written rest (held ++ p) out ∙ ap (λ t. out ++ t) (append_assoc held p (written rest)))
acts-written (flushes ∷ rest) held out =
    acts-written rest [] (out ++ held) ∙ append_assoc out held (written rest)

pub buffering-Decodes : Decodes buffering (λ bytes. bytes)
unfolding session
buffering-Decodes actions = acts-written actions [] []

-- Every quality is 1.
abbrev pub one : Bytes → Option ℕ
one text = some float_one

abbrev pub gzip_request : Header
gzip_request = (codes "Accept-Encoding", codes "gzip" ∷ []) ∷ []

select_encoding-eq-preferred_example :
    let es = entries one (split b',' (codes "gzip, zstd;q=0")) in
    select_encoding one (codes "gzip, zstd;q=0")
    ≡ preferred (quality es (codes "zstd")) (quality es (codes "gzip"))
select_encoding-eq-preferred_example = select_encoding-eq-preferred one (codes "gzip, zstd;q=0")

abbrev calls : List Call
calls = pushes ∷ heads 500 ∷ sends (codes "bc") ∷ []

abbrev wrapped : Writer buffering buffering
wrapped = wrap_response_writer one (record new_response { header = [] }) gzip_request none

run-Delivers_example :
    (w : Writer buffering buffering) × (run (sends (codes "a") ∷ calls) wrapped ≡ some w)
    × Delivers
        (decode_of (λ bytes. bytes) (λ bytes. bytes))
        wrapped.encoding
        []
        200
        (codes "abc")
        none
        (close w)
    × (close (close w) ≡ close w)
run-Delivers_example =
    run-Delivers (λ bytes. bytes) (λ bytes. bytes) buffering-Decodes buffering-Decodes one []
      gzip_request none (sends (codes "a")) calls refl

wrapped_encoding : wrapped.encoding ≡ encoding_gzip
unfolding wrap_response_writer get lookup equal split trim_space cut_at to_lower float_lt
wrapped_encoding = refl
