-- ===== src/Sse/Encode/RoundTrip.antt =====
-- What `EncodeEvent` writes, `ReadEvent` reads back.
use mathlib.Core.List.{map-append}
use buffered_llm_proxy.Base.{
  ℕ, ◌<◌, ◌≡◌, refl, sym, ap, ◌∙◌, Bool, false, List, [], ◌∷◌, ◌++◌, arith, Bytes, codes, length,
  length-append, ◌==◌, map, Bool-cases, inl, inr,
}
use buffered_llm_proxy.Sse.Encode.{prepend, split_lines, encode_event}
use buffered_llm_proxy.Sse.Lines.{lines}
use buffered_llm_proxy.Sse.Lines.Whole.{HasNoNewline, stream_of, AllFit, as_line, lines-stream_of}
use buffered_llm_proxy.Sse.Reader.{Event, event, read_event}
use buffered_llm_proxy.Sse.Encode.EventLines.{
  with_prefix, optional, payload_lines, event_lines, stream_of-append, encode_event-stream_of,
  IsClean, AllClean, IsPrintable,
}
use buffered_llm_proxy.Sse.Encode.Reading.{read_event_lines}

HasNoNewline-append : (a b : Bytes) → HasNoNewline a → HasNoNewline b → HasNoNewline (a ++ b)
HasNoNewline-append [] b h k = k
HasNoNewline-append (c ∷ a) b h k = (h.0, HasNoNewline-append a b h.1 k)

AllFit-append :
    (size : ℕ) (xs ys : List Bytes) → AllFit size xs → AllFit size ys → AllFit size (xs ++ ys)
AllFit-append size [] ys a b = b
AllFit-append size (x ∷ xs) ys a b = (a.0, AllFit-append size xs ys a.1 b)

abbrev NoNewlines : List Bytes → Type 0
NoNewlines [] = Unit {0}
NoNewlines (l ∷ ls) = HasNoNewline l × NoNewlines ls

prepend-NoNewlines :
    (c : ℕ) (ls : List Bytes) → (c == b'\n') ≡ false → NoNewlines ls → NoNewlines (prepend c ls)
prepend-NoNewlines c [] h n = ((h, tt), tt)
prepend-NoNewlines c (l ∷ ls) h n = ((h, n.0), n.1)

split_lines-NoNewlines : (b : Bytes) → NoNewlines (split_lines b)
unfolding split_lines
split_lines-NoNewlines [] = (tt, tt)
split_lines-NoNewlines (c ∷ cs) = elim (Bool-cases (c == b'\n')) [
  | inl t ↦ rw t (tt, split_lines-NoNewlines cs)
  | inr f ↦ rw f (prepend-NoNewlines c (split_lines cs) f (split_lines-NoNewlines cs))
]

with_prefix-AllFit :
    (size : ℕ) (ls : List Bytes)
    → NoNewlines ls
    → AllClean size ls
    → AllFit size (with_prefix (codes "data: ") ls)
with_prefix-AllFit size [] n a = tt
with_prefix-AllFit size (l ∷ ls) n a = (
  (HasNoNewline-append (codes "data: ") l (ground arith) n.0, omega (arith, a.1)),
  with_prefix-AllFit size ls n.1 a.2,
)

payload_lines-AllFit :
    (size : ℕ) (b : Bytes)
    → AllClean size (split_lines b)
    → 5 < size
    → AllFit size (payload_lines b)
payload_lines-AllFit size [] a h = ground arith
payload_lines-AllFit size (c ∷ cs) a h =
    with_prefix-AllFit size (split_lines (c ∷ cs)) (split_lines-NoNewlines (c ∷ cs)) a

optional-AllFit :
    (size n : ℕ) (name v : Bytes)
    → HasNoNewline name
    → length name ≡ n
    → IsClean size n v
    → AllFit size (optional name v)
optional-AllFit size n name [] h e c = tt
optional-AllFit size n name (d ∷ v) h e c =
    ((HasNoNewline-append name (d ∷ v) h c.0, omega (arith, c.2, length-append name (d ∷ v))), tt)

event_lines-AllFit : (size : ℕ) (ev : Event) → IsPrintable size ev → AllFit size (event_lines ev)
unfolding event_lines
event_lines-AllFit size ev p =
    let types = optional (codes "event: ") ev.type in
    let ids = optional (codes "id: ") ev.id in
    let payload = payload_lines ev.payload in
    AllFit-append size types (ids ++ (payload ++ ([] ∷ [])))
      (optional-AllFit size 7 (codes "event: ") ev.type (ground arith) refl p.type_clean)
      (AllFit-append size ids (payload ++ ([] ∷ []))
        (optional-AllFit size 4 (codes "id: ") ev.id (ground arith) refl p.id_clean)
        (AllFit-append size payload ([] ∷ [])
          (payload_lines-AllFit size ev.payload p.payload_clean p.room)
          ((tt, omega (arith, p.room)), tt)))

-- Round trip: a printable event that is written in front of a stream of lines that fit is the next
-- event read, whatever the network does, and the lines behind it are left unread.
pub read_event-encode_event :
    (at_eof : Bool) (size ahead : ℕ) (ev : Event) (rest : List Bytes)
    → IsPrintable size ev
    → AllFit size rest
    → read_event at_eof (lines size ahead (encode_event ev ++ stream_of rest))
      ≡ event ev (lines size ahead (stream_of rest))
read_event-encode_event at_eof size ahead ev rest p f =
    ap (λ s. read_event at_eof (lines size ahead s))
      (ap (λ s. s ++ stream_of rest) (encode_event-stream_of ev)
        ∙ sym (stream_of-append (event_lines ev) rest))
    ∙ ap (read_event at_eof) (
        lines-stream_of (event_lines ev ++ rest) size ahead
          (AllFit-append size (event_lines ev) rest (event_lines-AllFit size ev p) f)
        ∙ map-append as_line (event_lines ev) rest)
    ∙ read_event_lines at_eof size ev (map as_line rest) p
    ∙ ap (event ev) (sym (lines-stream_of rest size ahead f))
