-- ===== src/Sse/Encode/EventLines.antt =====
-- The lines that `EncodeEvent` writes, and the events whose lines are read whole.
use buffered_llm_proxy.Base.{
  ℕ, ◌+◌, ◌<◌, ◌≡◌, refl, sym, ap, ◌∙◌, false, List, [], ◌∷◌, ◌++◌, append_assoc, Bytes, codes,
  length, is_empty, map, if◌then◌else◌,
}
use buffered_llm_proxy.Sse.Encode.{split_lines, encode_lines, field_line, data_lines, encode_event}
use buffered_llm_proxy.Sse.Lines.{drop_cr, ends_in_cr}
use buffered_llm_proxy.Sse.Lines.Whole.{HasNoNewline, stream_of}
use buffered_llm_proxy.Sse.Reader.{Event}

abbrev pub with_prefix : Bytes → List Bytes → List Bytes
with_prefix p = map (λ l. p ++ l)

abbrev pub optional : Bytes → Bytes → List Bytes
optional name value = if is_empty value then [] else (name ++ value) ∷ []

abbrev pub payload_lines : Bytes → List Bytes
payload_lines bytes =
    if is_empty bytes then codes "data:" ∷ [] else with_prefix (codes "data: ") (split_lines bytes)

-- The lines of an encoded event.
unfoldable pub event_lines : Event → List Bytes
event_lines ev =
    optional (codes "event: ") ev.type
    ++ (optional (codes "id: ") ev.id ++ (payload_lines ev.payload ++ ([] ∷ [])))

pub stream_of-append : (xs ys : List Bytes) → stream_of (xs ++ ys) ≡ stream_of xs ++ stream_of ys
unfolding stream_of
stream_of-append [] ys = refl
stream_of-append (x ∷ xs) ys =
    rw (stream_of-append xs ys) (sym (append_assoc x (b'\n' ∷ stream_of xs) (stream_of ys)))

encode_lines-stream_of :
    (ls : List Bytes) → encode_lines ls ≡ stream_of (with_prefix (codes "data: ") ls)
unfolding encode_lines stream_of
encode_lines-stream_of [] = refl
encode_lines-stream_of (l ∷ ls) = rw (encode_lines-stream_of ls) refl

field_line-stream_of :
    (name value : Bytes) → field_line name value ≡ stream_of (optional name value)
unfolding stream_of
field_line-stream_of name [] = refl
field_line-stream_of name (c ∷ cs) = sym (append_assoc name (c ∷ cs) (b'\n' ∷ []))

data_lines-stream_of : (b : Bytes) → data_lines b ≡ stream_of (payload_lines b)
unfolding stream_of
data_lines-stream_of [] = refl
data_lines-stream_of (c ∷ cs) = encode_lines-stream_of (split_lines (c ∷ cs))

pub encode_event-stream_of : (ev : Event) → encode_event ev ≡ stream_of (event_lines ev)
unfolding encode_event event_lines stream_of
encode_event-stream_of ev =
    let types = optional (codes "event: ") ev.type in
    let ids = optional (codes "id: ") ev.id in
    let payload = payload_lines ev.payload in
    let stop : List Bytes = [] ∷ [] in
    (λ i.
      field_line-stream_of (codes "event: ") ev.type i
      ++ (field_line-stream_of (codes "id: ") ev.id i
          ++ (data_lines-stream_of ev.payload i ++ (b'\n' ∷ []))))
    ∙ sym (
        stream_of-append types (ids ++ (payload ++ stop))
        ∙ ap (λ t. stream_of types ++ t)
            (stream_of-append ids (payload ++ stop)
              ∙ ap (λ t. stream_of ids ++ t) (stream_of-append payload stop)))

-- A value that stays whole in a line behind a prefix of `n` bytes.
abbrev pub IsClean : ℕ → ℕ → Bytes → Type 0
IsClean size n v = HasNoNewline v × (ends_in_cr v ≡ false) × (n + length v < size)

abbrev pub AllClean : ℕ → List Bytes → Type 0
AllClean size [] = Unit {0}
AllClean size (l ∷ ls) = (ends_in_cr l ≡ false) × (6 + length l < size) × AllClean size ls

-- Type, identifier and each line of the payload fit into the reader's buffer and do not end in a
-- carriage return; type and identifier hold no newline.
pub record IsPrintable (size : ℕ) (ev : Event) : Type 0 where
  pub type_clean : IsClean size 7 ev.type
  pub id_clean : IsClean size 4 ev.id
  pub payload_clean : AllClean size (split_lines ev.payload)
  pub room : 5 < size

pub drop_cr-clean : (l : Bytes) → ends_in_cr l ≡ false → drop_cr l ≡ l
unfolding drop_cr ends_in_cr
drop_cr-clean [] h = refl
drop_cr-clean (c ∷ []) h = rw h
drop_cr-clean (c ∷ d ∷ l) h = ap (λ t. c ∷ t) (drop_cr-clean (d ∷ l) h)
