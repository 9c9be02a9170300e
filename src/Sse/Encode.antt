-- ===== src/Sse/Encode.antt =====
-- `EncodeEvent`, `EncodeData`, `EncodeDone`.
pub mod EventLines
pub mod Reading
pub mod RoundTrip
use buffered_llm_proxy.Base.{
  ℕ, Bool, List, [], ◌∷◌, ◌++◌, Bytes, codes, is_empty, ◌==◌, if◌then◌else◌,
}
use buffered_llm_proxy.Sse.Reader.{Event}

abbrev pub prepend : ℕ → List Bytes → List Bytes
prepend c [] = (c ∷ []) ∷ []
prepend c (l ∷ ls) = (c ∷ l) ∷ ls

-- `bytes.Split(data, []byte("\n"))`
unfoldable pub split_lines : Bytes → List Bytes
split_lines [] = [] ∷ []
split_lines (c ∷ cs) = let rest = split_lines cs in if c == b'\n' then [] ∷ rest else prepend c rest

unfoldable pub encode_lines : List Bytes → Bytes
encode_lines [] = []
encode_lines (l ∷ ls) = codes "data: " ++ (l ++ (b'\n' ∷ encode_lines ls))

unfoldable pub encode_data : Bytes → Bytes
unfolding split_lines encode_lines
encode_data bytes = encode_lines (split_lines bytes) ++ (b'\n' ∷ [])

-- A field line, left out if the value is empty.
abbrev pub field_line : Bytes → Bytes → Bytes
field_line name value = if is_empty value then [] else name ++ (value ++ (b'\n' ∷ []))

abbrev pub data_lines : Bytes → Bytes
data_lines bytes = if is_empty bytes then codes "data:\n" else encode_lines (split_lines bytes)

unfoldable pub encode_event : Event → Bytes
unfolding split_lines encode_lines
encode_event ev =
    field_line (codes "event: ") ev.type
    ++ (field_line (codes "id: ") ev.id ++ (data_lines ev.payload ++ (b'\n' ∷ [])))

abbrev pub encode_done : Bytes
encode_done = codes "data: [DONE]\n\n"
