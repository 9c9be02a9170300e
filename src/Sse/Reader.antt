-- ===== src/Sse/Reader.antt =====
-- `ReadEvent`: lines to events.
use buffered_llm_proxy.Base.{
  Bool, true, false, not, ◌||◌, List, [], ◌∷◌, ◌++◌, Option, none, some, Bytes, codes, equal,
  is_empty, ◌==◌, if◌then◌else◌,
}
use buffered_llm_proxy.Sse.Lines.{Line, line, broken}

-- `Raw` is never set.
pub record Event : Type 0 where
  pub type : Bytes
  pub payload : Bytes
  pub id : Bytes

-- The local variables of `ReadEvent`.
pub record Fields : Type 0 where
  pub event_type : Bytes
  pub id : Bytes
  pub buffer : Bytes
  pub has_data : Bool

abbrev pub no_fields : Fields
no_fields = record { event_type = []; id = []; buffer = []; has_data = false }

abbrev pub has_fields : Fields → Bool
has_fields f = f.has_data || (not (is_empty f.event_type) || not (is_empty f.id))

abbrev pub event_of : Fields → Event
event_of f = record { type = f.event_type; payload = f.buffer; id = f.id }

-- The bytes before the first colon and those behind it.
unfoldable pub cut_colon : Bytes → Bytes × Option Bytes
cut_colon [] = ([], none)
cut_colon (c ∷ cs) = let (l, r) = cut_colon cs in if c == b':' then ([], some cs) else (c ∷ l, r)

abbrev skip_space : Bytes → Bytes
skip_space [] = []
skip_space (c ∷ cs) = if c == b' ' then cs else c ∷ cs

-- Field name and value; one space behind the colon is skipped.
unfoldable pub field_and_value : Bytes × Option Bytes → Bytes × Bytes
field_and_value (l, none) = (l, [])
field_and_value (l, some v) = (l, skip_space v)

unfoldable pub set_field : Fields → Bytes → Bytes → Fields
set_field f name value =
    if equal name (codes "event")
    then record f { event_type = value }
    else if equal name (codes "data")
    then record f {
      buffer = (if f.has_data then f.buffer ++ (b'\n' ∷ []) else f.buffer) ++ value;
      has_data = true;
    }
    else if equal name (codes "id")
    then record f { id = value }
    else f

-- One line that is not empty; a comment changes nothing.
unfoldable pub read_field : Fields → Bytes → Fields
unfolding set_field cut_colon field_and_value
read_field f [] = f
read_field f (c ∷ cs) =
    let (name, value) = field_and_value (cut_colon (c ∷ cs)) in
    if c == b':' then f else set_field f name value

-- What `ReadEvent` returns: an event with the lines left, or the error at which the stream ended.
pub data Read : Type 0 where
  event : Event → List Line → Read
  eof : Read
  failure : Read

-- `at_eof`: the stream ends in io.EOF, not in another error.
unfoldable pub read_event_from : Bool → Fields → List Line → Read
unfolding read_field
read_event_from at_eof f [] =
    if at_eof then (if has_fields f then event (event_of f) [] else eof) else failure
read_event_from at_eof f (broken ∷ ls) = if at_eof then eof else failure
read_event_from at_eof f (line [] ∷ ls) =
    let next = read_event_from at_eof f ls in if has_fields f then event (event_of f) ls else next
read_event_from at_eof f (line (c ∷ cs) ∷ ls) = read_event_from at_eof (read_field f (c ∷ cs)) ls

unfoldable pub read_event : Bool → List Line → Read
read_event at_eof ls = read_event_from at_eof no_fields ls
