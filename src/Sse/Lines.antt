-- ===== src/Sse/Lines.antt =====
-- The lines that `ReadEvent` gets from bufio.Reader.ReadLine. `stream` is what the upstream has yet
-- to deliver, `size` the size of the buffer (64 * 1024 in `NewReader`).
--
-- The first chunk of a line that does not fit is a slice of the buffer itself, and the next ReadLine
-- writes over the buffer before `append` copies that slice. How far the buffer is then filled
-- depends on the network: up to the end of the line that is read, and `ahead` bytes more, but no
-- further than the buffer reaches.
pub mod Whole
pub mod Overlong
use buffered_llm_proxy.Base.{
  ℕ, zero, suc, ◌+◌, ◌-◌, Bool, true, false, List, [], ◌∷◌, ◌++◌, Option, none, some, Bytes, length,
  ltb, ◌==◌, if◌then◌else◌,
}
use Prim.Native.Nat.{min}

abbrev pub take {ℓ} : {A : Type ℓ} → ℕ → List A → List A
take zero xs = []
take (suc n) [] = []
take (suc n) (x ∷ xs) = x ∷ take n xs

abbrev pub drop {ℓ} : {A : Type ℓ} → ℕ → List A → List A
drop zero xs = xs
drop (suc n) [] = []
drop (suc n) (x ∷ xs) = drop n xs

-- The bytes before the first newline, and those behind it; `none` if there is no newline.
unfoldable pub cut : Bytes → Bytes × Option Bytes
cut [] = ([], none)
cut (c ∷ cs) = let (l, r) = cut cs in if c == b'\n' then ([], some cs) else (c ∷ l, r)

-- Without a carriage return at the end.
unfoldable pub drop_cr : Bytes → Bytes
drop_cr [] = []
drop_cr (c ∷ []) = if c == b'\r' then [] else c ∷ []
drop_cr (c ∷ d ∷ cs) = c ∷ drop_cr (d ∷ cs)

unfoldable pub ends_in_cr : Bytes → Bool
ends_in_cr [] = false
ends_in_cr (c ∷ []) = c == b'\r'
ends_in_cr (c ∷ d ∷ cs) = ends_in_cr (d ∷ cs)

-- A full buffer; a carriage return at its end is left for the next call.
unfoldable pub full_buffer : ℕ → Bytes → Bytes × Bool × Bytes
full_buffer size stream =
    if ends_in_cr (take size stream)
    then (take (size - 1) stream, true, drop (size - 1) stream)
    else (take size stream, true, drop size stream)

abbrev pub at_newline : ℕ → Bytes → Bytes × Option Bytes → Bytes × Bool × Bytes
at_newline size stream (l, r) =
    if ltb (length l) size
    then elim r [ none ↦ (l, false, []) | some rest ↦ (drop_cr l, false, rest) ]
    else full_buffer size stream

-- `ReadLine`: a line or a chunk of one, whether more of the line follows, and the rest. `none` is
-- the end of the stream.
unfoldable pub read_line : ℕ → Bytes → Option (Bytes × Bool × Bytes)
unfolding cut
read_line size [] = none
read_line size (c ∷ cs) = some (at_newline size (c ∷ cs) (cut (c ∷ cs)))

-- The old content of a buffer whose first `n` places were filled anew.
unfoldable pub overwrite : ℕ → Bytes → Bytes → Bytes
overwrite n fresh old = take (length old) (take n fresh ++ drop (length (take n fresh)) old)

-- A line, or an error in the middle of it.
pub data Line : Type 0 where
  line : Bytes → Line
  broken : Line

-- The loop `for isPrefix`, from its second round on.
unfoldable pub continue_line : ℕ → ℕ → Bytes → Bytes → Line × Bytes
continue_line zero size acc stream = (broken, stream)
continue_line (suc fuel) size acc stream = elim (read_line size stream) [
  | none ↦ (broken, [])
  | some (cont, true, rest) ↦ continue_line fuel size (acc ++ cont) rest
  | some (cont, false, rest) ↦ (line (acc ++ cont), rest)
]

-- A whole line as `ReadEvent` puts it together.
unfoldable pub full_line : ℕ → ℕ → Bytes → Option (Line × Bytes)
full_line size ahead stream = elim (read_line size stream) [
  | none ↦ none
  | some (chunk, false, rest) ↦ some (line chunk, rest)
  | some (chunk, true, rest) ↦ elim (read_line size rest) [
    | none ↦ some (broken, [])
    | some (cont, more, rest') ↦
        let filled = min size (length rest - length rest' + ahead) in
        let joined = overwrite filled rest chunk ++ cont in
        elim more [
          | false ↦ some (line joined, rest')
          | true ↦ some (continue_line (suc (length rest')) size joined rest')
        ]
  ]
]

-- All lines of a stream; each takes at least one byte of it.
unfoldable pub lines_within : ℕ → ℕ → ℕ → Bytes → List Line
lines_within zero size ahead stream = []
lines_within (suc fuel) size ahead stream = elim (full_line size ahead stream) [
  | none ↦ []
  | some (l, rest) ↦ l ∷ lines_within fuel size ahead rest
]

unfoldable pub lines : ℕ → ℕ → Bytes → List Line
lines size ahead stream = lines_within (suc (length stream)) size ahead stream
