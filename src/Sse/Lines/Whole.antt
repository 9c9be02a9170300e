-- ===== src/Sse/Lines/Whole.antt =====
-- Lines that fit into the reader's buffer, and the first bytes of one that does not.
use buffered_llm_proxy.Base.{
  ℕ, zero, suc, ◌≤◌, ◌<◌, ◌≡◌, refl, ap, ◌∙◌, false, List, [], ◌∷◌, ◌++◌, none, some, arith, Bytes,
  length, length-append, ◌==◌, map,
}
use buffered_llm_proxy.Sse.Lines.{
  cut, at_newline, drop_cr, read_line, full_line, lines_within, lines, Line, line,
}

abbrev pub HasNoNewline : Bytes → Type 0
HasNoNewline [] = Unit {0}
HasNoNewline (c ∷ cs) = ((c == b'\n') ≡ false) × HasNoNewline cs

-- The lines, each with its newline.
unfoldable pub stream_of : List Bytes → Bytes
stream_of [] = []
stream_of (l ∷ ls) = l ++ (b'\n' ∷ stream_of ls)

abbrev pub Fits : ℕ → Bytes → Type 0
Fits size l = HasNoNewline l × (length l < size)

abbrev pub AllFit : ℕ → List Bytes → Type 0
AllFit size [] = Unit {0}
AllFit size (l ∷ ls) = Fits size l × AllFit size ls

abbrev pub as_line : Bytes → Line
as_line l = line (drop_cr l)

pub cut-HasNoNewline :
    (l rest : Bytes) → HasNoNewline l → cut (l ++ (b'\n' ∷ rest)) ≡ (l, some rest)
unfolding cut
cut-HasNoNewline [] rest h = refl
cut-HasNoNewline (c ∷ l) rest h = rw (h.0, cut-HasNoNewline l rest h.1)

pub read_line-Fits :
    (size : ℕ) (l rest : Bytes)
    → Fits size l
    → read_line size (l ++ (b'\n' ∷ rest)) ≡ some (drop_cr l, false, rest)
unfolding read_line
read_line-Fits size [] rest f = ground arith
read_line-Fits size (c ∷ l) rest f =
    ap (λ p. some (at_newline size (c ∷ (l ++ (b'\n' ∷ rest))) p))
      (cut-HasNoNewline (c ∷ l) rest f.0)
    ∙ ground arith

-- A line that fits is read as it is, whatever the network does.
pub full_line-Fits :
    (size ahead : ℕ) (l rest : Bytes)
    → Fits size l
    → full_line size ahead (l ++ (b'\n' ∷ rest)) ≡ some (as_line l, rest)
unfolding full_line
full_line-Fits size ahead l rest f = rw (read_line-Fits size l rest f, full_line)

full_line-nil : (size ahead : ℕ) → full_line size ahead [] ≡ none
unfolding full_line read_line
full_line-nil size ahead = refl

lines_within-stream_of :
    (ls : List Bytes) (fuel size ahead : ℕ)
    → AllFit size ls
    → length ls ≤ fuel
    → lines_within fuel size ahead (stream_of ls) ≡ map as_line ls
unfolding lines_within stream_of
lines_within-stream_of [] zero size ahead f h = refl
lines_within-stream_of [] (suc fuel) size ahead f h = rw (full_line-nil size ahead, lines_within)
lines_within-stream_of (l ∷ ls) (suc fuel) size ahead f h =
    rw (full_line-Fits size ahead l (stream_of ls) f.0, lines_within)
      (ap (λ t. as_line l ∷ t) (lines_within-stream_of ls fuel size ahead f.1 (omega arith)))
lines_within-stream_of (l ∷ ls) zero size ahead f h = absurd (omega arith)

length-stream_of : (ls : List Bytes) → length ls ≤ length (stream_of ls)
unfolding stream_of
length-stream_of [] = omega arith
length-stream_of (l ∷ ls) =
    omega (arith, length-append l (b'\n' ∷ stream_of ls), length-stream_of ls)

-- A stream of lines that all fit into the buffer is read back line by line, whatever the network
-- does; a carriage return at the end of a line is dropped.
pub lines-stream_of :
    (ls : List Bytes) (size ahead : ℕ)
    → AllFit size ls
    → lines size ahead (stream_of ls) ≡ map as_line ls
unfolding lines
lines-stream_of ls size ahead f =
    lines_within-stream_of ls (suc (length (stream_of ls))) size ahead f
      (omega (arith, length-stream_of ls))
