-- ===== src/Sse/Lines/Overlong.antt =====
-- Lines longer than the reader's buffer are damaged: `ReadEvent` keeps the first chunk as a slice
-- of the buffer and calls ReadLine again before it copies the slice.
use Prim.Native.Nat.{min}
use buffered_llm_proxy.Base.{
  ℕ, zero, suc, ◌+◌, ◌-◌, ◌<◌, ◌≡◌, ◌≢◌, refl, sym, ap, ◌∙◌, true, false, [], ◌∷◌, ◌++◌,
  append_assoc, some, arith, Option, Bytes, length, length-append,
}
use buffered_llm_proxy.Sse.Lines.{
  take, drop, cut, drop_cr, ends_in_cr, at_newline, full_buffer, read_line, overwrite, full_line,
  line,
}
use buffered_llm_proxy.Sse.Lines.Whole.{HasNoNewline, cut-HasNoNewline, read_line-Fits}

take-length-append : (p s : Bytes) → take (length p) (p ++ s) ≡ p
take-length-append [] s = refl
take-length-append (c ∷ p) s = ap (λ t. c ∷ t) (take-length-append p s)

drop-length-append : (p s : Bytes) → drop (length p) (p ++ s) ≡ s
drop-length-append [] s = refl
drop-length-append (c ∷ p) s = drop-length-append p s

full_buffer-length :
    (p s : Bytes) → ends_in_cr p ≡ false → full_buffer (length p) (p ++ s) ≡ (p, true, s)
unfolding full_buffer
full_buffer-length p s e =
    rw (take-length-append p s, e, full_buffer) (rw (drop-length-append p s) refl)

at_newline-full :
    (s p t : Bytes) (r : Option Bytes)
    → at_newline (length p) s (p ++ t, r) ≡ full_buffer (length p) s
at_newline-full s p t r = ground (arith, length-append p t)

-- The first chunk of a line that begins with a full buffer `p`.
read_line-full :
    (p t rest : Bytes)
    → HasNoNewline (p ++ t)
    → ends_in_cr p ≡ false
    → p ≢ []
    → read_line (length p) (p ++ (t ++ (b'\n' ∷ rest))) ≡ some (p, true, t ++ (b'\n' ∷ rest))
unfolding read_line
read_line-full [] t rest h e n = absurd (n refl)
read_line-full (c ∷ p) t rest h e n =
    let s = (c ∷ p) ++ (t ++ (b'\n' ∷ rest)) in
    ap (λ q. some (at_newline (length (c ∷ p)) s q))
      (ap cut (sym (append_assoc (c ∷ p) t (b'\n' ∷ rest)))
        ∙ cut-HasNoNewline ((c ∷ p) ++ t) rest h)
    ∙ ap some (
        at_newline-full s (c ∷ p) t (some rest)
        ∙ full_buffer-length (c ∷ p) (t ++ (b'\n' ∷ rest)) e)

overwrite-head :
    (n c d : ℕ) (p s : Bytes) → 0 < n → (l : Bytes) × (overwrite n (d ∷ s) (c ∷ p) ≡ d ∷ l)
unfolding overwrite
overwrite-head zero c d p s h = absurd (omega arith)
overwrite-head (suc n) c d p s h = (_, refl)

-- The bug: a line of one full buffer `c ∷ p` and a tail `d ∷ t` that fits is not read as it is:
-- whatever the network does, the line that `ReadEvent` goes on with begins with the first byte of
-- the tail in place of its own first byte.
pub full_line_overlong :
    (c d ahead : ℕ) (p t rest : Bytes)
    → HasNoNewline ((c ∷ p) ++ (d ∷ t))
    → HasNoNewline (d ∷ t)
    → ends_in_cr (c ∷ p) ≡ false
    → length t < length p
    → (l : Bytes) × (full_line (length (c ∷ p)) ahead ((c ∷ p) ++ ((d ∷ t) ++ (b'\n' ∷ rest)))
        ≡ some (line (d ∷ l), rest))
unfolding full_line
full_line_overlong c d ahead p t rest h k e f =
    let size = length (c ∷ p) in
    let tail = (d ∷ t) ++ (b'\n' ∷ rest) in
    let filled = min size (length tail - length rest + ahead) in
    let (l, o) =
      overwrite-head filled c d p (t ++ (b'\n' ∷ rest))
        (omega (arith, length-append t (b'\n' ∷ rest))) in
    (
      l ++ drop_cr (d ∷ t),
      rw (read_line-full (c ∷ p) (d ∷ t) rest h e (λ q. cc), full_line)
          (rw (read_line-Fits size (d ∷ t) rest (k, omega arith), full_line) (rw o refl)),
    )
