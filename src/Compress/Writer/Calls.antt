-- ===== src/Compress/Writer/Calls.antt =====
-- A handler's calls on a response writer.
use buffered_llm_proxy.Base.{
  ℕ, ◌+◌, ◌≡◌, refl, ap, List, [], ◌∷◌, ◌++◌, Option, none, some, Bytes, length, length-append,
  arith,
}
use buffered_llm_proxy.Compress.Codec.{Codec, Action, writes, flushes, written}
use buffered_llm_proxy.Compress.Writer.{Writer, write_header, write, flush}

-- What a handler does with its response.
pub data Call : Type 0 where
  heads : ℕ → Call
  sends : Bytes → Call
  pushes : Call

abbrev pub actions_of : List Call → List Action
actions_of [] = []
actions_of (heads _ ∷ calls) = actions_of calls
actions_of (sends p ∷ calls) = writes p ∷ actions_of calls
actions_of (pushes ∷ calls) = flushes ∷ actions_of calls

-- All that the handler writes.
abbrev pub payload : List Call → Bytes
payload [] = []
payload (heads _ ∷ calls) = payload calls
payload (sends p ∷ calls) = p ++ payload calls
payload (pushes ∷ calls) = payload calls

-- The count of bytes that are written, from `n` on.
abbrev pub total : ℕ → List Call → ℕ
total n [] = n
total n (heads _ ∷ calls) = total n calls
total n (sends p ∷ calls) = total (n + length p) calls
total n (pushes ∷ calls) = total n calls

pub total-payload : (n : ℕ) (calls : List Call) → total n calls ≡ n + length (payload calls)
total-payload n [] = omega arith
total-payload n (heads _ ∷ calls) = total-payload n calls
total-payload n (sends p ∷ calls) =
    omega (arith, total-payload (n + length p) calls, length-append p (payload calls))
total-payload n (pushes ∷ calls) = total-payload n calls

pub written-actions_of : (calls : List Call) → written (actions_of calls) ≡ payload calls
unfolding written
written-actions_of [] = refl
written-actions_of (heads _ ∷ calls) = written-actions_of calls
written-actions_of (sends p ∷ calls) = ap (λ t. p ++ t) (written-actions_of calls)
written-actions_of (pushes ∷ calls) = written-actions_of calls

module _ {z g : Codec} where
  unfoldable pub apply : Call → Writer z g → Option (Writer z g)
  unfolding write_header write flush
  apply (heads status) w = write_header status w
  apply (sends p) w = write p w
  apply pushes w = some (flush w)

  unfoldable pub run : List Call → Writer z g → Option (Writer z g)
  unfolding apply
  run [] w = some w
  run (c ∷ calls) w = elim (apply c w) [ none ↦ none | some w' ↦ run calls w' ]
