-- ===== src/Compress/Codec.antt =====
-- The encoders of compress/gzip and klauspost/compress/zstd as parameters. An encoder is reset onto a
-- writer, takes bytes, is flushed and closed; each call passes some bytes on to the writer.
use buffered_llm_proxy.Base.{◌≡◌, List, [], ◌∷◌, ◌++◌, Bytes}

pub data Action : Type 0 where
  writes : Bytes → Action
  flushes : Action

-- `reset` is the state of an encoder from a pool after `Reset`.
pub record Codec : Type 1 where
  pub State : Type 0
  pub reset : State
  pub write : Bytes → State → State × Bytes
  pub flush : State → State × Bytes
  pub close : State → State × Bytes

abbrev pub act : (c : Codec) → Action → c.State → c.State × Bytes
act c (writes p) s = c.write p s
act c flushes s = c.flush s

-- An encoder that acts one after the other, with all that it passes on.
unfoldable pub acts : (c : Codec) → List Action → c.State × Bytes → c.State × Bytes
acts c [] s = s
acts c (a ∷ rest) (s, out) = let (s', more) = act c a s in acts c rest (s', out ++ more)

-- The bytes of one session, from `Reset` to `Close`.
unfoldable pub session : (c : Codec) → List Action → Bytes
unfolding acts
session c actions =
    let (s, out) = acts c actions (c.reset, []) in let (_, rest) = c.close s in out ++ rest

unfoldable pub written : List Action → Bytes
written [] = []
written (writes p ∷ rest) = p ++ written rest
written (flushes ∷ rest) = written rest

-- What such packages promise: whatever is written and flushed, the bytes of a session decode to what
-- was written.
abbrev pub Decodes : Codec → (Bytes → Bytes) → Type 0
Decodes c decode = (actions : List Action) → decode (session c actions) ≡ written actions
