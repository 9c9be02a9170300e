-- ===== src/Proxy/Paths.antt =====
-- pkg/proxy/server.go: `singleJoiningSlash`.
use buffered_llm_proxy.Base.{
  ◌≡◌, refl, Bool, true, false, not, ◌&&◌, [], ◌∷◌, ◌++◌, Bytes, ◌==◌, if◌then◌else◌, append_assoc,
}

-- `strings.HasSuffix(s, "/")`
unfoldable pub ends_in_slash : Bytes → Bool
ends_in_slash [] = false
ends_in_slash (c ∷ []) = c == b'/'
ends_in_slash (_ ∷ d ∷ s) = ends_in_slash (d ∷ s)

abbrev pub starts_with_slash : Bytes → Bool
starts_with_slash [] = false
starts_with_slash (c ∷ _) = c == b'/'

abbrev tail : Bytes → Bytes
tail [] = []
tail (_ ∷ s) = s

unfoldable pub single_joining_slash : Bytes → Bytes → Bytes
unfolding ends_in_slash
single_joining_slash a b =
    if ends_in_slash a && starts_with_slash b
    then a ++ tail b
    else if not (ends_in_slash a) && not (starts_with_slash b)
    then a ++ (b'/' ∷ b)
    else a ++ b

ends_in_slash-snoc : (a : Bytes) → ends_in_slash (a ++ (b'/' ∷ [])) ≡ true
unfolding ends_in_slash
ends_in_slash-snoc [] = refl
ends_in_slash-snoc (c ∷ []) = refl
ends_in_slash-snoc (c ∷ d ∷ a) = ends_in_slash-snoc (d ∷ a)

-- Whether or not the base ends in a slash and the path begins with one, there is one slash between
-- them: all four ways to write the two give the same path.
pub single_joining_slash-four :
    (a b : Bytes)
    → ends_in_slash a ≡ false
    → starts_with_slash b ≡ false
    → (single_joining_slash a b ≡ a ++ (b'/' ∷ b))
      × (single_joining_slash a (b'/' ∷ b) ≡ a ++ (b'/' ∷ b))
      × (single_joining_slash (a ++ (b'/' ∷ [])) b ≡ a ++ (b'/' ∷ b))
      × (single_joining_slash (a ++ (b'/' ∷ [])) (b'/' ∷ b) ≡ a ++ (b'/' ∷ b))
unfolding single_joining_slash
single_joining_slash-four a b h k = (
  rw (h, k) refl,
  rw (h) refl,
  rw (ends_in_slash-snoc a, k) (append_assoc a (b'/' ∷ []) b),
  rw (ends_in_slash-snoc a) (append_assoc a (b'/' ∷ []) b),
)
