-- ===== src/Http/Header.antt =====
-- `http.Header`: lists of values by canonical key. A literal key of the sources is canonical.
use Prim.Native.Nat.{ℕ, ◌-◌}
use buffered_llm_proxy.Base.{
  Bool, true, ◌&&◌, ◌||◌, List, [], ◌∷◌, ◌++◌, Option, none, some, Bytes, leb, ◌==◌, if◌then◌else◌,
  bytes_eq,
}
use buffered_llm_proxy.Base.Lower.{lower}
use buffered_llm_proxy.Base.Map.{lookup, insert, remove}

abbrev pub Header : Type 0
Header = List (Bytes × List Bytes)

abbrev or_nil : Option (List Bytes) → List Bytes
or_nil none = []
or_nil (some vs) = vs

abbrev first_or_empty : List Bytes → Bytes
first_or_empty [] = []
first_or_empty (v ∷ _) = v

-- `h[key]`
abbrev pub values : Bytes → Header → List Bytes
values key h = or_nil (lookup key h)

unfoldable pub get : Bytes → Header → Bytes
get key h = first_or_empty (values key h)

unfoldable pub set : Bytes → Bytes → Header → Header
set key v h = insert key (v ∷ []) h

unfoldable pub add : Bytes → Bytes → Header → Header
add key v h = insert key (values key h ++ (v ∷ [])) h

unfoldable pub del : Bytes → Header → Header
del key h = remove key h

-- The letters, the digits and !#$%&'*+-.^_`|~.
unfoldable pub is_token_byte : ℕ → Bool
is_token_byte c =
    leb b'0' c && leb c b'9'
    || leb b'A' c && leb c b'Z'
    || leb b'^' c && leb c b'z'
    || c == b'!'
    || leb b'#' c && leb c b'\''
    || c == b'*'
    || c == b'+'
    || c == b'-'
    || c == b'.'
    || c == b'|'
    || c == b'~'

unfoldable pub is_token : Bytes → Bool
unfolding is_token_byte
is_token [] = true
is_token (c ∷ s) = is_token_byte c && is_token s

abbrev pub upper : ℕ → ℕ
upper c = if leb b'a' c && leb c b'z' then c - 32 else c

-- Each word between dashes is written with a capital.
unfoldable pub capitals : Bool → Bytes → Bytes
capitals first [] = []
capitals first (c ∷ s) = (if first then upper c else lower c) ∷ capitals (c == b'-') s

-- `http.CanonicalHeaderKey`
unfoldable pub canonical_key : Bytes → Bytes
unfolding is_token capitals
canonical_key key = if is_token key then capitals true key else key
