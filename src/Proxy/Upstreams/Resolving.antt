-- ===== src/Proxy/Upstreams/Resolving.antt =====
-- A model with a prefix goes to the target of that name.
use buffered_llm_proxy.Base.{
  ◌≡◌, refl, ◌∙◌, false, List, [], ◌∷◌, ◌++◌, Option, some, Bytes, is_empty, equal, equal_iff, ◌==◌,
  arith, bytes_eq, if◌then◌else◌,
}
use buffered_llm_proxy.Base.Map.{lookup, insert, lookup-insert}
use buffered_llm_proxy.Proxy.Upstreams.{
  UpstreamTarget, target, cut_slash, add_targets, new_proxy_server, resolve_upstream,
}

-- The name holds no slash.
abbrev pub HasNoSlash : Bytes → Type 0
HasNoSlash [] = Unit {0}
HasNoSlash (c ∷ s) = ((c == b'/') ≡ false) × HasNoSlash s

-- None of the targets has the name.
abbrev pub AreOther {ℓ} : {Url : Type ℓ} → Bytes → List (UpstreamTarget Url) → Type 0
AreOther n [] = Unit {0}
AreOther n (t ∷ ts) = (equal t.name n ≡ false) × AreOther n ts

cut_slash-prefix : (n m : Bytes) → HasNoSlash n → cut_slash (n ++ (b'/' ∷ m)) ≡ some (n, m)
unfolding cut_slash
cut_slash-prefix [] m h = refl
cut_slash-prefix (c ∷ n) m h = rw (h.0, cut_slash-prefix n m h.1) refl

add_targets-other {ℓ} :
    {Url : Type ℓ} (n : Bytes) (ts : List (UpstreamTarget Url))
    (m : List (Bytes × UpstreamTarget Url))
    → AreOther n ts
    → lookup n (add_targets ts m) ≡ lookup n m
unfolding add_targets
add_targets-other n [] m o = refl
add_targets-other n (t ∷ ts) m o =
    add_targets-other n ts (if is_empty t.name then m else insert t.name t m) o.1
    ∙ ground (arith, lookup-insert t.name n t m, o.0)

add_targets-last {ℓ} :
    {Url : Type ℓ} (before after : List (UpstreamTarget Url)) (t : UpstreamTarget Url)
    (m : List (Bytes × UpstreamTarget Url))
    → is_empty t.name ≡ false
    → AreOther t.name after
    → lookup t.name (add_targets (before ++ (t ∷ after)) m) ≡ some t
unfolding add_targets
add_targets-last [] after t m e o =
    add_targets-other t.name after (if is_empty t.name then m else insert t.name t m) o
    ∙ ground (arith, lookup-insert t.name t.name t m, equal_iff t.name t.name)
add_targets-last (b ∷ before) after t m e o =
    add_targets-last before after t (if is_empty b.name then m else insert b.name b m) e o

-- A request for `name/model` goes to the target of that name with the model `model`, if the name is
-- not empty, holds no slash, and no later target has the same name.
pub resolve_upstream-new_proxy_server {ℓ} :
    {Url : Type ℓ} (before after : List (UpstreamTarget Url)) (t : UpstreamTarget Url)
    (url : Option Url) (model : Bytes)
    → is_empty t.name ≡ false
    → HasNoSlash t.name
    → AreOther t.name after
    → resolve_upstream (new_proxy_server (before ++ (t ∷ after)) url) (t.name ++ (b'/' ∷ model))
      ≡ target t model
unfolding resolve_upstream new_proxy_server
resolve_upstream-new_proxy_server [] after t url model e h o =
    rw (cut_slash-prefix t.name model h, add_targets-last [] after t [] e o, resolve_upstream) refl
resolve_upstream-new_proxy_server (b ∷ before) after t url model e h o =
    rw
      (
        cut_slash-prefix t.name model h,
        add_targets-last (b ∷ before) after t [] e o,
        resolve_upstream,
      )
      refl
