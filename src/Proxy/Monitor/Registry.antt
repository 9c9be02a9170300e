-- ===== src/Proxy/Monitor/Registry.antt =====
-- The sets of a hub: which channels they hold.
use buffered_llm_proxy.Base.{
  ℕ, ◌≡◌, refl, ◌∙◌, Bool, true, false, ◌&&◌, List, [], ◌∷◌, Option, none, some, Bytes, is_empty,
  equal, equal_iff, ◌==◌, ==_iff, if◌then◌else◌, if_either, Bool-cases, Option-cases, inl, inr,
  bytes_eq, nat_eq, arith,
}
use buffered_llm_proxy.Base.Map.{lookup, insert, remove, lookup-insert, lookup-remove}
use buffered_llm_proxy.Proxy.Monitor.{
  subscribe, ChannelSet, ChannelSet, MonitorHub, or_empty, is_nil, drop_from, unregister,
}

abbrev pub is_some : Option (Unit {0}) → Bool
is_some none = false
is_some (some _) = true

-- The channel is in the set.
abbrev pub has : ℕ → ChannelSet → Bool
has ch s = is_some (lookup ch s)

-- No channel is in the set twice.
abbrev pub IsDistinct : ChannelSet → Type 0
IsDistinct [] = Unit {0}
IsDistinct ((ch, _) ∷ s) = (has ch s ≡ false) × IsDistinct s

pub has-insert :
    (ch k : ℕ) (s : ChannelSet) → has k (insert ch tt s) ≡ (if ch == k then true else has k s)
has-insert ch k s = rw (lookup-insert ch k tt s) (ground arith)

pub has-remove :
    (ch k : ℕ) (s : ChannelSet) → has k (remove ch s) ≡ (if ch == k then false else has k s)
has-remove ch k s = rw (lookup-remove ch k s) (ground arith)

pub insert-IsDistinct : (ch : ℕ) (s : ChannelSet) → IsDistinct s → IsDistinct (insert ch tt s)
unfolding insert lookup
insert-IsDistinct ch [] d = (refl, tt)
insert-IsDistinct ch ((k, u) ∷ s) (n, d) = elim (Bool-cases (k == ch)) [
  | inl t ↦ rw (t, insert) (rw (← (==_iff k ch).0 t) n, d)
  | inr f ↦ rw (f, insert) (has-insert ch k s ∙ ground (arith, f, n), insert-IsDistinct ch s d)
]

pub remove-IsDistinct : (ch : ℕ) (s : ChannelSet) → IsDistinct s → IsDistinct (remove ch s)
unfolding remove
remove-IsDistinct ch [] d = d
remove-IsDistinct ch ((k, u) ∷ s) (n, d) = elim (Bool-cases (k == ch)) [
  | inl t ↦ rw (t, remove) (remove-IsDistinct ch s d)
  | inr f ↦ rw (f, remove) (has-remove ch k s ∙ ground (arith, f, n), remove-IsDistinct ch s d)
]

-- The channel is registered under the model, where the empty model stands for all.
unfoldable pub listed : Bytes → ℕ → MonitorHub → Bool
listed model ch h =
    if is_empty model then has ch h.all_subs else has ch (or_empty (lookup model h.subscribers))

equal_refl : (s : Bytes) → equal s s ≡ true
equal_refl s = (equal_iff s s).1 refl

registered-insert :
    (model m : Bytes) (s : ChannelSet) (subscribers : List (Bytes × ChannelSet))
    → or_empty (lookup m (insert model s subscribers))
      ≡ (if equal model m then s else or_empty (lookup m subscribers))
registered-insert model m s subscribers = rw (lookup-insert model m s subscribers) (ground arith)

is_nil_lem : (s : ChannelSet) → is_nil s ≡ true → s ≡ []
is_nil_lem s h = ground arith

remove-nil : (ch : ℕ) → remove {V = Unit {0}} ch [] ≡ []
unfolding remove
remove-nil ch = refl

registered-drop_from :
    (model m : Bytes) (ch : ℕ) (subscribers : List (Bytes × ChannelSet))
    → or_empty (lookup m (drop_from model ch subscribers)) ≡ (
        if equal model m
        then remove ch (or_empty (lookup m subscribers))
        else or_empty (lookup m subscribers))
unfolding drop_from
registered-drop_from model m ch subscribers = elim (Option-cases (lookup model subscribers)) [
  | inl n ↦ rw (n, drop_from) (ground (arith, equal_iff model m, n, remove-nil ch))
  | inr (s, e) ↦ elim (Bool-cases (is_nil (remove ch s))) [
    | inl t ↦
        rw (e, t, drop_from)
          (rw (lookup-remove model m subscribers)
            (ground (arith, equal_iff model m, e, is_nil_lem (remove ch s) t)))
    | inr f ↦
        rw (e, f, drop_from)
          (rw (lookup-insert model m (remove ch s) subscribers)
            (ground (arith, equal_iff model m, e)))
  ]
]

pub listed-subscribe :
    (model m : Bytes) (k : ℕ) (h : MonitorHub)
    → listed m k (subscribe model h).0
      ≡ (if equal model m && h.next == k then true else listed m k h)
unfolding listed subscribe
listed-subscribe model m k h = ground (
  arith,
  equal_iff model m,
  has-insert h.next k h.all_subs,
  has-insert h.next k (or_empty (lookup model h.subscribers)),
  registered-insert model m (insert h.next tt (or_empty (lookup model h.subscribers)))
      h.subscribers,
)

pub listed-unregister :
    (model m : Bytes) (ch k : ℕ) (h : MonitorHub)
    → listed m k (unregister model ch h)
      ≡ (if equal model m && ch == k then false else listed m k h)
unfolding listed unregister
listed-unregister model m ch k h = ground (
  arith,
  equal_iff model m,
  has-remove ch k h.all_subs,
  has-remove ch k (or_empty (lookup m h.subscribers)),
  registered-drop_from model m ch h.subscribers,
)

-- No set of the hub has a channel twice.
pub record HasDistinct (h : MonitorHub) : Type 0 where
  pub in_all : IsDistinct h.all_subs
  pub in_model : (model : Bytes) → IsDistinct (or_empty (lookup model h.subscribers))

pub subscribe-HasDistinct :
    (model : Bytes) (h : MonitorHub) → HasDistinct h → HasDistinct (subscribe model h).0
unfolding subscribe
subscribe-HasDistinct model h d = elim (Bool-cases (is_empty model)) [
  | inl t ↦
      rw t (record { in_all = insert-IsDistinct h.next h.all_subs d.in_all; in_model = d.in_model })
  | inr f ↦ rw f (record {
    in_all = d.in_all;
    in_model = λ m.
        let s = insert h.next tt (or_empty (lookup model h.subscribers)) in
        rw (registered-insert model m s h.subscribers) (
          if_either IsDistinct (equal model m) (insert-IsDistinct h.next _ (d.in_model model))
            (d.in_model m));
  })
]

pub unregister-HasDistinct :
    (model : Bytes) (ch : ℕ) (h : MonitorHub) → HasDistinct h → HasDistinct (unregister model ch h)
unfolding unregister
unregister-HasDistinct model ch h d = elim (Bool-cases (is_empty model)) [
  | inl t ↦
      rw t (record { in_all = remove-IsDistinct ch h.all_subs d.in_all; in_model = d.in_model })
  | inr f ↦ rw f (record {
    in_all = d.in_all;
    in_model = λ m. rw (registered-drop_from model m ch h.subscribers) (
        if_either IsDistinct (equal model m) (remove-IsDistinct ch _ (d.in_model m))
          (d.in_model m));
  })
]
