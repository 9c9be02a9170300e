-- ===== src/Proxy/Monitor/Broadcasts.antt =====
-- Which channels get an event that is broadcast.
use mathlib.Core.Bool.{true≢false}
use buffered_llm_proxy.Base.{
  ◌↔◌, ℕ, ◌≡◌, refl, sym, ◌∙◌, Bool, true, false, not, ◌&&◌, ◌||◌, [], ◌∷◌, Option, none, some,
  Bytes, length-append, is_empty, equal, equal_iff, if_either, if◌then◌else◌, Bool-cases, inl, inr,
  bytes_eq, nat_eq, arith,
}
use buffered_llm_proxy.Base.Map.{lookup}
use buffered_llm_proxy.Proxy.Monitor.{
  ChannelSet, Channels, Subscription, MonitorHub, MonitorPacketEvent, offer, of_model, send_all,
  broadcast,
}
use buffered_llm_proxy.Proxy.Monitor.Registry.{has, IsDistinct, listed}
use buffered_llm_proxy.Proxy.Monitor.Sending.{still_open, offered, send_all-open}
use buffered_llm_proxy.Proxy.Monitor.{is_nil, has_subscribers}
use buffered_llm_proxy.Proxy.Monitor.Wellformed.{IsHub, IsLike, IsChannel, open_for, channels-IsHub}

-- The channel is open, and its subscription is for all models or for the one of the event.
abbrev pub wants : Bytes → Subscription → Bool
wants model c = not c.closed && (is_empty c.model || equal c.model model)

abbrev pub received : MonitorPacketEvent → Option Subscription → Option Subscription
received ev none = none
received ev (some c) = some (if wants ev.model c then offer ev c else c)

is_empty_iff : (s : Bytes) → (is_empty s ≡ true) ↔ (s ≡ [])
is_empty_iff s = ground arith

offered-received :
    (ev : MonitorPacketEvent) (c : Option Subscription)
    → (let first = if open_for [] c then offered ev c else c in
        if not (is_empty ev.model) && open_for ev.model c then offered ev first else first)
      ≡ received ev c
offered-received ev none = ground arith
offered-received ev (some c) = ground (
  arith,
  is_empty_iff c.model,
  is_empty_iff ev.model,
  equal_iff c.model [],
  equal_iff c.model ev.model,
)

has-all_subs :
    (k : ℕ) (h : MonitorHub) → IsHub h → has k h.all_subs ≡ open_for [] (lookup k h.channels)
unfolding listed
has-all_subs k h v = v.listed_is [] k

has-of_model :
    (model : Bytes) (k : ℕ) (h : MonitorHub)
    → IsHub h
    → has k (of_model model h) ≡ (not (is_empty model) && open_for model (lookup k h.channels))
unfolding listed lookup
has-of_model model k h v = ground (arith, v.listed_is model k)

of_model-IsDistinct : (model : Bytes) (h : MonitorHub) → IsHub h → IsDistinct (of_model model h)
of_model-IsDistinct model h v = if_either IsDistinct (is_empty model) tt (v.distinct.in_model model)

open-still_open :
    (model : Bytes) (c : Option Subscription) → open_for model c ≡ true → still_open c ≡ true
open-still_open model none t = t
open-still_open model (some c) t = ground (arith, t)

still_open-offered :
    (ev : MonitorPacketEvent) (c : Option Subscription) → still_open (offered ev c) ≡ still_open c
unfolding offer
still_open-offered ev none = refl
still_open-offered ev (some c) = ground arith

still_open-if :
    (b : Bool) (ev : MonitorPacketEvent) (c : Option Subscription)
    → still_open (if b then offered ev c else c) ≡ still_open c
still_open-if true ev c = still_open-offered ev c
still_open-if false ev c = refl

open-of_model :
    (model : Bytes) (k : ℕ) (h : MonitorHub)
    → IsHub h
    → has k (of_model model h) ≡ true
    → still_open (lookup k h.channels) ≡ true
open-of_model model k h v m =
    open-still_open model (lookup k h.channels) (ground (arith, m, has-of_model model k h v))

-- A broadcast reaches each open channel for the model of the event, or for all models, once, and
-- no other channel: the event is added to its queue unless that is full. It does not panic, and it
-- changes nothing else of the hub.
pub broadcast-received :
    (ev : MonitorPacketEvent) (h : MonitorHub)
    → IsHub h
    → (channels : Channels) × (broadcast ev h ≡ some (record h { channels = channels }))
      × ((k : ℕ) → lookup k channels ≡ received ev (lookup k h.channels))
unfolding broadcast
broadcast-received ev h v =
    let (channels1, e1, at1) =
      send_all-open ev h.all_subs h.channels v.distinct.in_all
        (λ k m. open-still_open [] (lookup k h.channels) (sym (has-all_subs k h v) ∙ m)) in
    let (channels2, e2, at2) =
      send_all-open ev (of_model ev.model h) channels1 (of_model-IsDistinct ev.model h v) (λ k m.
        rw (at1 k) (
          still_open-if (has k h.all_subs) ev (lookup k h.channels)
          ∙ open-of_model ev.model k h v m)) in
    (
      channels2,
      rw (e1, broadcast, e2) refl,
      λ k.
          at2 k
          ∙ rw (at1 k, has-all_subs k h v, has-of_model ev.model k h v)
              (offered-received ev (lookup k h.channels)),
    )

pub received-IsLike :
    (ev : MonitorPacketEvent) (c : Option Subscription) → IsChannel c → IsLike c (received ev c)
unfolding offer
received-IsLike ev none v = (λ model. refl, tt, λ n. n)
received-IsLike ev (some c) (once, room) = (
  λ model. ground arith,
  ground (arith, once, room, length-append c.queue (ev ∷ [])),
  λ n. ground (arith, n),
)

pub broadcast-IsHub :
    (ev : MonitorPacketEvent) (h : MonitorHub)
    → IsHub h
    → (h' : MonitorHub) × (broadcast ev h ≡ some h') × IsHub h'
broadcast-IsHub ev h v =
    let (channels, e, at) = broadcast-received ev h v in
    (
      record h { channels = channels },
      e,
      channels-IsHub h channels v
          (λ k. rw (at k) (received-IsLike ev (lookup k h.channels) (v.channel_is k))),
    )

some_channel : (s : ChannelSet) → is_nil s ≡ false → (k : ℕ) × (has k s ≡ true)
unfolding lookup
some_channel [] n = absurd (true≢false n)
some_channel ((k, u) ∷ s) n = (k, ground arith)

not_nil : (k : ℕ) (s : ChannelSet) → has k s ≡ true → is_nil s ≡ false
unfolding lookup
not_nil k [] m = sym m
not_nil k (_ ∷ s) m = refl

open_for-wants :
    (model m : Bytes) (c : Option Subscription)
    → (is_empty m || equal m model) ≡ true
    → open_for m c ≡ true
    → (d : Subscription) × (c ≡ some d) × (wants model d ≡ true)
open_for-wants model m none w o = absurd (true≢false (sym o))
open_for-wants model m (some d) w o = (d, refl, ground (arith, w, o, equal_iff d.model m))

has_subscribers-wanted :
    (model : Bytes) (h : MonitorHub)
    → IsHub h
    → has_subscribers model h ≡ true
    → (k : ℕ) × (c : Subscription) × (lookup k h.channels ≡ some c) × (wants model c ≡ true)
unfolding has_subscribers
has_subscribers-wanted model h v t = elim (Bool-cases (is_nil h.all_subs)) [
  | inr f ↦
      let (k, m) = some_channel h.all_subs f in
      let (d, e, w) =
        open_for-wants model [] (lookup k h.channels) refl (sym (has-all_subs k h v) ∙ m) in
      (k, d, e, w)
  | inl e ↦
      let (k, m) = some_channel (of_model model h) (ground (arith, t, e)) in
      let (d, e', w) =
        open_for-wants model model (lookup k h.channels) (ground (arith, equal_iff model model))
          (ground (arith, m, has-of_model model k h v)) in
      (k, d, e', w)
]

wanted-has_subscribers :
    (model : Bytes) (h : MonitorHub) (k : ℕ) (c : Subscription)
    → IsHub h
    → lookup k h.channels ≡ some c
    → wants model c ≡ true
    → has_subscribers model h ≡ true
unfolding has_subscribers
wanted-has_subscribers model h k c v e w = elim (Bool-cases (is_empty c.model)) [
  | inl t ↦
      let n = not_nil k h.all_subs (
        has-all_subs k h v
        ∙ rw e (ground (arith, t, w, is_empty_iff c.model, equal_iff c.model []))) in
      ground (arith, n)
  | inr f ↦
      let same : c.model ≡ model = ground (arith, w, f, equal_iff c.model model) in
      let n =
        not_nil k (of_model model h)
          (has-of_model model k h v ∙ rw e (ground (arith, f, w, same, equal_iff c.model model))) in
      ground (arith, n, f, same)
]

send_all-nil :
    (ev : MonitorPacketEvent) (s : ChannelSet) (channels : Channels)
    → is_nil s ≡ true
    → send_all ev s channels ≡ some channels
unfolding send_all
send_all-nil ev [] channels n = refl
send_all-nil ev (_ ∷ _) channels n = absurd (true≢false (sym n))

broadcast-unwanted :
    (ev : MonitorPacketEvent) (h : MonitorHub)
    → has_subscribers ev.model h ≡ false
    → broadcast ev h ≡ some h
unfolding has_subscribers broadcast
broadcast-unwanted ev h f =
    rw (send_all-nil ev h.all_subs h.channels (ground (arith, f)), broadcast)
      (rw (send_all-nil ev (of_model ev.model h) h.channels (ground (arith, f)), broadcast) refl)

-- `HasSubscribers` is true exactly when some open channel is for the model of the event or for all
-- models. A caller that asks it first, and does not broadcast the event when it is false, leaves the
-- hub as the broadcast would.
pub has_subscribers-broadcast :
    (ev : MonitorPacketEvent) (h : MonitorHub)
    → IsHub h
    → ((has_subscribers ev.model h ≡ true) ↔ (
        (k : ℕ) × (c : Subscription) × (lookup k h.channels ≡ some c) × (wants ev.model c ≡ true)))
      × ((if has_subscribers ev.model h then broadcast ev h else some h) ≡ broadcast ev h)
has_subscribers-broadcast ev h v = (
  (
    has_subscribers-wanted ev.model h v,
    λ (k, c, e, w). wanted-has_subscribers ev.model h k c v e w,
  ),
  elim (Bool-cases (has_subscribers ev.model h)) [
    | inl t ↦ rw t refl
    | inr f ↦ rw f (sym (broadcast-unwanted ev h f))
  ],
)
