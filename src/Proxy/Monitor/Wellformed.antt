-- ===== src/Proxy/Monitor/Wellformed.antt =====
-- What holds of a hub at all times.
use buffered_llm_proxy.Base.{
  ℕ, suc, ◌≤◌, ◌≡◌, refl, sym, ◌∙◌, subst, Bool, true, false, not, ◌&&◌, [], Option, none, some,
  Bytes, length, equal, ◌==◌, ==_iff, if_either, Bool-cases, Option-cases, inl, inr, bytes_eq,
  nat_eq, arith,
}
use buffered_llm_proxy.Base.Map.{lookup, insert, lookup-insert}
use buffered_llm_proxy.Proxy.Monitor.{
  Channels, Subscription, MonitorHub, capacity, new_monitor_hub, subscribe, unregister,
  close_channel, unsubscribe,
}
use buffered_llm_proxy.Proxy.Monitor.Registry.{
  listed, HasDistinct, subscribe-HasDistinct, unregister-HasDistinct, listed-subscribe,
  listed-unregister,
}

-- An open channel that subscribed to the model.
abbrev pub open_for : Bytes → Option Subscription → Bool
open_for model none = false
open_for model (some c) = not c.closed && equal c.model model

-- A channel is closed exactly when its unsubscribe function has run, and does not hold more events
-- than its capacity.
abbrev pub IsChannel : Option Subscription → Type 0
IsChannel none = Unit {0}
IsChannel (some c) = (c.once ≡ c.closed) × (length c.queue ≤ capacity)

-- The hub has registered, once each, the channels that are open, under their models.
pub record IsHub (h : MonitorHub) : Type 0 where
  pub distinct : HasDistinct h
  pub listed_is : (model : Bytes) (k : ℕ) → listed model k h ≡ open_for model (lookup k h.channels)
  pub channel_is : (k : ℕ) → IsChannel (lookup k h.channels)
  pub fresh : (k : ℕ) → h.next ≤ k → lookup k h.channels ≡ none

pub new_monitor_hub-IsHub : IsHub new_monitor_hub
unfolding listed lookup
new_monitor_hub-IsHub = record {
  distinct = record { in_all = tt; in_model = λ model. tt };
  listed_is = λ model k. ground arith;
  channel_is = λ k. tt;
  fresh = λ k h. refl;
}

abbrev added : Bytes → Subscription
added model = record { model = model; queue = []; closed = false; once = false }

channels-subscribe :
    (model : Bytes) (h : MonitorHub)
    → ((subscribe model h).0.channels ≡ insert h.next (added model) h.channels)
      × ((subscribe model h).0.next ≡ suc h.next)
unfolding subscribe
channels-subscribe model h = ground arith

pub subscribe-IsHub : (model : Bytes) (h : MonitorHub) → IsHub h → IsHub (subscribe model h).0
subscribe-IsHub model h v =
    let c = (channels-subscribe model h).0 in
    let n = (channels-subscribe model h).1 in
    let at = λ (k : ℕ). lookup-insert h.next k (added model) h.channels in
    let free = v.fresh h.next (omega arith) in
    record {
      distinct = subscribe-HasDistinct model h v.distinct;
      listed_is = λ m k. rw c (
          listed-subscribe model m k h
          ∙ rw (at k) (ground (arith, v.listed_is m k, free, ==_iff h.next k)));
      channel_is = λ k.
          rw c (rw (at k) (if_either IsChannel (h.next == k) (refl, omega arith) (v.channel_is k)));
      fresh = λ k le.
          rw c
            (rw (at k) (ground (arith, v.fresh k (omega (arith, le, n)), ==_iff h.next k, le, n)));
    }

-- A channel store may change, as long as no channel is made, closed or goes to another model.
abbrev pub IsLike : Option Subscription → Option Subscription → Type 0
IsLike old new =
    ((model : Bytes) → open_for model new ≡ open_for model old)
    × IsChannel new
    × (old ≡ none → new ≡ none)

pub channels-IsHub :
    (h : MonitorHub) (channels : Channels)
    → IsHub h
    → ((k : ℕ) → IsLike (lookup k h.channels) (lookup k channels))
    → IsHub (record h { channels = channels })
unfolding listed
channels-IsHub h channels v like = record {
  distinct = record { in_all = v.distinct.in_all; in_model = v.distinct.in_model };
  listed_is = λ model k. v.listed_is model k ∙ sym ((like k).0 model);
  channel_is = λ k. (like k).1;
  fresh = λ k le. (like k).2 (v.fresh k le);
}

unregister-lem :
    (model : Bytes) (ch : ℕ) (h : MonitorHub)
    → ((unregister model ch h).channels ≡ h.channels) × ((unregister model ch h).next ≡ h.next)
unfolding unregister
unregister-lem model ch h = ground arith

abbrev shut : Subscription → Subscription
shut c = record c { closed = true; once = true }

-- What a call of an unsubscribe function leaves, which is the first one.
abbrev after_unsubscribe : ℕ → Subscription → MonitorHub → MonitorHub
after_unsubscribe ch c h = record (unregister c.model ch h) {
  channels = insert ch (shut c) (unregister c.model ch h).channels;
}

after_unsubscribe-IsHub :
    (ch : ℕ) (c : Subscription) (h : MonitorHub)
    → IsHub h
    → lookup ch h.channels ≡ some c
    → IsHub (after_unsubscribe ch c h)
unfolding listed
after_unsubscribe-IsHub ch c h v e =
    let (same, next) = unregister-lem c.model ch h in
    let at = λ (k : ℕ). lookup-insert ch k (shut c) h.channels in
    let d = unregister-HasDistinct c.model ch h v.distinct in
    let room : IsChannel (some c) = subst IsChannel e (v.channel_is ch) in
    record {
      distinct = record { in_all = d.in_all; in_model = d.in_model };
      listed_is = λ m k.
          listed-unregister c.model m ch k h
          ∙ rw same (rw (at k) (ground (arith, v.listed_is m k, e, ==_iff ch k)));
      channel_is =
          λ k. rw same (rw (at k) (if_either IsChannel (ch == k) (refl, room.1) (v.channel_is k)));
      fresh = λ k le. rw same (
          rw (at k)
            (ground (arith, v.fresh k (omega (arith, le, next)), e, ==_iff ch k, le, next)));
    }

-- An unsubscribe function may be called at any time, and again, without a second close.
pub unsubscribe-IsHub :
    (ch : ℕ) (h : MonitorHub)
    → IsHub h
    → (h' : MonitorHub) × (unsubscribe ch h ≡ some h') × IsHub h'
unfolding unsubscribe close_channel
unsubscribe-IsHub ch h v = elim (Option-cases (lookup ch h.channels)) [
  | inl n ↦ (h, rw (n, unsubscribe) refl, v)
  | inr (c, e) ↦
      let once : c.once ≡ c.closed = (subst IsChannel e (v.channel_is ch)).0 in
      elim (Bool-cases c.closed) [
        | inl t ↦ (h, rw (e, unsubscribe, once, t) refl, v)
        | inr f ↦ (
          after_unsubscribe ch c h,
          rw (e, unsubscribe, once, f) (ground (arith, f)),
          after_unsubscribe-IsHub ch c h v e,
        )
      ]
]
