-- ===== src/Proxy/Monitor/Sending.antt =====
-- Sending an event to every channel of a set.
use mathlib.Core.Bool.{true≢false}
use buffered_llm_proxy.Base.{
  ℕ, ◌≡◌, refl, sym, ap, ◌∙◌, Bool, true, false, not, [], ◌∷◌, Option, none, some, ◌==◌, ==_iff,
  if◌then◌else◌, Option-cases, inl, inr, bytes_eq, nat_eq, arith,
}
use buffered_llm_proxy.Base.Map.{lookup, insert, lookup-insert}
use buffered_llm_proxy.Proxy.Monitor.{
  ChannelSet, Channels, Subscription, MonitorPacketEvent, offer, send, send_all,
}
use buffered_llm_proxy.Proxy.Monitor.Registry.{has, IsDistinct}

-- The channel is there and open.
abbrev pub still_open : Option Subscription → Bool
still_open none = false
still_open (some c) = not c.closed

abbrev pub offered : MonitorPacketEvent → Option Subscription → Option Subscription
offered ev none = none
offered ev (some c) = some (offer ev c)

-- One send to an open channel offers it the event, and leaves the others.
send-open :
    (ev : MonitorPacketEvent) (ch : ℕ) (channels : Channels)
    → still_open (lookup ch channels) ≡ true
    → (channels' : Channels) × (send ev ch channels ≡ some channels')
      × ((k : ℕ)
          → lookup k channels'
            ≡ (if ch == k then offered ev (lookup k channels) else lookup k channels))
unfolding send
send-open ev ch channels o = elim (Option-cases (lookup ch channels)) [
  | inl n ↦ absurd (true≢false (sym o ∙ ap still_open n))
  | inr (c, e) ↦
      let r : c.closed ≡ false = ground (arith, o, e) in
      (
        insert ch (offer ev c) channels,
        rw (e, r, send) refl,
        λ k. lookup-insert ch k (offer ev c) channels ∙ ground (arith, e, ==_iff ch k),
      )
]

still_open-offered :
    (ev : MonitorPacketEvent) (c : Option Subscription) → still_open (offered ev c) ≡ still_open c
unfolding offer
still_open-offered ev none = refl
still_open-offered ev (some c) = ground arith

send_all-cons :
    (ev : MonitorPacketEvent) (ch : ℕ) (u : Unit {0}) (s : ChannelSet)
    (channels channels' : Channels)
    → send ev ch channels ≡ some channels'
    → send_all ev ((ch, u) ∷ s) channels ≡ send_all ev s channels'
unfolding send_all
send_all-cons ev ch u s channels channels' e = rw (e, send_all) refl

-- Each channel of a set without duplicates is offered the event once, if all are open.
pub send_all-open :
    (ev : MonitorPacketEvent) (s : ChannelSet) (channels : Channels)
    → IsDistinct s
    → ((k : ℕ) → has k s ≡ true → still_open (lookup k channels) ≡ true)
    → (channels' : Channels) × (send_all ev s channels ≡ some channels')
      × ((k : ℕ)
          → lookup k channels'
            ≡ (if has k s then offered ev (lookup k channels) else lookup k channels))
unfolding send_all lookup
send_all-open ev [] channels d o = (channels, refl, λ k. refl)
send_all-open ev ((ch, u) ∷ s) channels (n, d) o =
    let (channels1, e1, at1) = send-open ev ch channels (o ch (ground arith)) in
    let (channels2, e2, at2) = send_all-open ev s channels1 d (λ k m.
      rw (at1 k) (
        ground
          (arith, n, m, o k (ground (arith, m)), still_open-offered ev (lookup k channels)))) in
    (
      channels2,
      send_all-cons ev ch u s channels channels1 e1 ∙ e2,
      λ k. at2 k ∙ ground (arith, at1 k, n, ==_iff ch k),
    )
