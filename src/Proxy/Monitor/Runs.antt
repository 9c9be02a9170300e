-- ===== src/Proxy/Monitor/Runs.antt =====
-- Any sequence of calls on a hub.
use buffered_llm_proxy.Base.{
  ℕ, ◌≡◌, refl, ap, subst, List, [], ◌∷◌, Option, none, some, Bytes, length, ◌==◌, ==_iff,
  if_either, Bool-cases, Option-cases, inl, inr, nat_eq, arith,
}
use buffered_llm_proxy.Base.Map.{lookup, insert, lookup-insert}
use buffered_llm_proxy.Proxy.Monitor.{
  Subscription, MonitorHub, MonitorPacketEvent, new_monitor_hub, subscribe, unsubscribe, broadcast,
  take_first, receive,
}
use buffered_llm_proxy.Proxy.Monitor.Broadcasts.{broadcast-IsHub}
use buffered_llm_proxy.Proxy.Monitor.Wellformed.{
  IsHub, IsLike, IsChannel, new_monitor_hub-IsHub, subscribe-IsHub, channels-IsHub,
  unsubscribe-IsHub,
}

-- A call, of the handler of a monitor or of the proxy.
pub data Step : Type 0 where
  subscribes : Bytes → Step
  unsubscribes : ℕ → Step
  broadcasts : MonitorPacketEvent → Step
  receives : ℕ → Step

unfoldable pub step : Step → MonitorHub → Option MonitorHub
unfolding subscribe unsubscribe broadcast receive
step (subscribes model) h = some (subscribe model h).0
step (unsubscribes ch) h = unsubscribe ch h
step (broadcasts ev) h = broadcast ev h
step (receives ch) h = some (receive ch h)

unfoldable pub run : List Step → MonitorHub → Option MonitorHub
unfolding step
run [] h = some h
run (s ∷ steps) h = elim (step s h) [ none ↦ none | some h' ↦ run steps h' ]

same-IsLike : (c : Option Subscription) → IsChannel c → IsLike c c
same-IsLike c v = (λ model. refl, v, λ n. n)

taken-IsLike :
    (ev : MonitorPacketEvent) (rest : List MonitorPacketEvent) (c : Subscription)
    → c.queue ≡ ev ∷ rest
    → IsChannel (some c)
    → IsLike (some c) (some (record c { queue = rest }))
taken-IsLike ev rest c e (once, room) =
    (λ model. refl, (once, ground (arith, room, ap length e)), λ n. ground (arith, n))

take_first-IsHub :
    (ch : ℕ) (c : Subscription) (queue : List MonitorPacketEvent) (h : MonitorHub)
    → c.queue ≡ queue
    → lookup ch h.channels ≡ some c
    → IsHub h
    → IsHub (take_first ch c queue h)
unfolding take_first
take_first-IsHub ch c [] h q e v = v
take_first-IsHub ch c (ev ∷ rest) h q e v =
    let c' = record c { queue = rest } in
    channels-IsHub h (insert ch c' h.channels) v (λ k.
      rw (lookup-insert ch k c' h.channels) (elim (Bool-cases (ch == k)) [
        | inl t ↦
            let room : IsChannel (some c) = subst IsChannel e (v.channel_is ch) in
            rw (← (==_iff ch k).0 t, e)
              (if_either (IsLike (some c)) (ch == ch) (taken-IsLike ev rest c q room)
                (same-IsLike (some c) room))
        | inr f ↦ rw f (same-IsLike (lookup k h.channels) (v.channel_is k))
      ]))

receive-IsHub : (ch : ℕ) (h : MonitorHub) → IsHub h → IsHub (receive ch h)
unfolding receive
receive-IsHub ch h v = elim (Option-cases (lookup ch h.channels)) [
  | inl n ↦ rw (n, receive) v
  | inr (c, e) ↦ rw (e, receive) (take_first-IsHub ch c c.queue h refl e v)
]

step-IsHub :
    (s : Step) (h : MonitorHub) → IsHub h → (h' : MonitorHub) × (step s h ≡ some h') × IsHub h'
unfolding step
step-IsHub (subscribes model) h v = ((subscribe model h).0, refl, subscribe-IsHub model h v)
step-IsHub (unsubscribes ch) h v = unsubscribe-IsHub ch h v
step-IsHub (broadcasts ev) h v = broadcast-IsHub ev h v
step-IsHub (receives ch) h v = (receive ch h, refl, receive-IsHub ch h v)

run-from :
    (steps : List Step) (h : MonitorHub)
    → IsHub h
    → (h' : MonitorHub) × (run steps h ≡ some h') × IsHub h'
unfolding run
run-from [] h v = (h, refl, v)
run-from (s ∷ steps) h v =
    let (h1, e1, v1) = step-IsHub s h v in
    let (h2, e2, v2) = run-from steps h1 v1 in (h2, rw (e1, run) e2, v2)

-- However subscribing, unsubscribing (more than once, too), broadcasting and receiving follow each
-- other on a new hub, none of them panics: nothing is sent to a closed channel and none is closed
-- twice. The hub that they leave is well-formed.
pub run-IsHub :
    (steps : List Step) → (h : MonitorHub) × (run steps new_monitor_hub ≡ some h) × IsHub h
run-IsHub steps = run-from steps new_monitor_hub new_monitor_hub-IsHub
