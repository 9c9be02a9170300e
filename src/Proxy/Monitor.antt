-- ===== src/Proxy/Monitor.antt =====
-- pkg/proxy/monitor.go: `MonitorHub`. The channels and the state of the `sync.Once` of each
-- unsubscribe function are a store, with the number of a channel for its address: the sets of the hub
-- refer to channels by number. `none` is a panic: a send on a closed channel, or a second close. The
-- lock makes each operation one step.
pub mod Registry
pub mod Sending
pub mod Wellformed
pub mod Broadcasts
pub mod Runs
use buffered_llm_proxy.Base.{
  ℕ, zero, suc, ◌+◌, Bool, true, false, not, ◌&&◌, List, [], ◌∷◌, ◌++◌, Option, none, some, Bytes,
  length, is_empty, ltb, if◌then◌else◌, bytes_eq, nat_eq,
}
use buffered_llm_proxy.Base.Int.{ℤ}
use buffered_llm_proxy.Base.Map.{lookup, insert, remove}

pub data PacketDirection : Type 0 where
  upstream : PacketDirection
  downstream : PacketDirection

pub record MonitorPacketEvent : Type 0 where
  pub session_id : Bytes
  pub model : Bytes
  pub timestamp_ms : ℤ
  pub direction : PacketDirection
  pub packet_type : Bytes
  pub payload : Bytes
  pub summary : Bytes

-- A channel of capacity 256, and what its unsubscribe function holds: the model and the `once`.
pub record Subscription : Type 0 where
  pub model : Bytes
  pub queue : List MonitorPacketEvent
  pub closed : Bool
  pub once : Bool

abbrev pub Channels : Type 0
Channels = List (ℕ × Subscription)

-- `map[chan MonitorPacketEvent]struct{}`
abbrev pub ChannelSet : Type 0
ChannelSet = List (ℕ × Unit {0})

-- `next` is the number of the next channel that is made.
pub record MonitorHub : Type 0 where
  pub subscribers : List (Bytes × ChannelSet)
  pub all_subs : ChannelSet
  pub channels : Channels
  pub next : ℕ

abbrev pub capacity : ℕ
capacity = 256

abbrev pub new_monitor_hub : MonitorHub
new_monitor_hub = record { subscribers = []; all_subs = []; channels = []; next = 0 }

abbrev pub or_empty : Option ChannelSet → ChannelSet
or_empty none = []
or_empty (some s) = s

abbrev pub is_nil : ChannelSet → Bool
is_nil [] = true
is_nil (_ ∷ _) = false

-- `HasSubscribers`
unfoldable pub has_subscribers : Bytes → MonitorHub → Bool
has_subscribers model h =
    if not (is_nil h.all_subs)
    then true
    else not (is_empty model) && not (is_nil (or_empty (lookup model h.subscribers)))

-- `Subscribe`, with the number of the channel.
unfoldable pub subscribe : Bytes → MonitorHub → MonitorHub × ℕ
subscribe model h =
    let ch = h.next in
    let h' = record h {
      channels =
          insert ch (record { model = model; queue = []; closed = false; once = false }) h.channels;
      next = suc ch;
    } in
    (
      if is_empty model then record h' { all_subs = insert ch tt h.all_subs } else record h' {
        subscribers =
            insert model (insert ch tt (or_empty (lookup model h.subscribers))) h.subscribers;
      },
      ch,
    )

-- The set without the channel, and no entry if it is then empty.
unfoldable pub drop_from : Bytes → ℕ → List (Bytes × ChannelSet) → List (Bytes × ChannelSet)
drop_from model ch subscribers = elim (lookup model subscribers) [
  | none ↦ subscribers
  | some s ↦
      let s' = remove ch s in
      if is_nil s' then remove model subscribers else insert model s' subscribers
]

-- `close(ch)`
unfoldable pub close_channel : ℕ → Subscription → MonitorHub → Option MonitorHub
close_channel ch c h =
    if c.closed
    then none
    else some
        (record h { channels = insert ch (record c { closed = true; once = true }) h.channels })

unfoldable pub unregister : Bytes → ℕ → MonitorHub → MonitorHub
unfolding drop_from
unregister model ch h =
    if is_empty model
    then record h { all_subs = remove ch h.all_subs }
    else record h { subscribers = drop_from model ch h.subscribers }

-- The unsubscribe function that `Subscribe` returned with the channel. There is none for a channel
-- that was not made.
unfoldable pub unsubscribe : ℕ → MonitorHub → Option MonitorHub
unfolding unregister close_channel
unsubscribe ch h = elim (lookup ch h.channels) [
  | none ↦ some h
  | some c ↦ if c.once then some h else close_channel ch c (unregister c.model ch h)
]

-- What a send that does not wait leaves.
unfoldable pub offer : MonitorPacketEvent → Subscription → Subscription
offer ev c = if ltb (length c.queue) capacity then record c { queue = c.queue ++ (ev ∷ []) } else c

-- `select { case ch <- ev: default: }`
unfoldable pub send : MonitorPacketEvent → ℕ → Channels → Option Channels
unfolding offer
send ev ch channels = elim (lookup ch channels) [
  | none ↦ none
  | some c ↦ if c.closed then none else some (insert ch (offer ev c) channels)
]

unfoldable pub send_all : MonitorPacketEvent → ChannelSet → Channels → Option Channels
unfolding send
send_all ev [] channels = some channels
send_all ev ((ch, _) ∷ set) channels = elim (send ev ch channels) [
  | none ↦ none
  | some channels' ↦ send_all ev set channels'
]

-- The channels that subscribed to the model of the event.
abbrev pub of_model : Bytes → MonitorHub → ChannelSet
of_model model h = if is_empty model then [] else or_empty (lookup model h.subscribers)

-- `Broadcast`
unfoldable pub broadcast : MonitorPacketEvent → MonitorHub → Option MonitorHub
unfolding send_all
broadcast ev h = elim (send_all ev h.all_subs h.channels) [
  | none ↦ none
  | some channels ↦ elim (send_all ev (of_model ev.model h) channels) [
    | none ↦ none
    | some channels' ↦ some (record h { channels = channels' })
  ]
]

unfoldable pub take_first : ℕ → Subscription → List MonitorPacketEvent → MonitorHub → MonitorHub
take_first ch c [] h = h
take_first ch c (_ ∷ rest) h = record h {
  channels = insert ch (record c { queue = rest }) h.channels;
}

-- The subscriber takes the first event that waits.
unfoldable pub receive : ℕ → MonitorHub → MonitorHub
unfolding take_first
receive ch h = elim (lookup ch h.channels) [ none ↦ h | some c ↦ take_first ch c c.queue h ]
