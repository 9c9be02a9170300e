-- ===== src/Tests/Hub.antt =====
-- The monitor hub, on concrete input.
use buffered_llm_proxy.Base.{◌≡◌, ◌↔◌, true, List, [], ◌∷◌, some, codes, if◌then◌else◌, ℕ, nat_eq}
use buffered_llm_proxy.Base.Int.{pos}
use buffered_llm_proxy.Base.Map.{lookup}
use buffered_llm_proxy.Proxy.Monitor.{
  Channels, MonitorHub, MonitorPacketEvent, Subscription, upstream, new_monitor_hub, subscribe,
  has_subscribers, broadcast,
}
use buffered_llm_proxy.Proxy.Monitor.Broadcasts.{
  received, wants, broadcast-received, has_subscribers-broadcast,
}
use buffered_llm_proxy.Proxy.Monitor.Runs.{
  Step, subscribes, unsubscribes, broadcasts, receives, run, run-IsHub,
}
use buffered_llm_proxy.Proxy.Monitor.Wellformed.{IsHub, new_monitor_hub-IsHub, subscribe-IsHub}

abbrev event : MonitorPacketEvent
event = record {
  session_id = codes "s";
  model = codes "m";
  timestamp_ms = pos 0;
  direction = upstream;
  packet_type = codes "request";
  payload = codes "{}";
  summary = [];
}

abbrev steps : List Step
steps =
    subscribes (codes "m")
    ∷ subscribes []
    ∷ broadcasts event
    ∷ unsubscribes 0
    ∷ unsubscribes 0
    ∷ broadcasts event
    ∷ receives 1
    ∷ []

run-IsHub_example : (h : MonitorHub) × (run steps new_monitor_hub ≡ some h) × IsHub h
run-IsHub_example = run-IsHub steps

-- One subscriber to the model of the event.
abbrev pub watched : MonitorHub
watched = (subscribe (codes "m") new_monitor_hub).0

pub watched-IsHub : IsHub watched
watched-IsHub = subscribe-IsHub (codes "m") new_monitor_hub new_monitor_hub-IsHub

broadcast-received_example :
    (channels : Channels) × (broadcast event watched
      ≡ some (record watched { channels = channels }))
    × ((k : ℕ) → lookup k channels ≡ received event (lookup k watched.channels))
broadcast-received_example = broadcast-received event watched watched-IsHub

has_subscribers-broadcast_example :
    ((has_subscribers (codes "m") watched ≡ true) ↔ (
      (k : ℕ) × (c : Subscription) × (lookup k watched.channels ≡ some c)
      × (wants (codes "m") c ≡ true)))
    × ((if has_subscribers (codes "m") watched then broadcast event watched else some watched)
        ≡ broadcast event watched)
has_subscribers-broadcast_example = has_subscribers-broadcast event watched watched-IsHub
