-- ===== src/Events.antt =====
-- Tunnel events and their bus, src/tunnel_event_bus.rs. The bus holds the senders of channels of
-- `std::sync::mpsc`, which have no bound; the receivers are held, and dropped, by the listeners.
pub mod Delivery
mod Examples
use rstun.Base.{
  ℕ, suc, ◌≡◌, ◌+◌, Bool, true, false, not, ◌&&◌, Option, none, some, List, [], ◌∷◌, ◌++◌, ◌==◌,
  if◌then◌else◌, retain,
}
use rstun.Net.{Text, TunnelMode, UpstreamType}

pub record TunnelStat : Type 0 where
  pub rx_bytes : ℕ
  pub tx_bytes : ℕ
  pub tx_dgrams : ℕ
  pub rx_dgrams : ℕ
  pub sent_packets : ℕ
  pub lost_packets : ℕ
  pub lost_bytes : ℕ
  pub congestion_events : ℕ
  pub active_conns : ℕ
  pub rtt_ms : ℕ
  pub cwnd_bytes : ℕ
  pub current_mtu : ℕ
  pub black_holes : ℕ

pub data TunnelId : Type 0 where
  network : ℕ → TunnelId
  channel : ℕ → UpstreamType → TunnelId

pub record TunnelDescriptor : Type 0 where
  pub id : TunnelId
  pub proto : UpstreamType
  pub mode : TunnelMode

pub data TunnelState : Type 0 where
  connecting connected tunneling reconnecting : TunnelState

pub data TunnelEventType : Type 0 where
  state : TunnelState → TunnelEventType
  log : Text → TunnelEventType
  stat : TunnelStat → TunnelEventType

pub data TunnelSource : Type 0 where
  from_network from_channel : TunnelSource

pub record TunnelInfo : Type 0 where
  pub source : TunnelSource
  pub info_id : Option ℕ
  pub info_proto : UpstreamType
  pub info_mode : TunnelMode

pub record TunnelEvent : Type 0 where
  pub event_type : TunnelEventType
  pub timestamp : Text
  pub tunnel : Option TunnelInfo

tunnel_info : TunnelId → UpstreamType → TunnelMode → TunnelInfo
tunnel_info (network id) proto mode = record {
  source = from_network;
  info_id = some id;
  info_proto = proto;
  info_mode = mode;
}
tunnel_info (channel id protocol) proto mode = record {
  source = from_channel;
  info_id = some id;
  info_proto = protocol;
  info_mode = mode;
}

-- `TunnelEvent::new` and `new_without_tunnel`.
unfoldable pub new_event : TunnelEventType → Text → TunnelDescriptor → TunnelEvent
unfolding tunnel_info
new_event kind timestamp d = record {
  event_type = kind;
  timestamp = timestamp;
  tunnel = some (tunnel_info d.id d.proto d.mode);
}

unfoldable pub new_without_tunnel : TunnelEventType → Text → TunnelEvent
new_without_tunnel kind timestamp = record {
  event_type = kind;
  timestamp = timestamp;
  tunnel = none;
}

-- One channel: what the listener has not taken, and whether its receiver still exists.
pub record Channel : Type 0 where
  pub queue : List TunnelEvent
  pub open_end : Bool

-- The bus, by the numbers of its senders' channels, and the channels themselves.
pub record Hub : Type 0 where
  pub listeners : List ℕ
  pub channels : ℕ → Channel
  pub next_channel : ℕ

abbrev pub new_bus : Hub
new_bus = record {
  listeners = [];
  channels = λ i. record { queue = []; open_end = false };
  next_channel = 0;
}

abbrev pub put : ℕ → Channel → (ℕ → Channel) → ℕ → Channel
put i c channels j = if j == i then c else channels j

-- `register` returns the receiver of a new channel.
unfoldable pub register : Hub → ℕ × Hub
register hub = (
  hub.next_channel,
  record {
    listeners = hub.listeners ++ (hub.next_channel ∷ []);
    channels = put hub.next_channel (record { queue = []; open_end = true }) hub.channels;
    next_channel = suc hub.next_channel;
  },
)

unfoldable pub has_listeners : Hub → Bool
has_listeners hub = elim hub.listeners [ [] ↦ false | l ∷ ls ↦ true ]

-- `Sender::send`: it fails when the receiver has been dropped.
abbrev pub send : ℕ → TunnelEvent → (ℕ → Channel) → ℕ → Channel
send i e channels =
    if (channels i).open_end
    then put i (record { queue = (channels i).queue ++ (e ∷ []); open_end = true }) channels
    else channels

-- `listeners.retain(|listener| listener.send(event.clone()).is_ok())`.
unfoldable pub retain_listeners : List ℕ → TunnelEvent → (ℕ → Channel) → List ℕ × (ℕ → Channel)
retain_listeners [] e channels = ([], channels)
retain_listeners (l ∷ ls) e channels =
    let (kept, after) = retain_listeners ls e (send l e channels) in
    (if (channels l).open_end then l ∷ kept else kept, after)

unfoldable pub post : TunnelEvent → Hub → Hub
post e hub =
    let (kept, after) = retain_listeners hub.listeners e hub.channels in
    record hub { listeners = kept; channels = after }

-- What a listener does: take the oldest event, or drop the receiver.
unfoldable pub drop_receiver : ℕ → Hub → Hub
drop_receiver i hub = record hub {
  channels = put i (record (hub.channels i) { open_end = false }) hub.channels;
}
