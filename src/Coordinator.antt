-- ===== src/Coordinator.antt =====
-- coord.rs: `Coordinator`, which feeds the router and carries out its actions. Its channels are
-- tokio's: an interface, with a world `W` that a send changes.
pub mod Rounds
pub mod Endings
use peer_to_peer_decentraliz.Base.{Option, none, some, List, [], ◌∷◌, Checked, returns, ◌>>=◌}
use peer_to_peer_decentraliz.Packet.{Bytes}
use peer_to_peer_decentraliz.Vpn.{
  VpnCore, Event, peer_connected, peer_disconnected, packet_from_tun, packet_from_iroh, Action,
  connect_to_peer, disconnect_from_peer, send_packet_to, write_to_tun, no_action, process,
}
use peer_to_peer_decentraliz.Transport.{
  IrohEvent, connected_to_peer, disconnected_from_peer, recv_packet_from, CoreAction,
}

-- `Result<(), TrySendError>`, with the world behind a send that is accepted.
pub data TrySend (W : Type 0) : Type 0 where
  accepted : W → TrySend W
  full : TrySend W
  closed : TrySend W

pub record Outbox (K W : Type 0) : Type 0 where
  -- `tx_to_iroh.send(action).await`; `none` where the channel is closed
  pub send_to_iroh : CoreAction K → W → Option W
  pub try_send_to_iroh : CoreAction K → W → TrySend W
  pub try_send_to_tun : Bytes → W → TrySend W

-- `Result<(), ChannelWasClosed>`, with the world that is left.
pub data Carried (W : Type 0) : Type 0 where
  ok : W → Carried W
  channel_was_closed : W → Carried W

unfoldable pub map_iroh_event_to_core_event : {K : Type 0} → IrohEvent K → Event K
map_iroh_event_to_core_event (connected_to_peer k) = peer_connected k
map_iroh_event_to_core_event (disconnected_from_peer k) = peer_disconnected k
map_iroh_event_to_core_event (recv_packet_from packet k) = packet_from_iroh packet k

module _ {K W : Type 0} (out : Outbox K W) where
  -- A `try_send`: a packet for a full channel is dropped.
  abbrev pub offered : W → TrySend W → Carried W
  offered w (accepted next) = ok next
  offered w full = ok w
  offered w closed = channel_was_closed w

  -- One round of the loop of `handle_actions`.
  unfoldable pub handle_action : W → Action K → Carried W
  handle_action w (connect_to_peer k) = ok w
  handle_action w (disconnect_from_peer k) =
      elim (out.send_to_iroh (CoreAction.disconnect_from_peer k) w) [
        | some next ↦ ok next
        | none ↦ channel_was_closed w
      ]
  handle_action w (send_packet_to packet k) =
      offered w (out.try_send_to_iroh (CoreAction.send_packet_to packet k) w)
  handle_action w (write_to_tun packet) = offered w (out.try_send_to_tun packet w)
  handle_action w (no_action log) = ok w

  unfoldable pub handle_actions : W → List (Action K) → Carried W
  unfolding handle_action
  handle_actions w [] = ok w
  handle_actions w (a ∷ rest) = elim (handle_action w a) [
    | ok next ↦ handle_actions next rest
    | channel_was_closed last ↦ channel_was_closed last
  ]

-- What `tokio::select!` hands to the loop of `run`; `none` is a closed channel.
pub data Input (K : Type 0) : Type 0 where
  from_iroh : Option (IrohEvent K) → Input K
  from_tun : Option Bytes → Input K

module _ {K W : Type 0} (key_eq : Discrete K) (out : Outbox K W) where
  unfoldable pub handle_event : VpnCore K → W → Event K → Checked (VpnCore K × Carried W)
  unfolding handle_actions
  handle_event core w event = do
    (next, actions) ← process key_eq core event
    returns (next, handle_actions out w actions)

  unfoldable pub handle_iroh_event : VpnCore K → W → IrohEvent K → Checked (VpnCore K × Carried W)
  unfolding handle_event map_iroh_event_to_core_event
  handle_iroh_event core w event = handle_event core w (map_iroh_event_to_core_event event)

  unfoldable pub handle_packet_from_tun : VpnCore K → W → Bytes → Checked (VpnCore K × Carried W)
  unfolding handle_event
  handle_packet_from_tun core w packet = handle_event core w (packet_from_tun packet)

  -- `Coordinator::run` over the inputs that arrive, up to the first that ends it.
  unfoldable pub run : VpnCore K → W → List (Input K) → Checked (VpnCore K × W)
  unfolding handle_iroh_event handle_packet_from_tun
  run core w [] = returns (core, w)
  run core w (from_iroh none ∷ is) = returns (core, w)
  run core w (from_tun none ∷ is) = returns (core, w)
  run core w (from_iroh (some event) ∷ is) = handle_iroh_event core w event >>= λ r. elim r.1 [
    | ok next ↦ run r.0 next is
    | channel_was_closed last ↦ returns (r.0, last)
  ]
  run core w (from_tun (some packet) ∷ is) = handle_packet_from_tun core w packet >>= λ r.
      elim r.1 [ ok next ↦ run r.0 next is | channel_was_closed last ↦ returns (r.0, last) ]
