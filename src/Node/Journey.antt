-- ===== src/Node/Journey.antt =====
-- A packet's way from one host to another, through every task of two nodes.
use peer_to_peer_decentraliz.Base.{
  ℕ, ◌<◌, ◌≡◌, refl, ap, some, true, Bool, List, [], ◌∷◌, ◌++◌, ltb, length, arith, ok, returns,
}
use peer_to_peer_decentraliz.Packet.{Bytes}
use peer_to_peer_decentraliz.Packet.Header.{IsBytes, addr_of}
use peer_to_peer_decentraliz.Vpn.Admission.{MayLeave}
use peer_to_peer_decentraliz.Vpn.Refinement.{view, up}
use peer_to_peer_decentraliz.Vpn.Crossing.{IsPeered, process-crosses}
use peer_to_peer_decentraliz.Transport.{
  KeyOrder, connected, IrohEvent, recv_packet_from, send_packet_to, try_send, state_of,
}
use peer_to_peer_decentraliz.Transport.Handlers.{handle_core_event, on_send}
use peer_to_peer_decentraliz.Transport.Tasks.{
  read_datagram, from_channel, offer_to_coord, send_datagram, on_peer_connected,
}
use peer_to_peer_decentraliz.Coordinator.{
  handle_event, handle_iroh_event, handle_packet_from_tun, handle_actions, handle_action,
  map_iroh_event_to_core_event,
}
use peer_to_peer_decentraliz.Node.{Node, host_packet, coord_turn, turn, intermod_channel_capacity}

module _ {K C E : Type 0} (keys : KeyOrder K) (remote_id : C → K) (is_too_large : E → Bool) where
  -- The node behind a packet for its manager, and behind one for its host.
  abbrev pub with_send : Node K C → Bytes → K → Node K C
  with_send n p k = record n {
    out = record (n.out) { to_iroh = n.out.to_iroh ++ (send_packet_to p k ∷ []) };
  }

  abbrev pub with_write : Node K C → Bytes → List (IrohEvent K) → Node K C
  with_write n p rest = record n {
    to_coord = rest;
    out = record (n.out) { to_tun = n.out.to_tun ++ (p ∷ []) };
  }

  -- A packet that may leave one host arrives at the other. Let two nodes name one another in their
  -- tables and hold the two ends `ab` and `ba` of a connection, the router of the first knowing
  -- that the link is up, and let there be room on the channels. Then the coordinator of the first
  -- gives the packet to its manager, the manager to the session of `ab`, the session to the
  -- connection; and the session of `ba`, when it reads it, to the coordinator of the second node,
  -- which puts it on the channel to its host, unchanged.
  pub packet-crosses :
      (na nb : Node K C) (ab ba : C) (task channel : ℕ) (p : Bytes) (rest : List (IrohEvent K))
      → IsPeered keys.eq na.core nb.core (remote_id ba) (remote_id ab)
      → IsBytes p
      → MayLeave keys.eq na.core p
      → addr_of p 16 ≡ nb.core.ipv4_addr
      → view keys.eq na.core (remote_id ab) ≡ some up
      → state_of keys remote_id na.iroh (remote_id ab) ≡ some (connected task ab channel)
      → length na.out.to_iroh < intermod_channel_capacity
      → length nb.out.to_tun < intermod_channel_capacity
      → (turn keys remote_id na (host_packet p) ≡ returns (with_send na p (remote_id ab)))
        × (handle_core_event keys remote_id na.iroh (send_packet_to p (remote_id ab))
            ≡ (na.iroh, try_send channel p ∷ []))
        × (on_peer_connected remote_id is_too_large ab (from_channel (some (p, ok tt)) ∷ [])
            ≡ send_datagram p ∷ [])
        × (on_peer_connected remote_id is_too_large ba (read_datagram (ok p) ∷ [])
            ≡ offer_to_coord (recv_packet_from p (remote_id ba)) ∷ [])
        × (coord_turn keys remote_id nb (recv_packet_from p (remote_id ba) ∷ rest)
            ≡ returns (with_write nb p rest))
  unfolding turn handle_packet_from_tun handle_event handle_actions handle_action handle_core_event
      on_send on_peer_connected coord_turn handle_iroh_event map_iroh_event_to_core_event
  packet-crosses na nb ab ba task channel p rest h bytes m d linked held room_a room_b =
      let (sent, got) =
        process-crosses keys.eq na.core nb.core (remote_id ba) (remote_id ab) p h bytes m d
          linked in
      let free_a : ltb (length na.out.to_iroh) intermod_channel_capacity ≡ true = ground arith in
      let free_b : ltb (length nb.out.to_tun) intermod_channel_capacity ≡ true = ground arith in
      (
        rw sent (rw (free_a, handle_actions, handle_action) refl),
        ap (on_send keys remote_id na.iroh p) held,
        refl,
        refl,
        rw got (rw (free_b, handle_actions, handle_action) refl),
      )
