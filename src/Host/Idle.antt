-- ===== src/Host/Idle.antt =====
-- A host that has nothing to do, its device up and the link to a peer too: what it does with one
-- packet, after which it has nothing to do again.
use peer_to_peer_decentraliz.Base.{ℕ, ◌≡◌, refl, some, [], ◌∷◌, ◌++◌, ok, returns}
use peer_to_peer_decentraliz.Packet.{Bytes}
use peer_to_peer_decentraliz.Vpn.{VpnCore}
use peer_to_peer_decentraliz.Vpn.Invariant.{SameConfig}
use peer_to_peer_decentraliz.Vpn.Refinement.{view, up}
use peer_to_peer_decentraliz.Transport.{
  KeyOrder, connected, state_of, send_packet_to, recv_packet_from, try_send,
}
use peer_to_peer_decentraliz.Transport.Handlers.{handle_core_event}
use peer_to_peer_decentraliz.Node.{
  Node, session_packet, coord_event, coord_turn, manager_turn, turn, tun_turn,
}
use peer_to_peer_decentraliz.Tun.{after_write}
use peer_to_peer_decentraliz.Host.{Host, inner, running, writer_writes, writer_turn, round, rounds}

module _ {K C : Type 0} (keys : KeyOrder K) (remote_id : C → K) where
  pub record IsIdle (c : VpnCore K) (conn : C) (h : Host K C) : Type 0 where
    pub link : view keys.eq h.node.core (remote_id conn) ≡ some up
    pub held :
        (t : _) × (ch : _) × (state_of keys remote_id h.node.iroh (remote_id conn)
          ≡ some (connected t conn ch))
    pub config : SameConfig keys.eq c h.node.core
    pub no_events : h.node.to_coord ≡ []
    pub no_actions : h.node.out.to_iroh ≡ []
    pub no_packets : h.node.out.to_tun ≡ []
    pub runs : h.phase ≡ running
    pub none_read : h.from_tun ≡ []

  -- The node with a packet for its manager.
  abbrev pub asked : Node K C → Bytes → K → Node K C
  asked n p k = record n { out = record (n.out) { to_iroh = send_packet_to p k ∷ [] } }

  pub manager_turn-asked :
      (n : Node K C) (p : Bytes) (k : K) (channel : ℕ)
      → n.to_coord ≡ []
      → n.out.to_iroh ≡ []
      → handle_core_event keys remote_id n.iroh (send_packet_to p k)
        ≡ (n.iroh, try_send channel p ∷ [])
      → manager_turn keys remote_id (asked n p k) (send_packet_to p k ∷ []) ≡ n
  unfolding manager_turn
  manager_turn-asked n p k channel calm empty e = rw (e, calm, empty) refl

  abbrev pub with_written : Host K C → Bytes → Host K C
  with_written h p = record h { written = h.written ++ (p ∷ []) }

  abbrev pub fed : Node K C → Bytes → Node K C
  fed n p = record n { to_coord = []; out = record (n.out) { to_tun = p ∷ [] } }

  pub receives :
      (h : Host K C) (p : Bytes) (k : K)
      → h.node.to_coord ≡ []
      → h.node.out.to_tun ≡ []
      → h.phase ≡ running
      → coord_turn keys remote_id h.node (recv_packet_from p k ∷ []) ≡ returns (fed h.node p)
      → rounds keys remote_id h
          (inner (session_packet p k) ∷ inner coord_event ∷ writer_writes (ok tt) ∷ [])
        ≡ returns (with_written h p)
  unfolding rounds round turn writer_turn tun_turn after_write
  receives h p k calm empty runs e = rw (calm, e, empty, runs) refl
