-- ===== src/Node/Bounds.antt =====
-- What a node holds at most, under every schedule.
use peer_to_peer_decentraliz.Base.{
  ◌≤◌, ◌≡◌, refl, sym, subst, some, List, [], ◌∷◌, length, get, arith, All, Result-cases, inl, inr,
  Returns, Returns-bind, Returns-both, Returns-mono,
}
use peer_to_peer_decentraliz.Packet.{Bytes, Ipv4Addr}
use peer_to_peer_decentraliz.Vpn.{
  VpnCore, PeerState, Event, packet_from_tun, Action, max_packets_in_queue, process,
}
use peer_to_peer_decentraliz.Vpn.Invariant.{IsValid, IsEvent}
use peer_to_peer_decentraliz.Vpn.Refinement.{Links, view, on_link, process-both}
use peer_to_peer_decentraliz.Transport.{KeyOrder, IrohEvent, CoreAction}
use peer_to_peer_decentraliz.Transport.Handlers.{handle_conn_event}
use peer_to_peer_decentraliz.Coordinator.{
  map_iroh_event_to_core_event, handle_event, handle_iroh_event, handle_packet_from_tun,
}
use peer_to_peer_decentraliz.Node.{
  Queues, queues, carried, Node, Turn, coord_event, host_packet, tun_packet, manager_action,
  manager_event, session_packet, coord_turn, manager_turn, tun_turn, turn, start, start_with, play,
  intermod_channel_capacity,
}
use peer_to_peer_decentraliz.Node.Views.{IsPlain, Concerned, on_link-IsPlain, tun-IsPlain}
use peer_to_peer_decentraliz.Node.Invariant.{IsTurn, IsSynced, IsEvent-map, turn-IsSynced}
use peer_to_peer_decentraliz.Node.Schedules.{start-IsSynced}
use peer_to_peer_decentraliz.Node.Peers.{present}
use peer_to_peer_decentraliz.Node.Channels.{IsBounded, handle_actions-IsBounded}

module _ {K C : Type 0} (keys : KeyOrder K) (remote_id : C → K) where
  handle_event-IsBounded :
      (c : VpnCore K) (q : Queues K) (ev : Event K)
      → IsEvent keys.eq ev
      → IsValid keys.eq c
      → All IsPlain (on_link keys.eq c (view keys.eq c) ev).1
      → IsBounded q
      → Returns (λ r. IsBounded (carried r.1)) (handle_event keys.eq queues c q ev)
  unfolding handle_event
  handle_event-IsBounded c q ev b v plain bounded =
      Returns-bind _ _ (process keys.eq c ev) _ (process-both keys.eq c ev b v) λ r (_, now).
        handle_actions-IsBounded r.1 q
          (subst (λ (x : Links K × List (Action K)). All IsPlain x.1) (sym now) plain) bounded

  coord_turn-IsBounded :
      (n : Node K C) (events : List (IrohEvent K))
      → n.to_coord ≡ events
      → IsSynced keys remote_id n
      → IsBounded n.out
      → Returns (λ m. IsBounded m.out) (coord_turn keys remote_id n events)
  unfolding coord_turn handle_iroh_event
  coord_turn-IsBounded n [] e s b = b
  coord_turn-IsBounded n (ev ∷ rest) e s b =
      let v = view keys.eq n.core in
      let told = subst (All (Concerned (present keys remote_id n.iroh))) e s.concerned in
      Returns-bind _ _ (handle_event keys.eq queues n.core n.out (map_iroh_event_to_core_event ev))
        _
        (handle_event-IsBounded n.core n.out (map_iroh_event_to_core_event ev)
          (IsEvent-map keys remote_id _ ev told.0) s.valid
          (on_link-IsPlain keys.eq n.core v ev
            (subst (λ f. Concerned f ev) (sym s.peers_agree) told.0))
          b)
        λ r w. w

  manager_turn-IsBounded :
      (n : Node K C) (actions : List (CoreAction K))
      → n.out.to_iroh ≡ actions
      → IsBounded n.out
      → IsBounded (manager_turn keys remote_id n actions).out
  unfolding manager_turn
  manager_turn-IsBounded n [] e b = b
  manager_turn-IsBounded n (a ∷ rest) e b = record {
    iroh_fits = omega (arith, subst (λ l. length l ≤ intermod_channel_capacity) e b.iroh_fits);
    tun_fits = b.tun_fits;
  }

  tun_turn-IsBounded :
      (n : Node K C) (packets : List Bytes)
      → n.out.to_tun ≡ packets
      → IsBounded n.out
      → IsBounded (tun_turn keys remote_id n packets).out
  unfolding tun_turn
  tun_turn-IsBounded n [] e b = b
  tun_turn-IsBounded n (p ∷ rest) e b = record {
    iroh_fits = b.iroh_fits;
    tun_fits = omega (arith, subst (λ l. length l ≤ intermod_channel_capacity) e b.tun_fits);
  }

  pub turn-IsBounded :
      (n : Node K C) (t : Turn K C)
      → IsTurn t
      → IsSynced keys remote_id n
      → IsBounded n.out
      → Returns (λ m. IsBounded m.out) (turn keys remote_id n t)
  unfolding turn handle_packet_from_tun
  turn-IsBounded n coord_event h s b = coord_turn-IsBounded n n.to_coord refl s b
  turn-IsBounded n (host_packet p) h s b =
      Returns-bind _ _ (handle_event keys.eq queues n.core n.out (packet_from_tun p)) _
        (handle_event-IsBounded n.core n.out (packet_from_tun p) h s.valid
          (tun-IsPlain keys.eq n.core (view keys.eq n.core) p) b)
        λ r w. w
  turn-IsBounded n tun_packet h s b = tun_turn-IsBounded n n.out.to_tun refl b
  turn-IsBounded n manager_action h s b = manager_turn-IsBounded n n.out.to_iroh refl b
  turn-IsBounded n (manager_event e) h s b =
      elim (Result-cases (handle_conn_event keys remote_id n.iroh e)) [
        | inl (r, x) ↦ rw x b
        | inr (_, x) ↦ rw x b
      ]
  turn-IsBounded n (session_packet p k) h s b = b

  play-IsBounded :
      (n : Node K C) (ts : List (Turn K C))
      → All IsTurn ts
      → IsSynced keys remote_id n
      → IsBounded n.out
      → Returns (λ m. IsSynced keys remote_id m × IsBounded m.out) (play keys remote_id n ts)
  unfolding play
  play-IsBounded n [] h s b = (s, b)
  play-IsBounded n (t ∷ ts) h s b =
      Returns-bind _ _ (turn keys remote_id n t) _
        (Returns-both _ _ (turn keys remote_id n t) (turn-IsSynced keys remote_id n t h.0 s)
          (turn-IsBounded n t h.0 s b))
        λ next (s', b'). play-IsBounded next ts h.1 s' b'

  pub start-fits :
      (id : K) (ip : Ipv4Addr) (table : List (Ipv4Addr × K))
      → IsBounded (start keys remote_id id ip table).out
  unfolding start start_with
  start-fits id ip table = record { iroh_fits = omega arith; tun_fits = omega arith }

  -- Under every schedule of a started node, whatever the host and the peers send, the channels to
  -- the manager and to the TUN device hold at most 8192 messages each, and the router keeps at most
  -- 1000 packets for each peer.
  pub start-IsBounded :
      (id : K) (ip : Ipv4Addr) (table : List (Ipv4Addr × K)) (ts : List (Turn K C))
      → All IsTurn ts
      → Returns
          (λ n.
            (length n.out.to_iroh ≤ intermod_channel_capacity)
            × (length n.out.to_tun ≤ intermod_channel_capacity)
            × ((k : K) (p : PeerState)
                → get keys.eq k n.core.peers ≡ some p
                → length p.packet_queue ≤ max_packets_in_queue))
          (play keys remote_id (start keys remote_id id ip table) ts)
  start-IsBounded id ip table ts h =
      Returns-mono _ _ (play keys remote_id (start keys remote_id id ip table) ts)
        (λ n (s, b). (b.iroh_fits, b.tun_fits, λ k p e. (s.valid.queued k p e).bounded))
        (play-IsBounded (start keys remote_id id ip table) ts h
          (start-IsSynced keys remote_id id ip table) (start-fits id ip table))
