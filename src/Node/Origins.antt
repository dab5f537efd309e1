-- ===== src/Node/Origins.antt =====
-- Where the packets come from that a node sends to its peers and writes to its host.
use peer_to_peer_decentraliz.Base.{
  ◌≡◌, refl, sym, subst, Bool, List, [], ◌∷◌, ltb, length, get, All, Option-cases, Bool-cases,
  Result-cases, inl, inr, Returns, Returns-bind, Returns-both, Returns-mono, arith,
}
use peer_to_peer_decentraliz.Packet.{Bytes, Ipv4Addr}
use peer_to_peer_decentraliz.Vpn.{VpnCore, packet_from_tun, new, new_peers}
use peer_to_peer_decentraliz.Vpn.Invariant.{same, new_peers-fresh}
use peer_to_peer_decentraliz.Vpn.Refinement.{view}
use peer_to_peer_decentraliz.Vpn.Origins.{ForHost, IsSourced, QueuesFor, All-append}
use peer_to_peer_decentraliz.Transport.{
  KeyOrder, IrohEvent, connected_to_peer, disconnected_from_peer, recv_packet_from, CoreAction,
  Handled,
}
use peer_to_peer_decentraliz.Transport.Handlers.{handle_conn_event, handle_core_event}
use peer_to_peer_decentraliz.Transport.Announcements.{sent_events}
use peer_to_peer_decentraliz.Transport.Reports.{init-IsSilent}
use peer_to_peer_decentraliz.Coordinator.{
  map_iroh_event_to_core_event, handle_event, handle_iroh_event, handle_packet_from_tun,
}
use peer_to_peer_decentraliz.Node.{
  queues, Node, Turn, coord_event, host_packet, tun_packet, manager_action, manager_event,
  session_packet, intermod_channel_capacity, reported, coord_turn, manager_turn, tun_turn, turn,
  start, start_with, key_set, play, final_mtu,
}
use peer_to_peer_decentraliz.Node.Views.{IsSend, Concerned, Reported, on_link-IsPlain, tun-IsPlain}
use peer_to_peer_decentraliz.Node.Peers.{
  present, SettledOk, handle_conn_event-Settled, handle_core_event-Settled,
}
use peer_to_peer_decentraliz.Node.Invariant.{IsTurn, IsSynced, IsEvent-map, turn-IsSynced}
use peer_to_peer_decentraliz.Node.Schedules.{start-IsSynced}
use peer_to_peer_decentraliz.Node.Channels.{IsBounded}
use peer_to_peer_decentraliz.Node.Owing.{
  Brings, Arrived, Arrived-Reported, IsOutgoing, handle_event-Tracks, IsTraced,
}
use peer_to_peer_decentraliz.Node.Bounds.{turn-IsBounded, start-fits}

module _ {K C : Type 0} (keys : KeyOrder K) (remote_id : C → K) (Given : Bytes → Type 0)
    (Read : Bytes → K → Type 0) (c : VpnCore K) where
  abbrev Traced : Node K C → Type 0
  Traced = IsTraced keys remote_id Given Read c

  sourced :
      (ev : IrohEvent K)
      → Arrived keys remote_id Given Read ev
      → IsSourced keys.eq Given Read c (map_iroh_event_to_core_event ev)
  unfolding map_iroh_event_to_core_event
  sourced (connected_to_peer k) h = tt
  sourced (disconnected_from_peer k) h = tt
  sourced (recv_packet_from p k) h = h

  coord_turn-Traced :
      (n : Node K C) (events : List (IrohEvent K))
      → n.to_coord ≡ events
      → IsSynced keys remote_id n
      → IsBounded n.out
      → Traced n
      → Returns Traced (coord_turn keys remote_id n events)
  unfolding coord_turn handle_iroh_event
  coord_turn-Traced n [] e s b t = t
  coord_turn-Traced n (ev ∷ rest) e s b t =
      let v = view keys.eq n.core in
      let told = subst (All (Concerned (present keys remote_id n.iroh))) e s.concerned in
      let came = subst (All (Arrived keys remote_id Given Read)) e t.arrived in
      Returns-bind _ _ (handle_event keys.eq queues n.core n.out (map_iroh_event_to_core_event ev))
        _
        (handle_event-Tracks keys remote_id Given Read c n.core n.out
          (map_iroh_event_to_core_event ev) (IsEvent-map keys remote_id _ ev told.0) s.valid
          (sourced ev came.0)
          (on_link-IsPlain keys.eq n.core v ev
            (subst (λ f. Concerned f ev) (sym s.peers_agree) told.0))
          b (t.config, t.queues_for, t.owing))
        λ r (config, waiting, owing). record {
          config = config;
          arrived = came.1;
          queues_for = waiting;
          owing = owing;
        }

  -- What the manager reports brings no packets.
  reported-Traced :
      (n : Node K C) (r : Handled K C) (f : K → Bool)
      → All (Reported f) (sent_events r.1)
      → Traced n
      → Traced (reported keys remote_id n r)
  reported-Traced n r f h t = record {
    config = t.config;
    arrived =
        All-append _ n.to_coord (sent_events r.1) t.arrived
          (Arrived-Reported keys remote_id Given Read f (sent_events r.1) h);
    queues_for = t.queues_for;
    owing = t.owing;
  }

  manager_turn-Traced :
      (n : Node K C) (actions : List (CoreAction K))
      → n.out.to_iroh ≡ actions
      → IsSynced keys remote_id n
      → Traced n
      → Traced (manager_turn keys remote_id n actions)
  unfolding manager_turn
  manager_turn-Traced n [] e s t = t
  manager_turn-Traced n (a ∷ rest) e s t =
      let sends = subst (All IsSend) e s.sends in
      let owed = subst (All (IsOutgoing keys remote_id Given Read c)) e t.owing.0 in
      let (_, told) = handle_core_event-Settled keys remote_id n.iroh a sends.0 in
      let next : Node K C = record n { out = record (n.out) { to_iroh = rest } } in
      let taken : Traced next = record {
        config = t.config;
        arrived = t.arrived;
        queues_for = t.queues_for;
        owing = (owed.1, t.owing.1);
      } in
      reported-Traced next (handle_core_event keys remote_id n.iroh a) _ told taken

  tun_turn-Traced :
      (n : Node K C) (packets : List Bytes)
      → n.out.to_tun ≡ packets
      → Traced n
      → Traced (tun_turn keys remote_id n packets)
  unfolding tun_turn
  tun_turn-Traced n [] e t = t
  tun_turn-Traced n (p ∷ rest) e t = record {
    config = t.config;
    arrived = t.arrived;
    queues_for = t.queues_for;
    owing = (t.owing.0, (subst (All (ForHost keys.eq Given Read c)) e t.owing.1).1);
  }

  pub turn-Traced :
      (n : Node K C) (t : Turn K C)
      → IsTurn t
      → Brings keys remote_id Given Read t
      → IsSynced keys remote_id n
      → IsBounded n.out
      → Traced n
      → Returns Traced (turn keys remote_id n t)
  unfolding turn handle_packet_from_tun
  turn-Traced n coord_event h src s b t = coord_turn-Traced n n.to_coord refl s b t
  turn-Traced n (host_packet p) h src s b t =
      Returns-bind _ _ (handle_event keys.eq queues n.core n.out (packet_from_tun p)) _
        (handle_event-Tracks keys remote_id Given Read c n.core n.out (packet_from_tun p) h s.valid
          src (tun-IsPlain keys.eq n.core (view keys.eq n.core) p) b
          (t.config, t.queues_for, t.owing))
        λ r (config, waiting, owing). record {
          config = config;
          arrived = t.arrived;
          queues_for = waiting;
          owing = owing;
        }
  turn-Traced n tun_packet h src s b t = tun_turn-Traced n n.out.to_tun refl t
  turn-Traced n manager_action h src s b t = manager_turn-Traced n n.out.to_iroh refl s t
  turn-Traced n (manager_event e) h src s b t =
      let settled = handle_conn_event-Settled keys remote_id n.iroh e in
      elim (Result-cases (handle_conn_event keys remote_id n.iroh e)) [
        | inl (r, x) ↦
            rw x (reported-Traced n r _ (subst (SettledOk keys remote_id n.iroh) x settled).1 t)
        | inr (_, x) ↦ rw x t
      ]
  turn-Traced n (session_packet p k) h src s b t = record {
    config = t.config;
    arrived = elim (Bool-cases (ltb (length n.to_coord) intermod_channel_capacity)) [
      | inl l ↦ rw l (All-append _ n.to_coord (recv_packet_from p k ∷ []) t.arrived (src, tt))
      | inr l ↦ rw l t.arrived
    ];
    queues_for = t.queues_for;
    owing = t.owing;
  }

  play-Traced :
      (n : Node K C) (ts : List (Turn K C))
      → All IsTurn ts
      → All (Brings keys remote_id Given Read) ts
      → IsSynced keys remote_id n
      → IsBounded n.out
      → Traced n
      → Returns Traced (play keys remote_id n ts)
  unfolding play
  play-Traced n [] h src s b t = t
  play-Traced n (x ∷ ts) h src s b t =
      Returns-bind _ _ (turn keys remote_id n x) _
        (Returns-both _ _ (turn keys remote_id n x) (turn-IsSynced keys remote_id n x h.0 s) (
          Returns-both _ _ (turn keys remote_id n x) (turn-IsBounded keys remote_id n x h.0 s b)
            (turn-Traced n x h.0 src.0 s b t)))
        λ next (s', rest). play-Traced next ts h.1 src.1 s' rest.0 rest.1

module _ {K C : Type 0} (keys : KeyOrder K) (remote_id : C → K) (Given : Bytes → Type 0)
    (Read : Bytes → K → Type 0) where
  new-QueuesFor :
      (ip : Ipv4Addr) (table : List (Ipv4Addr × K))
      → QueuesFor keys.eq Given Read
          (new keys.eq ip table final_mtu)
          (view keys.eq (new keys.eq ip table final_mtu))
  unfolding new get
  new-QueuesFor ip table k queue =
      elim (Option-cases (get keys.eq k (new_peers keys.eq table []))) [
        | inl e ↦ rw e λ h. cc
        | inr (p, e) ↦
            let fresh = new_peers-fresh keys.eq table [] (λ j q x. cc) k p e in
            rw e λ h. let nothing : queue ≡ [] = ground arith in rw nothing tt
      ]

  pub start-Traced :
      (id : K) (ip : Ipv4Addr) (table : List (Ipv4Addr × K))
      → IsTraced keys remote_id Given Read
          (new keys.eq ip table final_mtu)
          (start keys remote_id id ip table)
  unfolding start start_with
  start-Traced id ip table =
      let (_, nothing) = init-IsSilent keys remote_id id (key_set keys remote_id table []) in
      record {
        config = same keys.eq (new keys.eq ip table final_mtu);
        arrived = subst (All (Arrived keys remote_id Given Read)) (sym nothing) tt;
        queues_for = new-QueuesFor ip table;
        owing = (tt, tt);
      }

  -- Nothing enters or leaves a node but what was brought to it and may: let the host's packets have
  -- a property, and the datagrams, with the peers whose sessions read them, another. Then at every
  -- point of every schedule, whatever the channel to the manager holds is a packet of the host that
  -- may leave, for the peer of its route, and whatever the channel to the host holds is a datagram
  -- that may enter from the very peer whose session read it.
  pub play-owing :
      (id : K) (ip : Ipv4Addr) (table : List (Ipv4Addr × K)) (ts : List (Turn K C))
      → All IsTurn ts
      → All (Brings keys remote_id Given Read) ts
      → Returns
          (λ n.
            All
              (IsOutgoing keys remote_id Given Read (new keys.eq ip table final_mtu))
              n.out.to_iroh
            × All (ForHost keys.eq Given Read (new keys.eq ip table final_mtu)) n.out.to_tun)
          (play keys remote_id (start keys remote_id id ip table) ts)
  play-owing id ip table ts h src =
      Returns-mono _ _ (play keys remote_id (start keys remote_id id ip table) ts) (λ n t. t.owing)
        (play-Traced keys remote_id Given Read (new keys.eq ip table final_mtu)
          (start keys remote_id id ip table) ts h src (start-IsSynced keys remote_id id ip table)
          (start-fits keys remote_id id ip table) (start-Traced id ip table))
