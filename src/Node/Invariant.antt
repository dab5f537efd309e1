-- ===== src/Node/Invariant.antt =====
-- What ties the router of a node to its connection manager, across the channels between them.
use peer_to_peer_decentraliz.Base.{
  ◌≡◌, refl, sym, ap, subst, ◌∙◌, Bool, List, [], ◌∷◌, ◌++◌, ltb, length, Bool-cases, Result-cases,
  inl, inr, All, Returns, Returns-bind,
}
use peer_to_peer_decentraliz.Packet.{Bytes}
use peer_to_peer_decentraliz.Packet.Header.{IsBytes}
use peer_to_peer_decentraliz.Vpn.{VpnCore, Event, packet_from_tun, Action, process}
use peer_to_peer_decentraliz.Vpn.Invariant.{IsValid, IsEvent}
use peer_to_peer_decentraliz.Vpn.Refinement.{Links, view, on_link, process-both}
use peer_to_peer_decentraliz.Vpn.Whitelist.{known, known-on_link}
use peer_to_peer_decentraliz.Transport.{
  KeyOrder, IrohEvent, connected_to_peer, disconnected_from_peer, recv_packet_from, CoreAction,
  ConnectionEvent, Handled,
}
use peer_to_peer_decentraliz.Transport.Handlers.{handle_conn_event, handle_core_event}
use peer_to_peer_decentraliz.Transport.Announcements.{
  sent_events, hear, hear-append, linked, Announces, AnnouncesOk, handle_conn_event-Announces,
  handle_core_event-Announces,
}
use peer_to_peer_decentraliz.Coordinator.{
  map_iroh_event_to_core_event, handle_event, handle_iroh_event, handle_packet_from_tun,
}
use peer_to_peer_decentraliz.Node.{
  Queues, queues, carried, Node, Turn, coord_event, host_packet, tun_packet, manager_action,
  manager_event, session_packet, intermod_channel_capacity, reported, coord_turn, manager_turn,
  tun_turn, turn,
}
use peer_to_peer_decentraliz.Node.Views.{
  Reported-Concerned, ups, IsPlain, IsSend, Concerned, on_link-IsPlain, tun-IsPlain, on_link-hear,
  tun-ups, carried-IsSend, All-snoc,
}
use peer_to_peer_decentraliz.Node.Peers.{
  present, Settled, SettledOk, handle_conn_event-Settled, handle_core_event-Settled,
}

-- The packets of a turn are sequences of octets.
abbrev pub IsTurn : {K C : Type 0} → Turn K C → Type 0
IsTurn (host_packet p) = IsBytes p
IsTurn (session_packet p k) = IsBytes p
IsTurn _ = Unit {0}

module _ {K C : Type 0} (keys : KeyOrder K) (remote_id : C → K) where
  pub record IsSynced (n : Node K C) : Type 0 where
    pub valid : IsValid keys.eq n.core
    -- the router and the manager know the same peers
    pub peers_agree : known keys.eq (view keys.eq n.core) ≡ present keys remote_id n.iroh
    -- once it has taken its events, the router will know the links that the manager holds
    pub links_agree :
        hear keys.eq (ups (view keys.eq n.core)) n.to_coord ≡ linked keys remote_id n.iroh
    -- those events concern known peers
    pub concerned : All (Concerned (present keys remote_id n.iroh)) n.to_coord
    -- the manager is asked for nothing but packets
    pub sends : All IsSend n.out.to_iroh

  abbrev Agrees : VpnCore K → Event K → VpnCore K → Queues K → Type 0
  Agrees c ev d q =
      IsValid keys.eq d
      × (view keys.eq d ≡ (on_link keys.eq c (view keys.eq c) ev).0)
      × All IsSend q.to_iroh

  handle_event-Agrees :
      (c : VpnCore K) (q : Queues K) (ev : Event K)
      → IsEvent keys.eq ev
      → IsValid keys.eq c
      → All IsSend q.to_iroh
      → All IsPlain (on_link keys.eq c (view keys.eq c) ev).1
      → Returns (λ r. Agrees c ev r.0 (carried r.1)) (handle_event keys.eq queues c q ev)
  unfolding handle_event
  handle_event-Agrees c q ev b v s plain =
      Returns-bind _ _ (process keys.eq c ev) _ (process-both keys.eq c ev b v) λ r ((w, _), now). (
        w,
        ap (λ (x : Links K × List (Action K)). x.0) now,
        carried-IsSend r.1 q
            (subst (λ (x : Links K × List (Action K)). All IsPlain x.1) (sym now) plain) s,
      )

  pub IsEvent-map :
      (f : K → Bool) (e : IrohEvent K)
      → Concerned f e
      → IsEvent keys.eq (map_iroh_event_to_core_event e)
  unfolding map_iroh_event_to_core_event
  IsEvent-map f (connected_to_peer k) h = tt
  IsEvent-map f (disconnected_from_peer k) h = tt
  IsEvent-map f (recv_packet_from p k) h = h

  coord_turn-IsSynced :
      (n : Node K C) (events : List (IrohEvent K))
      → n.to_coord ≡ events
      → IsSynced n
      → Returns IsSynced (coord_turn keys remote_id n events)
  unfolding coord_turn handle_iroh_event
  coord_turn-IsSynced n [] e s = s
  coord_turn-IsSynced n (ev ∷ rest) e s =
      let v = view keys.eq n.core in
      let told = subst (All (Concerned (present keys remote_id n.iroh))) e s.concerned in
      let known_event : Concerned (known keys.eq v) ev =
        subst (λ f. Concerned f ev) (sym s.peers_agree) told.0 in
      Returns-bind _ _ (handle_event keys.eq queues n.core n.out (map_iroh_event_to_core_event ev))
        _
        (handle_event-Agrees n.core n.out (map_iroh_event_to_core_event ev)
          (IsEvent-map _ ev told.0) s.valid s.sends
          (on_link-IsPlain keys.eq n.core v ev known_event))
        λ r (w, seen, sent). record {
          valid = w;
          peers_agree = ap (known keys.eq) seen ∙ known-on_link keys.eq n.core v _ ∙ s.peers_agree;
          links_agree =
              ap (λ u. hear keys.eq u rest)
                (ap ups seen ∙ on_link-hear keys.eq n.core v ev known_event)
              ∙ sym (hear-append keys.eq (ups v) (ev ∷ []) rest)
              ∙ subst (λ es. hear keys.eq (ups v) es ≡ linked keys remote_id n.iroh) e
                  s.links_agree;
          concerned = told.1;
          sends = sent;
        }

  host_packet-IsSynced :
      (n : Node K C) (p : Bytes)
      → IsBytes p
      → IsSynced n
      → Returns IsSynced (turn keys remote_id n (host_packet p))
  unfolding turn handle_packet_from_tun
  host_packet-IsSynced n p b s =
      let v = view keys.eq n.core in
      Returns-bind _ _ (handle_event keys.eq queues n.core n.out (packet_from_tun p)) _
        (handle_event-Agrees n.core n.out (packet_from_tun p) b s.valid s.sends
          (tun-IsPlain keys.eq n.core v p))
        λ r (w, seen, sent). record {
          valid = w;
          peers_agree =
              ap (known keys.eq) seen
              ∙ known-on_link keys.eq n.core v (packet_from_tun p)
              ∙ s.peers_agree;
          links_agree =
              ap (λ u. hear keys.eq u n.to_coord) (ap ups seen ∙ tun-ups keys.eq n.core v p)
              ∙ s.links_agree;
          concerned = s.concerned;
          sends = sent;
        }

  All-append :
      (f : K → Bool) (xs ys : List (IrohEvent K))
      → All (Concerned f) xs
      → All (Concerned f) ys
      → All (Concerned f) (xs ++ ys)
  All-append f [] ys h k = k
  All-append f (x ∷ xs) ys h k = (h.0, All-append f xs ys h.1 k)

  -- The manager's part: what a handler reports joins the queue.
  reported-IsSynced :
      (n : Node K C) (r : Handled K C)
      → IsSynced n
      → Announces keys remote_id n.iroh r
      → Settled keys remote_id n.iroh r
      → IsSynced (reported keys remote_id n r)
  reported-IsSynced n r s told (same, settled) = record {
    valid = s.valid;
    peers_agree = s.peers_agree ∙ sym same;
    links_agree =
        hear-append keys.eq (ups (view keys.eq n.core)) n.to_coord (sent_events r.1)
        ∙ ap (λ u. hear keys.eq u (sent_events r.1)) s.links_agree
        ∙ told;
    concerned =
        subst (λ f. All (Concerned f) (n.to_coord ++ sent_events r.1)) (sym same)
          (All-append _ n.to_coord (sent_events r.1) s.concerned (Reported-Concerned _ _ settled));
    sends = s.sends;
  }

  manager_turn-IsSynced :
      (n : Node K C) (actions : List (CoreAction K))
      → n.out.to_iroh ≡ actions
      → IsSynced n
      → IsSynced (manager_turn keys remote_id n actions)
  unfolding manager_turn
  manager_turn-IsSynced n [] e s = s
  manager_turn-IsSynced n (a ∷ rest) e s =
      let sends = subst (All IsSend) e s.sends in
      let next : Node K C = record n { out = record (n.out) { to_iroh = rest } } in
      let taken : IsSynced next = record {
        valid = s.valid;
        peers_agree = s.peers_agree;
        links_agree = s.links_agree;
        concerned = s.concerned;
        sends = sends.1;
      } in
      reported-IsSynced next (handle_core_event keys remote_id n.iroh a) taken
        (handle_core_event-Announces keys remote_id n.iroh a)
        (handle_core_event-Settled keys remote_id n.iroh a sends.0)

  tun_turn-IsSynced :
      (n : Node K C) (packets : List Bytes)
      → IsSynced n
      → IsSynced (tun_turn keys remote_id n packets)
  unfolding tun_turn
  tun_turn-IsSynced n [] s = s
  tun_turn-IsSynced n (p ∷ rest) s = record {
    valid = s.valid;
    peers_agree = s.peers_agree;
    links_agree = s.links_agree;
    concerned = s.concerned;
    sends = s.sends;
  }

  manager_event-IsSynced :
      (n : Node K C) (e : ConnectionEvent K C)
      → IsSynced n
      → Returns IsSynced (turn keys remote_id n (manager_event e))
  unfolding turn
  manager_event-IsSynced n e s = elim (Result-cases (handle_conn_event keys remote_id n.iroh e)) [
    | inl (r, f) ↦ rw f (
        reported-IsSynced n r s
          (subst (AnnouncesOk keys remote_id n.iroh) f
            (handle_conn_event-Announces keys remote_id n.iroh e))
          (subst (SettledOk keys remote_id n.iroh) f
            (handle_conn_event-Settled keys remote_id n.iroh e)))
    | inr (x, f) ↦ rw f s
  ]

  session_packet-IsSynced :
      (n : Node K C) (p : Bytes) (k : K)
      → IsBytes p
      → IsSynced n
      → Returns IsSynced (turn keys remote_id n (session_packet p k))
  unfolding turn
  session_packet-IsSynced n p k b s =
      elim (Bool-cases (ltb (length n.to_coord) intermod_channel_capacity)) [
        | inl room ↦ rw room (record {
          valid = s.valid;
          peers_agree = s.peers_agree;
          links_agree =
              hear-append keys.eq (ups (view keys.eq n.core)) n.to_coord _ ∙ s.links_agree;
          concerned = All-snoc _ n.to_coord (recv_packet_from p k) s.concerned b;
          sends = s.sends;
        })
        | inr busy ↦ rw busy (record {
          valid = s.valid;
          peers_agree = s.peers_agree;
          links_agree = s.links_agree;
          concerned = s.concerned;
          sends = s.sends;
        })
      ]

  -- Whichever task runs next, it does not panic, and it keeps the router and the manager in step:
  -- the same peers, links that agree once the router has taken the events under way to it, and
  -- nothing but packets on the way to the manager.
  pub turn-IsSynced :
      (n : Node K C) (t : Turn K C)
      → IsTurn t
      → IsSynced n
      → Returns IsSynced (turn keys remote_id n t)
  unfolding turn
  turn-IsSynced n coord_event b s = coord_turn-IsSynced n n.to_coord refl s
  turn-IsSynced n (host_packet p) b s = host_packet-IsSynced n p b s
  turn-IsSynced n tun_packet b s = tun_turn-IsSynced n n.out.to_tun s
  turn-IsSynced n manager_action b s = manager_turn-IsSynced n n.out.to_iroh refl s
  turn-IsSynced n (manager_event e) b s = manager_event-IsSynced n e s
  turn-IsSynced n (session_packet p k) b s = session_packet-IsSynced n p k b s
