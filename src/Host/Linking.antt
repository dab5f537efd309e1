-- ===== src/Host/Linking.antt =====
-- A host that has just started, when the connection with a peer is there.
use mathlib.Core.Path.{ap₂}
use peer_to_peer_decentraliz.Base.{
  err, ◌>>=◌, ◌≡◌, refl, sym, ap, subst, ◌∙◌, true, some, List, [], ◌∷◌, ◌++◌, get, if◌then◌else◌,
  inl, inr, ok, returns, Returns, Returns-bind, arith,
}
use peer_to_peer_decentraliz.Packet.{Ipv4Addr, Ipv4Addr-discrete}
use peer_to_peer_decentraliz.Vpn.{Action, peer_connected, process}
use peer_to_peer_decentraliz.Vpn.Invariant.{IsValid, SameConfig}
use peer_to_peer_decentraliz.Vpn.Refinement.{Links, view, update, up, down, on_link, process-both}
use peer_to_peer_decentraliz.Vpn.Whitelist.{listed}
use peer_to_peer_decentraliz.Vpn.Order.{view-new}
use peer_to_peer_decentraliz.Transport.{
  KeyOrder, Iroh, connected, connected_to_peer, ConnectionEvent, incoming_connection,
  outgoing_connection, state_of, set_state, init_ready_connection,
}
use peer_to_peer_decentraliz.Transport.Handlers.{handle_conn_event, on_incoming, on_outgoing}
use peer_to_peer_decentraliz.Transport.Announcements.{sent_events, sent_events-dropped}
use peer_to_peer_decentraliz.Transport.Reports.{init-IsSilent}
use peer_to_peer_decentraliz.Transport.Pairs.{Started, init-Started, ready}
use peer_to_peer_decentraliz.Coordinator.{
  Carried, handle_event, handle_iroh_event, handle_actions, map_iroh_event_to_core_event,
}
use peer_to_peer_decentraliz.Node.{
  Node, queues, carried, manager_event, coord_event, coord_turn, turn, start, start_with, key_set,
  final_mtu, reported,
}
use peer_to_peer_decentraliz.Node.Schedules.{start-IsSynced, contains-listed}
use peer_to_peer_decentraliz.Host.{
  Host, Round, inner, create, absent, running, round, rounds, beside,
}

module _ {K C : Type 0} (keys : KeyOrder K) (remote_id : C → K) where
  -- What the tasks report of the connection: the greater key has dialled it.
  abbrev pub arrival : K → C → ConnectionEvent K C
  arrival id conn =
      if keys.lt id (remote_id conn) then incoming_connection conn else outgoing_connection conn

  pub get-listed :
      (table : List (Ipv4Addr × K)) (ip : Ipv4Addr) (k : K)
      → get Ipv4Addr-discrete ip table ≡ some k
      → listed keys.eq table k ≡ true
  unfolding get
  get-listed [] ip k e = cc
  get-listed ((i, j) ∷ table) ip k e = ground (arith, get-listed table ip k)

  arrival-ready :
      (st : Iroh K C) (id : K) (conn : C)
      → Started keys remote_id id (remote_id conn) (state_of keys remote_id st (remote_id conn))
      → handle_conn_event keys remote_id st (arrival id conn)
        ≡ ok (init_ready_connection keys remote_id st conn)
  unfolding handle_conn_event
  arrival-ready st id conn (inl (l, e)) =
      rw l (ap (λ s. ok (on_incoming keys remote_id st conn s)) e)
  arrival-ready st id conn (inr (l, (t, e))) =
      rw l (ap (λ s. ok (on_outgoing keys remote_id st conn s)) e)

  -- What is so once the coordinator knows of the link.
  pub record IsLinked (before : Node K C) (conn : C) (n : Node K C) : Type 0 where
    pub link : view keys.eq n.core (remote_id conn) ≡ some up
    pub held :
        (t : _) × (ch : _) × (state_of keys remote_id n.iroh (remote_id conn)
          ≡ some (connected t conn ch))
    pub config : SameConfig keys.eq before.core n.core
    pub nothing_waits : n.to_coord ≡ []
    pub same_out : n.out ≡ before.out

  coord_turn-IsLinked :
      (before n : Node K C) (conn : C)
      → IsValid keys.eq n.core
      → view keys.eq n.core (remote_id conn) ≡ some (down [])
      → (t : _) × (ch : _) × (state_of keys remote_id n.iroh (remote_id conn)
          ≡ some (connected t conn ch))
      → n.core ≡ before.core
      → n.out ≡ before.out
      → Returns
          (IsLinked before conn)
          (coord_turn keys remote_id n (connected_to_peer (remote_id conn) ∷ []))
  unfolding coord_turn handle_iroh_event handle_event map_iroh_event_to_core_event handle_actions
  coord_turn-IsLinked before n conn v waits held core out =
      let k = remote_id conn in
      let empties : ◌≡◌ {A = Links K × List (Action K)}
          (on_link keys.eq n.core (view keys.eq n.core) (peer_connected k))
          (update keys.eq k up (view keys.eq n.core), []) =
        rw (waits, on_link) refl in
      Returns-bind _ _ (handle_iroh_event keys.eq queues n.core n.out (connected_to_peer k)) _
        (Returns-bind _
          (λ r.
            (view keys.eq r.0 k ≡ some up)
            × SameConfig keys.eq n.core r.0
            × (r.1 ≡ Carried.ok n.out))
          (process keys.eq n.core (peer_connected k)) _
          (process-both keys.eq n.core (peer_connected k) tt v)
          λ r ((_, same), now). (
            ap (λ (x : Links K × List (Action K)). x.0 k) (now ∙ empties) ∙ ground arith,
            same,
            ap (λ (x : Links K × List (Action K)). handle_actions queues n.out x.1) (now ∙ empties),
          ))
        λ r (seen, same, kept). record {
          link = seen;
          held = held;
          config = subst (λ c. SameConfig keys.eq c r.0) core same;
          nothing_waits = refl;
          same_out = ap carried kept ∙ out;
        }

  ready_events :
      (st : Iroh K C) (conn : C)
      → sent_events (init_ready_connection keys remote_id st conn).1
        ≡ connected_to_peer (remote_id conn) ∷ []
  unfolding init_ready_connection set_state
  ready_events st conn =
      ap (λ es. connected_to_peer (remote_id conn) ∷ es)
        (sent_events-dropped {K = K} (state_of keys remote_id st (remote_id conn)))

  module _ (id : K) (ip : Ipv4Addr) (table : List (Ipv4Addr × K)) where
    abbrev pub fresh : Node K C
    fresh = start keys remote_id id ip table

    -- The node behind the report of the connection.
    abbrev told : C → Node K C
    told conn = reported keys remote_id fresh (init_ready_connection keys remote_id fresh.iroh conn)

    fresh-Started :
        (k : K)
        → listed keys.eq table k ≡ true
        → Started keys remote_id id k (state_of keys remote_id fresh.iroh k)
    unfolding start start_with
    fresh-Started k l =
        init-Started keys remote_id id (key_set keys remote_id table []) k
          (contains-listed keys remote_id table k ∙ l)

    fresh_events : fresh.to_coord ≡ []
    unfolding start start_with
    fresh_events = (init-IsSilent keys remote_id id (key_set keys remote_id table [])).1

    fresh_waits :
        (k : K) → listed keys.eq table k ≡ true → view keys.eq fresh.core k ≡ some (down [])
    unfolding start start_with
    fresh_waits k l = view-new keys.eq ip table final_mtu k ∙ ground arith

    manager_event-told :
        (conn : C)
        → listed keys.eq table (remote_id conn) ≡ true
        → turn keys remote_id fresh (manager_event (arrival id conn)) ≡ returns (told conn)
    unfolding turn
    manager_event-told conn l =
        ap (λ x. returns (elim x [ ok r ↦ reported keys remote_id fresh r | err _ ↦ fresh ]))
          (arrival-ready fresh.iroh id conn (fresh-Started (remote_id conn) l))

    coord_event-IsLinked :
        (conn : C)
        → listed keys.eq table (remote_id conn) ≡ true
        → Returns (IsLinked fresh conn) (turn keys remote_id (told conn) coord_event)
    unfolding turn
    coord_event-IsLinked conn l =
        let heard : (told conn).to_coord ≡ connected_to_peer (remote_id conn) ∷ [] =
          ap₂ ◌++◌ fresh_events (ready_events fresh.iroh conn) in
        subst (λ es. Returns (IsLinked fresh conn) (coord_turn keys remote_id (told conn) es))
          (sym heard)
          (coord_turn-IsLinked fresh (told conn) conn
            (start-IsSynced keys remote_id id ip table).valid (fresh_waits (remote_id conn) l)
            (fresh.iroh.tasks, fresh.iroh.channels, ready keys remote_id fresh.iroh conn) refl refl)

    -- A host with its device, once the connection is reported and the coordinator has heard of it.
    pub record IsOpen (conn : C) (h : Host K C) : Type 0 where
      pub linked : IsLinked fresh conn h.node
      pub runs : h.phase ≡ running
      pub none_read : h.from_tun ≡ []
      pub none_written : h.written ≡ []

    abbrev pub opening : C → List (Round K C)
    opening conn = inner (manager_event (arrival id conn)) ∷ inner coord_event ∷ create (ok tt) ∷ []

    pub opening-IsOpen :
        (conn : C)
        → listed keys.eq table (remote_id conn) ≡ true
        → Returns (IsOpen conn) (rounds keys remote_id (beside keys remote_id fresh) (opening conn))
    unfolding rounds round
    opening-IsOpen conn l = rw (manager_event-told conn l) (
        Returns-bind _ _ (turn keys remote_id (told conn) coord_event >>= _) _
          (Returns-bind _
            (λ h.
              IsLinked fresh conn h.node
              × (h.phase ≡ absent)
              × (h.from_tun ≡ [])
              × (h.written ≡ []))
            (turn keys remote_id (told conn) coord_event) _ (coord_event-IsLinked conn l)
            λ n linked. (linked, refl, refl, refl))
          λ h (linked, off, empty, clean). record {
            linked = linked;
            runs = rw off refl;
            none_read = empty;
            none_written = clean;
          })
