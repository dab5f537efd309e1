-- ===== src/Network/Accounts.antt =====
-- Every round of a host keeps account of its sessions.
use peer_to_peer_decentraliz.Base.{
  ℕ, ◌≡◌, refl, Option, some, List, [], ◌∷◌, Result, ok, err, returns, panics, ◌>>=◌,
}
use peer_to_peer_decentraliz.Packet.{Bytes, Ipv4Addr}
use peer_to_peer_decentraliz.Transport.{KeyOrder, IrohEvent, CoreAction, ConnectionEvent, Effect}
use peer_to_peer_decentraliz.Transport
use peer_to_peer_decentraliz.Transport.Handlers.{from_tasks, handle_conn_event, step}
use peer_to_peer_decentraliz.Transport.Accounts.{no_session, follow, IsAccounted}
use peer_to_peer_decentraliz.Transport.Live.{
  handle_core_event-Accounts, step-Accounts, AccountsOk, init-Accounts, new-IsAccounted,
}
use peer_to_peer_decentraliz.Coordinator.{handle_iroh_event, handle_packet_from_tun}
use peer_to_peer_decentraliz.Node.{
  Node, Turn, queues, coord_event, host_packet, tun_packet, manager_action, manager_event,
  session_packet, coord_turn, manager_turn, tun_turn, turn, start, start_with, key_set, carried,
  reported,
}
use peer_to_peer_decentraliz.Tun.{ErrorKind}
use peer_to_peer_decentraliz.Host.{
  Phase, absent, running, finished, writer_left, reader_left, Host, Round, inner, take_packet,
  create, reader_reads, writer_writes, stop_seen, writes, writer_turn, reader_turn, take_turn,
  round,
}
use peer_to_peer_decentraliz.Host.Rounds.{Wherever}
use peer_to_peer_decentraliz.Network.{performed, ordered, first_sessions}

module _ {K C : Type 0} (keys : KeyOrder K) (remote_id : C → K) where
  abbrev Keeps : (ℕ → Option K) → Node K C → Type 0
  Keeps live n = IsAccounted keys remote_id live n.iroh

  coord_turn-Keeps :
      (live : ℕ → Option K) (n : Node K C) (es : List (IrohEvent K))
      → Keeps live n
      → Wherever (Keeps live) (coord_turn keys remote_id n es)
  unfolding coord_turn
  coord_turn-Keeps live n [] h = h
  coord_turn-Keeps live n (e ∷ rest) h =
      elim (handle_iroh_event keys.eq queues n.core n.out e)
        as (λ m.
          Wherever (Keeps live)
            (m >>= λ r. returns (record n { core = r.0; out = carried r.1; to_coord = rest }))) [
              | returns r ↦ h
              | panics ↦ tt
            ]

  host_packet-Keeps :
      (live : ℕ → Option K) (n : Node K C) (p : Bytes)
      → Keeps live n
      → Wherever (Keeps live) (turn keys remote_id n (host_packet p))
  unfolding turn
  host_packet-Keeps live n p h =
      elim (handle_packet_from_tun keys.eq queues n.core n.out p)
        as (λ m.
          Wherever (Keeps live) (m >>= λ r. returns (record n { core = r.0; out = carried r.1 }))) [
            | returns r ↦ h
            | panics ↦ tt
          ]

  manager_turn-Keeps :
      (live : ℕ → Option K) (n : Node K C) (actions : List (CoreAction K))
      → Keeps live n
      → Keeps
          (follow keys remote_id live (ordered keys remote_id n actions))
          (manager_turn keys remote_id n actions)
  unfolding manager_turn
  manager_turn-Keeps live n [] h = h
  manager_turn-Keeps live n (a ∷ rest) h = handle_core_event-Accounts keys remote_id live n.iroh a h

  manager_event-Keeps :
      (live : ℕ → Option K) (n : Node K C) (e : ConnectionEvent K C)
      → Keeps live n
      → Wherever
          (Keeps
            (follow keys remote_id live (performed keys remote_id n (inner (manager_event e)))))
          (turn keys remote_id n (manager_event e))
  unfolding turn step
  manager_event-Keeps live n e h =
      elim (handle_conn_event keys remote_id n.iroh e)
          as (λ m.
            AccountsOk keys remote_id live m
            → Keeps
                (follow keys remote_id live
                  (elim m as (λ _. List (Effect K C)) [ ok r ↦ r.1 | err _ ↦ [] ]))
                (elim m as (λ _. Node K C) [ ok r ↦ reported keys remote_id n r | err _ ↦ n ])) [
                  | ok r ↦ λ kept. kept
                  | err _ ↦ λ _. h
                ]
        (step-Accounts keys remote_id live n.iroh (from_tasks (some e)) h)

  turn-Keeps :
      (live : ℕ → Option K) (n : Node K C) (t : Turn K C)
      → Keeps live n
      → Wherever
          (Keeps (follow keys remote_id live (performed keys remote_id n (inner t))))
          (turn keys remote_id n t)
  unfolding turn tun_turn
  turn-Keeps live n coord_event h = coord_turn-Keeps live n n.to_coord h
  turn-Keeps live n (host_packet p) h = host_packet-Keeps live n p h
  turn-Keeps live n tun_packet h = tun_turn-Keeps live n n.out.to_tun h
    where
      tun_turn-Keeps :
          (live : ℕ → Option K) (n : Node K C) (ps : List Bytes)
          → Keeps live n
          → Keeps live (tun_turn keys remote_id n ps)
      tun_turn-Keeps live n [] h = h
      tun_turn-Keeps live n (p ∷ ps) h = h
  turn-Keeps live n manager_action h = manager_turn-Keeps live n n.out.to_iroh h
  turn-Keeps live n (manager_event e) h = manager_event-Keeps live n e h
  turn-Keeps live n (session_packet p k) h = h

  abbrev pub Accounted : (ℕ → Option K) → Host K C → Type 0
  Accounted live h = Keeps live h.node

  reader_turn-Accounted :
      (live : ℕ → Option K) (h : Host K C) (phase : Phase) (r : Result Bytes ErrorKind)
      → Accounted live h
      → Accounted live (reader_turn keys remote_id h phase r)
  unfolding reader_turn
  reader_turn-Accounted live h running r s = s
  reader_turn-Accounted live h (reader_left _) r s = s
  reader_turn-Accounted live h (writer_left _) r s = s
  reader_turn-Accounted live h absent r s = s
  reader_turn-Accounted live h finished r s = s

  writes-Accounted :
      (live : ℕ → Option K) (h : Host K C) (ps : List Bytes) (r : Result (Unit {0}) ErrorKind)
      → h.node.out.to_tun ≡ ps
      → Accounted live h
      → Accounted live (writes keys remote_id h ps r)
  unfolding tun_turn
  writes-Accounted live h [] r e s = s
  writes-Accounted live h (p ∷ ps) r e s = rw e s

  writer_turn-Accounted :
      (live : ℕ → Option K) (h : Host K C) (phase : Phase) (r : Result (Unit {0}) ErrorKind)
      → Accounted live h
      → Accounted live (writer_turn keys remote_id h phase r)
  unfolding writer_turn
  writer_turn-Accounted live h running r s = writes-Accounted live h h.node.out.to_tun r refl s
  writer_turn-Accounted live h (writer_left _) r s =
      writes-Accounted live h h.node.out.to_tun r refl s
  writer_turn-Accounted live h (reader_left _) r s = s
  writer_turn-Accounted live h absent r s = s
  writer_turn-Accounted live h finished r s = s

  take_turn-Accounted :
      (live : ℕ → Option K) (h : Host K C) (ps : List Bytes)
      → Accounted live h
      → Wherever (Accounted live) (take_turn keys remote_id h ps)
  unfolding take_turn
  take_turn-Accounted live h [] s = s
  take_turn-Accounted live h (p ∷ ps) s =
      elim (turn keys remote_id h.node (host_packet p))
          as (λ m.
            Wherever (Keeps live) m
            → Wherever (Accounted live)
                (m >>= λ n. returns (record h { node = n; from_tun = ps }))) [
                  | returns n ↦ λ k. k
                  | panics ↦ λ k. k
                ]
        (host_packet-Keeps live h.node p s)

  pub round-Accounted :
      (live : ℕ → Option K) (h : Host K C) (r : Round K C)
      → Accounted live h
      → Wherever
          (Accounted (follow keys remote_id live (performed keys remote_id h.node r)))
          (round keys remote_id h r)
  unfolding round
  round-Accounted live h (inner t) s =
      elim (turn keys remote_id h.node t)
          as (λ m.
            Wherever
              (Keeps (follow keys remote_id live (performed keys remote_id h.node (inner t)))) m
            → Wherever
                (Accounted (follow keys remote_id live (performed keys remote_id h.node (inner t))))
                (m >>= λ n. returns (record h { node = n }))) [
                  | returns n ↦ λ k. k
                  | panics ↦ λ k. k
                ]
        (turn-Keeps live h.node t s)
  round-Accounted live h take_packet s = take_turn-Accounted live h h.from_tun s
  round-Accounted live h (create r) s = s
  round-Accounted live h (reader_reads r) s = reader_turn-Accounted live h h.phase r s
  round-Accounted live h (writer_writes r) s = writer_turn-Accounted live h h.phase r s
  round-Accounted live h stop_seen s = s

  pub started-Keeps :
      (k : K) (ip : Ipv4Addr) (table : List (Ipv4Addr × K))
      → Keeps (first_sessions keys remote_id k table) (start keys remote_id k ip table)
  unfolding start start_with
  started-Keeps k ip table =
      let set = key_set keys remote_id table [] in
      init-Accounts keys remote_id (no_session keys remote_id) (Transport.new keys remote_id k set)
        (new-IsAccounted keys remote_id k set)
