-- ===== src/Transport/Directions.antt =====
-- Who opens a connection: the peer with the greater key. A session belongs to the peer of its entry.
use peer_to_peer_decentraliz.Base.{
  suc, ◌≡◌, refl, subst, true, false, Option, none, some, List, [], ◌∷◌, get, get-insert, if_pos,
  if_neg, Bool-cases, inl, inr, Option-cases, Result, Result-cases, ok, err, arith,
}
use peer_to_peer_decentraliz.Packet.{Bytes}
use peer_to_peer_decentraliz.Transport.{
  KeyOrder, ConnectionState, connected, connecting, waiting_incoming_connection, CoreAction,
  send_packet_to, connect_to_peer, disconnect_from_peer, ConnectionEvent, outgoing_connection,
  incoming_connection, internal_error, Iroh, Handled, state_of, set_state, start_connecting,
  init_new_connection, init_ready_connection, new_table, new,
}
use peer_to_peer_decentraliz.Transport.Handlers.{
  Input, from_tasks, from_coord, on_outgoing, on_incoming, on_disconnected, on_connect,
  handle_conn_event, handle_core_event, init_peer, init_peers, init, step, loop, run, on_send,
}

module _ {K C : Type 0} (keys : KeyOrder K) (remote_id : C → K) where
  -- What an entry says of its key.
  abbrev pub Directed : K → K → Option (ConnectionState C) → Type 0
  Directed id k (some waiting_incoming_connection) = keys.lt id k ≡ true
  Directed id k (some (connecting _)) = keys.lt id k ≡ false
  Directed id k (some (connected _ conn _)) = remote_id conn ≡ k
  Directed id k _ = Unit {0}

  -- A node waits only for peers with greater keys, connects only to the others, and holds for each
  -- peer a connection to that peer.
  abbrev pub IsDirected : Iroh K C → Type 0
  IsDirected st = (k : K) → Directed st.id k (state_of keys remote_id st k)

  abbrev Keeps : Iroh K C → Handled K C → Type 0
  Keeps st r = (r.0.id ≡ st.id) × IsDirected r.0

  set_state-Keeps :
      (st : Iroh K C) (k : K) (s : ConnectionState C)
      → IsDirected st
      → Directed st.id k (some s)
      → Keeps st (set_state keys remote_id st k s)
  unfolding set_state
  set_state-Keeps st k s h d = (
    refl,
    λ j. rw (get-insert keys.eq j k s st.state_table) (elim (keys.eq k j) [
      | yes e ↦ rw (if_pos _ e) (subst (λ i. Directed st.id i (some s)) e d)
      | no n ↦ rw (if_neg _ n) (h j)
    ]),
  )

  start_connecting-Keeps :
      (st : Iroh K C) (k : K)
      → IsDirected st
      → keys.lt st.id k ≡ false
      → Keeps st (start_connecting keys remote_id st k)
  unfolding start_connecting
  start_connecting-Keeps st k h l =
      set_state-Keeps (record st { tasks = suc st.tasks }) k (connecting st.tasks) h l

  init_new_connection-Keeps :
      (st : Iroh K C) (k : K) → IsDirected st → Keeps st (init_new_connection keys remote_id st k)
  unfolding init_new_connection
  init_new_connection-Keeps st k h = elim (Bool-cases (keys.lt st.id k)) [
    | inl l ↦ rw l (set_state-Keeps st k waiting_incoming_connection h l)
    | inr l ↦ rw l (start_connecting-Keeps st k h l)
  ]

  init_ready_connection-Keeps :
      (st : Iroh K C) (conn : C)
      → IsDirected st
      → Keeps st (init_ready_connection keys remote_id st conn)
  unfolding init_ready_connection
  init_ready_connection-Keeps st conn h =
      set_state-Keeps (record st { tasks = suc st.tasks; channels = suc st.channels })
        (remote_id conn) (connected st.tasks conn st.channels) h refl

  on_outgoing-Keeps :
      (st : Iroh K C) (conn : C) (s : Option (ConnectionState C))
      → IsDirected st
      → Keeps st (on_outgoing keys remote_id st conn s)
  unfolding on_outgoing
  on_outgoing-Keeps st conn (some (connecting t)) h = init_ready_connection-Keeps st conn h
  on_outgoing-Keeps st conn (some (connected t e c)) h = init_ready_connection-Keeps st conn h
  on_outgoing-Keeps st conn (some waiting_incoming_connection) h = (refl, h)
  on_outgoing-Keeps st conn (some ConnectionState.disconnected) h = (refl, h)
  on_outgoing-Keeps st conn none h = (refl, h)

  on_incoming-Keeps :
      (st : Iroh K C) (conn : C) (s : Option (ConnectionState C))
      → IsDirected st
      → Keeps st (on_incoming keys remote_id st conn s)
  unfolding on_incoming
  on_incoming-Keeps st conn (some waiting_incoming_connection) h =
      init_ready_connection-Keeps st conn h
  on_incoming-Keeps st conn (some (connected t e c)) h = init_ready_connection-Keeps st conn h
  on_incoming-Keeps st conn (some (connecting t)) h = (refl, h)
  on_incoming-Keeps st conn (some ConnectionState.disconnected) h = (refl, h)
  on_incoming-Keeps st conn none h = (refl, h)

  on_disconnected-Keeps :
      (st : Iroh K C) (k : K) (s : Option (ConnectionState C))
      → IsDirected st
      → Keeps st (on_disconnected keys remote_id st k s)
  unfolding on_disconnected
  on_disconnected-Keeps st k (some (connected t e c)) h = init_new_connection-Keeps st k h
  on_disconnected-Keeps st k (some (connecting t)) h = (refl, h)
  on_disconnected-Keeps st k (some waiting_incoming_connection) h = (refl, h)
  on_disconnected-Keeps st k (some ConnectionState.disconnected) h = (refl, h)
  on_disconnected-Keeps st k none h = (refl, h)

  on_send-Keeps :
      (st : Iroh K C) (p : Bytes) (s : Option (ConnectionState C))
      → IsDirected st
      → Keeps st (on_send keys remote_id st p s)
  unfolding on_send
  on_send-Keeps st p (some (connected t e c)) h = (refl, h)
  on_send-Keeps st p (some (connecting t)) h = (refl, h)
  on_send-Keeps st p (some waiting_incoming_connection) h = (refl, h)
  on_send-Keeps st p (some ConnectionState.disconnected) h = (refl, h)
  on_send-Keeps st p none h = (refl, h)

  on_connect-Keeps :
      (st : Iroh K C) (k : K) (s : Option (ConnectionState C))
      → IsDirected st
      → Keeps st (on_connect keys remote_id st k s)
  unfolding on_connect
  on_connect-Keeps st k (some ConnectionState.disconnected) h = init_new_connection-Keeps st k h
  on_connect-Keeps st k (some (connected t e c)) h = (refl, h)
  on_connect-Keeps st k (some (connecting t)) h = (refl, h)
  on_connect-Keeps st k (some waiting_incoming_connection) h = (refl, h)
  on_connect-Keeps st k none h = (refl, h)

  handle_core_event-Keeps :
      (st : Iroh K C) (e : CoreAction K)
      → IsDirected st
      → Keeps st (handle_core_event keys remote_id st e)
  unfolding handle_core_event
  handle_core_event-Keeps st (send_packet_to p k) h = on_send-Keeps st p _ h
  handle_core_event-Keeps st (connect_to_peer k) h = on_connect-Keeps st k _ h
  handle_core_event-Keeps st (disconnect_from_peer k) h =
      set_state-Keeps st k ConnectionState.disconnected h tt

  abbrev KeepsOk : Iroh K C → Result (Handled K C) (Unit {0}) → Type 0
  KeepsOk st (ok r) = Keeps st r
  KeepsOk st (err _) = Unit {0}

  step-Keeps :
      (st : Iroh K C) (i : Input K C) → IsDirected st → KeepsOk st (step keys remote_id st i)
  unfolding step handle_conn_event
  step-Keeps st (from_tasks (some (outgoing_connection conn))) h = on_outgoing-Keeps st conn _ h
  step-Keeps st (from_tasks (some (incoming_connection conn))) h = on_incoming-Keeps st conn _ h
  step-Keeps st (from_tasks (some (ConnectionEvent.disconnected k))) h =
      on_disconnected-Keeps st k _ h
  step-Keeps st (from_tasks (some internal_error)) h = tt
  step-Keeps st (from_tasks none) h = tt
  step-Keeps st (from_coord (some e)) h = handle_core_event-Keeps st e h
  step-Keeps st (from_coord none) h = tt

  loop-IsDirected :
      (st : Iroh K C) (is : List (Input K C))
      → IsDirected st
      → IsDirected (loop keys remote_id st is).0
  unfolding loop
  loop-IsDirected st [] h = h
  loop-IsDirected st (i ∷ is) h = elim (Result-cases (step keys remote_id st i)) [
    | inl (r, e) ↦
        rw (e, loop) (loop-IsDirected r.0 is (subst (KeepsOk st) e (step-Keeps st i h)).1)
    | inr (x, e) ↦ rw (e, loop) h
  ]

  init_peer-Keeps :
      (st : Iroh K C) (k : K) → IsDirected st → Keeps st (init_peer keys remote_id st k)
  unfolding init_peer
  init_peer-Keeps st k h = elim (Bool-cases (keys.lt st.id k)) [
    | inl l ↦ rw l (set_state-Keeps st k waiting_incoming_connection h l)
    | inr l ↦ rw l (start_connecting-Keeps st k h l)
  ]

  init_peers-IsDirected :
      (ks : List K) (st : Iroh K C) → IsDirected st → IsDirected (init_peers keys remote_id ks st).0
  unfolding init_peers
  init_peers-IsDirected [] st h = h
  init_peers-IsDirected (k ∷ ks) st h =
      init_peers-IsDirected ks (init_peer keys remote_id st k).0 (init_peer-Keeps st k h).1

  -- The entries that `new` makes.
  abbrev pub AllDisconnected : List (K × ConnectionState C) → Type 0
  AllDisconnected table =
      (k : K) (s : ConnectionState C)
      → get keys.eq k table ≡ some s
      → s ≡ ConnectionState.disconnected

  pub new_table-disconnected :
      (ks : List K) (table : List (K × ConnectionState C))
      → AllDisconnected table
      → AllDisconnected (new_table keys remote_id ks table)
  unfolding new_table
  new_table-disconnected [] table h = h
  new_table-disconnected (k ∷ ks) table h =
      new_table-disconnected ks _
        (λ j s e. ground (arith, get-insert keys.eq j k ConnectionState.disconnected table, h j s))

  new-IsDirected : (id : K) (peers : List K) → IsDirected (new keys remote_id id peers)
  unfolding new get
  new-IsDirected id peers k =
      elim (Option-cases (get keys.eq k (new_table keys remote_id peers []))) [
        | inl e ↦ rw e tt
        | inr (s, e) ↦ rw (e, new_table-disconnected peers [] (λ j t x. cc) k s e) tt
      ]

  -- In every run of the manager, whatever arrives, a node waits for an incoming connection only from
  -- peers with greater keys, dials only peers whose keys are not greater, and the connection that it
  -- holds for a peer is a connection to that peer.
  pub run-IsDirected :
      (id : K) (peers : List K) (is : List (Input K C))
      → IsDirected (run keys remote_id (new keys remote_id id peers) is).0
  unfolding run init
  run-IsDirected id peers is =
      let st = new keys remote_id id peers in
      loop-IsDirected (init keys remote_id st).0 is
        (init_peers-IsDirected st.peers st (new-IsDirected id peers))
