-- ===== src/Transport/Live.antt =====
-- The handlers and the loop keep account of the sessions.
use peer_to_peer_decentraliz.Base.{
  suc, ◌≡◌, refl, sym, subst, Option, none, some, List, [], ◌∷◌, ◌++◌, get, Bool-cases,
  Option-cases, inl, inr, Result, Result-cases, ok, err, arith,
}
use peer_to_peer_decentraliz.Packet.{Bytes}
use peer_to_peer_decentraliz.Transport.{
  KeyOrder, ConnectionState, connected, connecting, waiting_incoming_connection, disconnected,
  CoreAction, send_packet_to, connect_to_peer, disconnect_from_peer, ConnectionEvent,
  outgoing_connection, incoming_connection, internal_error, Effect, spawn_accept, Iroh, Handled,
  state_of, set_state, new_table, new,
}
use peer_to_peer_decentraliz.Transport.Handlers.{
  Input, from_tasks, from_coord, on_outgoing, on_incoming, on_disconnected, on_connect,
  handle_conn_event, handle_core_event, release_peer, init_peer, init_peers, init, step, loop,
  on_send,
}
use peer_to_peer_decentraliz.Transport.Directions.{new_table-disconnected}
use peer_to_peer_decentraliz.Transport.Accounts.{
  Live, follow, no_session, IsAccounted, Accounts, follow-append, init_ready_connection-Accounts,
  init_new_connection-Accounts, set_state-Accounts, start_connecting-Accounts,
}

module _ {K C : Type 0} (keys : KeyOrder K) (remote_id : C → K) where
  on_outgoing-Accounts :
      (live : Live keys remote_id) (st : Iroh K C) (conn : C) (s : Option (ConnectionState C))
      → IsAccounted keys remote_id live st
      → Accounts keys remote_id live (on_outgoing keys remote_id st conn s)
  unfolding on_outgoing
  on_outgoing-Accounts live st conn (some (connecting t)) h =
      init_ready_connection-Accounts keys remote_id live st conn h
  on_outgoing-Accounts live st conn (some (connected t e c)) h =
      init_ready_connection-Accounts keys remote_id live st conn h
  on_outgoing-Accounts live st conn (some waiting_incoming_connection) h = h
  on_outgoing-Accounts live st conn (some disconnected) h = h
  on_outgoing-Accounts live st conn none h = h

  on_incoming-Accounts :
      (live : Live keys remote_id) (st : Iroh K C) (conn : C) (s : Option (ConnectionState C))
      → IsAccounted keys remote_id live st
      → Accounts keys remote_id live (on_incoming keys remote_id st conn s)
  unfolding on_incoming
  on_incoming-Accounts live st conn (some waiting_incoming_connection) h =
      init_ready_connection-Accounts keys remote_id live st conn h
  on_incoming-Accounts live st conn (some (connected t e c)) h =
      init_ready_connection-Accounts keys remote_id live st conn h
  on_incoming-Accounts live st conn (some (connecting t)) h = h
  on_incoming-Accounts live st conn (some disconnected) h = h
  on_incoming-Accounts live st conn none h = h

  on_disconnected-Accounts :
      (live : Live keys remote_id) (st : Iroh K C) (k : K) (s : Option (ConnectionState C))
      → IsAccounted keys remote_id live st
      → Accounts keys remote_id live (on_disconnected keys remote_id st k s)
  unfolding on_disconnected
  on_disconnected-Accounts live st k (some (connected t e c)) h =
      init_new_connection-Accounts keys remote_id live st k h
  on_disconnected-Accounts live st k (some (connecting t)) h = h
  on_disconnected-Accounts live st k (some waiting_incoming_connection) h = h
  on_disconnected-Accounts live st k (some disconnected) h = h
  on_disconnected-Accounts live st k none h = h

  on_send-Accounts :
      (live : Live keys remote_id) (st : Iroh K C) (p : Bytes) (s : Option (ConnectionState C))
      → IsAccounted keys remote_id live st
      → Accounts keys remote_id live (on_send keys remote_id st p s)
  unfolding on_send
  on_send-Accounts live st p (some (connected t e c)) h = h
  on_send-Accounts live st p (some (connecting t)) h = h
  on_send-Accounts live st p (some waiting_incoming_connection) h = h
  on_send-Accounts live st p (some disconnected) h = h
  on_send-Accounts live st p none h = h

  on_connect-Accounts :
      (live : Live keys remote_id) (st : Iroh K C) (k : K) (s : Option (ConnectionState C))
      → IsAccounted keys remote_id live st
      → Accounts keys remote_id live (on_connect keys remote_id st k s)
  unfolding on_connect
  on_connect-Accounts live st k (some disconnected) h =
      init_new_connection-Accounts keys remote_id live st k h
  on_connect-Accounts live st k (some (connected t e c)) h = h
  on_connect-Accounts live st k (some (connecting t)) h = h
  on_connect-Accounts live st k (some waiting_incoming_connection) h = h
  on_connect-Accounts live st k none h = h

  follow-release_peer :
      (k : K) (s : Option (ConnectionState C)) (live : Live keys remote_id)
      → follow keys remote_id live (release_peer keys remote_id k s) ≡ live
  unfolding release_peer
  follow-release_peer k (some (connected t e c)) live = refl
  follow-release_peer k (some (connecting t)) live = refl
  follow-release_peer k (some waiting_incoming_connection) live = refl
  follow-release_peer k (some disconnected) live = refl
  follow-release_peer k none live = refl

  after-Accounts :
      (live : Live keys remote_id) (now : List (Effect K C)) (r : Handled K C)
      → Accounts keys remote_id (follow keys remote_id live now) r
      → IsAccounted keys remote_id (follow keys remote_id live (now ++ r.1)) r.0
  after-Accounts live now r h =
      subst (λ l. IsAccounted keys remote_id l r.0)
        (sym (follow-append keys remote_id now r.1 live)) h

  pub handle_core_event-Accounts :
      (live : Live keys remote_id) (st : Iroh K C) (e : CoreAction K)
      → IsAccounted keys remote_id live st
      → Accounts keys remote_id live (handle_core_event keys remote_id st e)
  unfolding handle_core_event
  handle_core_event-Accounts live st (send_packet_to p k) h = on_send-Accounts live st p _ h
  handle_core_event-Accounts live st (connect_to_peer k) h = on_connect-Accounts live st k _ h
  handle_core_event-Accounts live st (disconnect_from_peer k) h =
      let now = release_peer keys remote_id k (state_of keys remote_id st k) in
      after-Accounts live now (set_state keys remote_id st k disconnected) (
        rw (follow-release_peer k (state_of keys remote_id st k) live)
          (set_state-Accounts keys remote_id live st k disconnected h refl))

  abbrev pub AccountsOk : Live keys remote_id → Result (Handled K C) (Unit {0}) → Type 0
  AccountsOk live (ok r) = Accounts keys remote_id live r
  AccountsOk live (err _) = Unit {0}

  pub step-Accounts :
      (live : Live keys remote_id) (st : Iroh K C) (i : Input K C)
      → IsAccounted keys remote_id live st
      → AccountsOk live (step keys remote_id st i)
  unfolding step handle_conn_event
  step-Accounts live st (from_tasks (some (outgoing_connection conn))) h =
      on_outgoing-Accounts live st conn _ h
  step-Accounts live st (from_tasks (some (incoming_connection conn))) h =
      on_incoming-Accounts live st conn _ h
  step-Accounts live st (from_tasks (some (ConnectionEvent.disconnected k))) h =
      on_disconnected-Accounts live st k _ h
  step-Accounts live st (from_tasks (some internal_error)) h = tt
  step-Accounts live st (from_tasks none) h = tt
  step-Accounts live st (from_coord (some e)) h = handle_core_event-Accounts live st e h
  step-Accounts live st (from_coord none) h = tt

  loop-Accounts :
      (live : Live keys remote_id) (st : Iroh K C) (is : List (Input K C))
      → IsAccounted keys remote_id live st
      → Accounts keys remote_id live (loop keys remote_id st is)
  unfolding loop
  loop-Accounts live st [] h = h
  loop-Accounts live st (i ∷ is) h =
      let step_ok = step-Accounts live st i h in
      elim (Result-cases (step keys remote_id st i)) [
        | inl ((next, now), e) ↦
            let kept = subst (AccountsOk live) e step_ok in
            rw (e, loop)
              (after-Accounts live now (loop keys remote_id next is)
                (loop-Accounts (follow keys remote_id live now) next is kept))
        | inr (_, e) ↦ rw (e, loop) h
      ]

  init_peer-Accounts :
      (live : Live keys remote_id) (st : Iroh K C) (k : K)
      → IsAccounted keys remote_id live st
      → Accounts keys remote_id live (init_peer keys remote_id st k)
  unfolding init_peer
  init_peer-Accounts live st k h = elim (Bool-cases (keys.lt st.id k)) [
    | inl l ↦ rw l (set_state-Accounts keys remote_id live st k waiting_incoming_connection h refl)
    | inr l ↦ rw l (start_connecting-Accounts keys remote_id live st k h)
  ]

  init_peers-Accounts :
      (live : Live keys remote_id) (ks : List K) (st : Iroh K C)
      → IsAccounted keys remote_id live st
      → Accounts keys remote_id live (init_peers keys remote_id ks st)
  unfolding init_peers
  init_peers-Accounts live [] st h = h
  init_peers-Accounts live (k ∷ ks) st h =
      let (next, now) = init_peer keys remote_id st k in
      after-Accounts live now (init_peers keys remote_id ks next) (
        init_peers-Accounts (follow keys remote_id live now) ks next
          (init_peer-Accounts live st k h))

  pub init-Accounts :
      (live : Live keys remote_id) (st : Iroh K C)
      → IsAccounted keys remote_id live st
      → Accounts keys remote_id live (init keys remote_id st)
  unfolding init
  init-Accounts live st h =
      let kept = init_peers-Accounts live st.peers st h in
      let (next, now) = init_peers keys remote_id st.peers st in
      let started : Iroh K C = record next { tasks = suc next.tasks } in
      after-Accounts live now (started, spawn_accept next.tasks ∷ [])
        (record { held = kept.held; lives = kept.lives; fresh = kept.fresh })

  pub new-IsAccounted :
      (id : K) (peers : List K)
      → IsAccounted keys remote_id (no_session keys remote_id) (new keys remote_id id peers)
  unfolding new get
  new-IsAccounted id peers =
      let quiet = new_table-disconnected keys remote_id peers [] (λ k s e. cc) in
      record {
        held = λ k n e. cc;
        lives = λ k n e. elim (Option-cases (get keys.eq k (new_table keys remote_id peers []))) [
          | inl x ↦ ground arith
          | inr (s, x) ↦ ground (arith, quiet k s x)
        ];
        fresh = λ n l. refl;
      }
