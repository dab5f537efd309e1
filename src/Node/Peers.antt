-- ===== src/Node/Peers.antt =====
-- The manager's table as the rest of the node needs it: whom it has an entry for.
use mathlib.Core.Path.{fun_ext}
use peer_to_peer_decentraliz.Base.{
  ℕ, suc, ◌≡◌, refl, ap, Bool, true, Option, none, some, is_some, List, get-insert, Bool-cases, inl,
  inr, arith, All, Result, ok, err,
}
use peer_to_peer_decentraliz.Transport.{
  KeyOrder, ConnectionState, connected, connecting, waiting_incoming_connection, CoreAction,
  ConnectionEvent, outgoing_connection, incoming_connection, internal_error, Iroh, Handled,
  state_of, set_state, init_new_connection, init_ready_connection,
}
use peer_to_peer_decentraliz.Transport.Handlers.{
  on_outgoing, on_incoming, on_disconnected, on_send, handle_conn_event, handle_core_event,
}
use peer_to_peer_decentraliz.Transport.Announcements.{sent_events, sent_events-dropped}
use peer_to_peer_decentraliz.Node.Views.{Reported, IsSend}

module _ {K C : Type 0} (keys : KeyOrder K) (remote_id : C → K) where
  abbrev pub present : Iroh K C → K → Bool
  present st k = is_some (state_of keys remote_id st k)

  -- The entries stay where they are, and the events concern peers that have one.
  abbrev pub Settled : Iroh K C → Handled K C → Type 0
  Settled st r = (present r.0 ≡ present st) × All (Reported (present st)) (sent_events r.1)

  present-set_state :
      (st : Iroh K C) (k : K) (s : ConnectionState C)
      → present st k ≡ true
      → present (set_state keys remote_id st k s).0 ≡ present st
  unfolding set_state
  present-set_state st k s h = fun_ext λ j. ground (arith, get-insert keys.eq j k s st.state_table)

  set_state-Settled :
      (st : Iroh K C) (k : K) (s : ConnectionState C)
      → present st k ≡ true
      → Settled st (set_state keys remote_id st k s)
  set_state-Settled st k s h = (
    present-set_state st k s h,
    unfold set_state in rw (sent_events-dropped {K = K} (state_of keys remote_id st k)) tt,
  )

  init_new_connection-Settled :
      (st : Iroh K C) (k : K)
      → present st k ≡ true
      → Settled st (init_new_connection keys remote_id st k)
  unfolding init_new_connection
  init_new_connection-Settled st k h = elim (Bool-cases (keys.lt st.id k)) [
    | inl l ↦ rw l (set_state-Settled st k waiting_incoming_connection h)
    | inr l ↦
        rw l (set_state-Settled (record st { tasks = suc st.tasks }) k (connecting st.tasks) h)
  ]

  init_ready_connection-Settled :
      (st : Iroh K C) (conn : C)
      → present st (remote_id conn) ≡ true
      → Settled st (init_ready_connection keys remote_id st conn)
  unfolding init_ready_connection
  init_ready_connection-Settled st conn h =
      let (same, silent) =
        set_state-Settled (record st { tasks = suc st.tasks; channels = suc st.channels })
          (remote_id conn) (connected st.tasks conn st.channels) h in
      (same, (h, silent))

  on_outgoing-Settled :
      (st : Iroh K C) (conn : C) (s : Option (ConnectionState C))
      → state_of keys remote_id st (remote_id conn) ≡ s
      → Settled st (on_outgoing keys remote_id st conn s)
  unfolding on_outgoing
  on_outgoing-Settled st conn (some (connecting t)) e =
      init_ready_connection-Settled st conn (ap is_some e)
  on_outgoing-Settled st conn (some (connected t c ch)) e =
      init_ready_connection-Settled st conn (ap is_some e)
  on_outgoing-Settled st conn (some waiting_incoming_connection) e = (refl, tt)
  on_outgoing-Settled st conn (some ConnectionState.disconnected) e = (refl, tt)
  on_outgoing-Settled st conn none e = (refl, tt)

  on_incoming-Settled :
      (st : Iroh K C) (conn : C) (s : Option (ConnectionState C))
      → state_of keys remote_id st (remote_id conn) ≡ s
      → Settled st (on_incoming keys remote_id st conn s)
  unfolding on_incoming
  on_incoming-Settled st conn (some waiting_incoming_connection) e =
      init_ready_connection-Settled st conn (ap is_some e)
  on_incoming-Settled st conn (some (connected t c ch)) e =
      init_ready_connection-Settled st conn (ap is_some e)
  on_incoming-Settled st conn (some (connecting t)) e = (refl, tt)
  on_incoming-Settled st conn (some ConnectionState.disconnected) e = (refl, tt)
  on_incoming-Settled st conn none e = (refl, tt)

  on_disconnected-Settled :
      (st : Iroh K C) (k : K) (s : Option (ConnectionState C))
      → state_of keys remote_id st k ≡ s
      → Settled st (on_disconnected keys remote_id st k s)
  unfolding on_disconnected
  on_disconnected-Settled st k (some (connected t c ch)) e =
      let (same, silent) = init_new_connection-Settled st k (ap is_some e) in
      (same, (ap is_some e, silent))
  on_disconnected-Settled st k (some (connecting t)) e = (refl, tt)
  on_disconnected-Settled st k (some waiting_incoming_connection) e = (refl, tt)
  on_disconnected-Settled st k (some ConnectionState.disconnected) e = (refl, tt)
  on_disconnected-Settled st k none e = (refl, tt)

  abbrev pub SettledOk : Iroh K C → Result (Handled K C) (Unit {0}) → Type 0
  SettledOk st (ok r) = Settled st r
  SettledOk st (err _) = Unit {0}

  pub handle_conn_event-Settled :
      (st : Iroh K C) (e : ConnectionEvent K C)
      → SettledOk st (handle_conn_event keys remote_id st e)
  unfolding handle_conn_event
  handle_conn_event-Settled st (outgoing_connection conn) = on_outgoing-Settled st conn _ refl
  handle_conn_event-Settled st (incoming_connection conn) = on_incoming-Settled st conn _ refl
  handle_conn_event-Settled st (ConnectionEvent.disconnected k) =
      on_disconnected-Settled st k _ refl
  handle_conn_event-Settled st internal_error = tt

  on_send-Settled :
      (st : Iroh K C) (p : List ℕ) (s : Option (ConnectionState C))
      → Settled st (on_send keys remote_id st p s)
  unfolding on_send
  on_send-Settled st p (some (connected t c ch)) = (refl, tt)
  on_send-Settled st p (some (connecting t)) = (refl, tt)
  on_send-Settled st p (some waiting_incoming_connection) = (refl, tt)
  on_send-Settled st p (some ConnectionState.disconnected) = (refl, tt)
  on_send-Settled st p none = (refl, tt)

  pub handle_core_event-Settled :
      (st : Iroh K C) (a : CoreAction K)
      → IsSend a
      → Settled st (handle_core_event keys remote_id st a)
  unfolding handle_core_event
  handle_core_event-Settled st (CoreAction.send_packet_to p k) h = on_send-Settled st p _
  handle_core_event-Settled st (CoreAction.connect_to_peer k) h = absurd h
  handle_core_event-Settled st (CoreAction.disconnect_from_peer k) h = absurd h
