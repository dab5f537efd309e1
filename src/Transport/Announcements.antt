-- ===== src/Transport/Announcements.antt =====
-- What the coordinator hears of the links, against the state table.
use mathlib.Core.Path.{fun_ext}
use peer_to_peer_decentraliz.Base.{
  suc, ◌≡◌, refl, sym, ap, subst, ◌∙◌, ite, Bool, true, false, Option, none, some, List, [], ◌∷◌,
  ◌++◌, get-insert, Bool-cases, inl, inr, Result, ok, err, arith,
}
use peer_to_peer_decentraliz.Packet.{Bytes}
use peer_to_peer_decentraliz.Transport.{
  KeyOrder, ConnectionState, connected, connecting, waiting_incoming_connection, IrohEvent,
  connected_to_peer, disconnected_from_peer, recv_packet_from, CoreAction, send_packet_to,
  connect_to_peer, disconnect_from_peer, ConnectionEvent, outgoing_connection, incoming_connection,
  internal_error, Effect, send_to_coord, Iroh, Handled, state_of, set_state, init_new_connection,
  init_ready_connection, dropped,
}
use peer_to_peer_decentraliz.Transport.Handlers.{
  Input, from_tasks, from_coord, on_outgoing, on_incoming, on_disconnected, on_connect,
  release_peer, handle_conn_event, handle_core_event, step, on_send,
}

abbrev pub is_up : {C : Type 0} → Option (ConnectionState C) → Bool
is_up (some (connected _ _ _)) = true
is_up _ = false

-- The events that a list of effects sends to the coordinator, in order.
abbrev pub sent_events : {K C : Type 0} → List (Effect K C) → List (IrohEvent K)
sent_events [] = []
sent_events (send_to_coord e ∷ es) = e ∷ sent_events es
sent_events (_ ∷ es) = sent_events es

pub sent_events-append :
    {K C : Type 0} (xs ys : List (Effect K C))
    → sent_events (xs ++ ys) ≡ sent_events xs ++ sent_events ys
sent_events-append [] ys = refl
sent_events-append (x ∷ xs) ys = ground (arith, sent_events-append xs ys)

pub sent_events-dropped :
    {K C : Type 0} (s : Option (ConnectionState C)) → sent_events {K = K} (dropped s) ≡ []
sent_events-dropped (some (connected t c ch)) = refl
sent_events-dropped _ = refl

module _ {K : Type 0} (eq : Discrete K) where
  abbrev pub override : K → Bool → (K → Bool) → K → Bool
  override k b f j = ite (eq k j) b (f j)

  -- Which links are up to somebody who hears the events.
  abbrev pub hear : (K → Bool) → List (IrohEvent K) → K → Bool
  hear f [] = f
  hear f (connected_to_peer k ∷ es) = hear (override k true f) es
  hear f (disconnected_from_peer k ∷ es) = hear (override k false f) es
  hear f (recv_packet_from p k ∷ es) = hear f es

  pub hear-append :
      (f : K → Bool) (xs ys : List (IrohEvent K)) → hear f (xs ++ ys) ≡ hear (hear f xs) ys
  hear-append f [] ys = refl
  hear-append f (connected_to_peer k ∷ xs) ys = hear-append (override k true f) xs ys
  hear-append f (disconnected_from_peer k ∷ xs) ys = hear-append (override k false f) xs ys
  hear-append f (recv_packet_from p k ∷ xs) ys = hear-append f xs ys

module _ {K C : Type 0} (keys : KeyOrder K) (remote_id : C → K) where
  -- The links that the state table holds.
  abbrev pub linked : Iroh K C → K → Bool
  linked st k = is_up (state_of keys remote_id st k)

  abbrev pub Announces : Iroh K C → Handled K C → Type 0
  Announces st r = hear keys.eq (linked st) (sent_events r.1) ≡ linked r.0

  pub linked-set_state :
      (st : Iroh K C) (k : K) (s : ConnectionState C)
      → linked (set_state keys remote_id st k s).0 ≡ override keys.eq k (is_up (some s)) (linked st)
  unfolding set_state
  linked-set_state st k s = fun_ext λ j. ground (arith, get-insert keys.eq j k s st.state_table)

  override_self :
      (st : Iroh K C) (k : K) (b : Bool)
      → linked st k ≡ b
      → override keys.eq k b (linked st) ≡ linked st
  override_self st k b e = fun_ext λ j. ground arith

  -- A written entry is what a hearer of its word holds, since the drop of the old one is silent.
  set_state-hear :
      (st : Iroh K C) (k : K) (s : ConnectionState C)
      → hear keys.eq
          (override keys.eq k (is_up (some s)) (linked st))
          (sent_events (set_state keys remote_id st k s).1)
        ≡ linked (set_state keys remote_id st k s).0
  unfolding set_state
  set_state-hear st k s =
      rw (sent_events-dropped {K = K} (state_of keys remote_id st k))
        (sym (linked-set_state st k s))

  init_new_connection-hear :
      (st : Iroh K C) (k : K)
      → hear keys.eq
          (override keys.eq k false (linked st))
          (sent_events (init_new_connection keys remote_id st k).1)
        ≡ linked (init_new_connection keys remote_id st k).0
  unfolding init_new_connection
  init_new_connection-hear st k = elim (Bool-cases (keys.lt st.id k)) [
    | inl l ↦ rw l (set_state-hear st k waiting_incoming_connection)
    | inr l ↦ rw l (set_state-hear (record st { tasks = suc st.tasks }) k (connecting st.tasks))
  ]

  init_ready_connection-Announces :
      (st : Iroh K C) (conn : C) → Announces st (init_ready_connection keys remote_id st conn)
  unfolding init_ready_connection
  init_ready_connection-Announces st conn =
      set_state-hear (record st { tasks = suc st.tasks; channels = suc st.channels })
        (remote_id conn) (connected st.tasks conn st.channels)

  on_outgoing-Announces :
      (st : Iroh K C) (conn : C) (s : Option (ConnectionState C))
      → Announces st (on_outgoing keys remote_id st conn s)
  unfolding on_outgoing
  on_outgoing-Announces st conn (some (connecting t)) = init_ready_connection-Announces st conn
  on_outgoing-Announces st conn (some (connected t e c)) = init_ready_connection-Announces st conn
  on_outgoing-Announces st conn (some waiting_incoming_connection) = refl
  on_outgoing-Announces st conn (some ConnectionState.disconnected) = refl
  on_outgoing-Announces st conn none = refl

  on_incoming-Announces :
      (st : Iroh K C) (conn : C) (s : Option (ConnectionState C))
      → Announces st (on_incoming keys remote_id st conn s)
  unfolding on_incoming
  on_incoming-Announces st conn (some waiting_incoming_connection) =
      init_ready_connection-Announces st conn
  on_incoming-Announces st conn (some (connected t e c)) = init_ready_connection-Announces st conn
  on_incoming-Announces st conn (some (connecting t)) = refl
  on_incoming-Announces st conn (some ConnectionState.disconnected) = refl
  on_incoming-Announces st conn none = refl

  on_disconnected-Announces :
      (st : Iroh K C) (k : K) (s : Option (ConnectionState C))
      → Announces st (on_disconnected keys remote_id st k s)
  unfolding on_disconnected
  on_disconnected-Announces st k (some (connected t e c)) = init_new_connection-hear st k
  on_disconnected-Announces st k (some (connecting t)) = refl
  on_disconnected-Announces st k (some waiting_incoming_connection) = refl
  on_disconnected-Announces st k (some ConnectionState.disconnected) = refl
  on_disconnected-Announces st k none = refl

  on_send-Announces :
      (st : Iroh K C) (p : Bytes) (s : Option (ConnectionState C))
      → Announces st (on_send keys remote_id st p s)
  unfolding on_send
  on_send-Announces st p (some (connected t e c)) = refl
  on_send-Announces st p (some (connecting t)) = refl
  on_send-Announces st p (some waiting_incoming_connection) = refl
  on_send-Announces st p (some ConnectionState.disconnected) = refl
  on_send-Announces st p none = refl

  on_connect-Announces :
      (st : Iroh K C) (k : K) (s : Option (ConnectionState C))
      → state_of keys remote_id st k ≡ s
      → Announces st (on_connect keys remote_id st k s)
  unfolding on_connect
  on_connect-Announces st k (some ConnectionState.disconnected) e =
      subst
        (λ f.
          hear keys.eq f (sent_events (init_new_connection keys remote_id st k).1)
          ≡ linked (init_new_connection keys remote_id st k).0)
        (override_self st k false (ap is_up e)) (init_new_connection-hear st k)
  on_connect-Announces st k (some (connected t c ch)) e = refl
  on_connect-Announces st k (some (connecting t)) e = refl
  on_connect-Announces st k (some waiting_incoming_connection) e = refl
  on_connect-Announces st k none e = refl

  release_peer-hear :
      (st : Iroh K C) (k : K) (s : Option (ConnectionState C))
      → state_of keys remote_id st k ≡ s
      → hear keys.eq (linked st) (sent_events (release_peer keys remote_id k s))
        ≡ override keys.eq k false (linked st)
  unfolding release_peer
  release_peer-hear st k (some (connected t c ch)) e = refl
  release_peer-hear st k (some (connecting t)) e = sym (override_self st k false (ap is_up e))
  release_peer-hear st k (some waiting_incoming_connection) e =
      sym (override_self st k false (ap is_up e))
  release_peer-hear st k (some ConnectionState.disconnected) e =
      sym (override_self st k false (ap is_up e))
  release_peer-hear st k none e = sym (override_self st k false (ap is_up e))

  pub handle_core_event-Announces :
      (st : Iroh K C) (e : CoreAction K) → Announces st (handle_core_event keys remote_id st e)
  unfolding handle_core_event
  handle_core_event-Announces st (send_packet_to p k) = on_send-Announces st p _
  handle_core_event-Announces st (connect_to_peer k) = on_connect-Announces st k _ refl
  handle_core_event-Announces st (disconnect_from_peer k) =
      let released = release_peer keys remote_id k (state_of keys remote_id st k) in
      let written = set_state keys remote_id st k ConnectionState.disconnected in
      rw (sent_events-append released written.1) (
        hear-append keys.eq (linked st) (sent_events released) (sent_events written.1)
        ∙ ap (λ f. hear keys.eq f (sent_events written.1)) (release_peer-hear st k _ refl)
        ∙ set_state-hear st k ConnectionState.disconnected)

  abbrev pub AnnouncesOk : Iroh K C → Result (Handled K C) (Unit {0}) → Type 0
  AnnouncesOk st (ok r) = Announces st r
  AnnouncesOk st (err _) = Unit {0}

  pub handle_conn_event-Announces :
      (st : Iroh K C) (e : ConnectionEvent K C)
      → AnnouncesOk st (handle_conn_event keys remote_id st e)
  unfolding handle_conn_event
  handle_conn_event-Announces st (outgoing_connection conn) = on_outgoing-Announces st conn _
  handle_conn_event-Announces st (incoming_connection conn) = on_incoming-Announces st conn _
  handle_conn_event-Announces st (ConnectionEvent.disconnected k) = on_disconnected-Announces st k _
  handle_conn_event-Announces st internal_error = tt

  -- Every round of the manager's loop tells the coordinator exactly the links that it changes: who
  -- knew the links before and hears the round's events knows the links behind it.
  pub step-Announces : (st : Iroh K C) (i : Input K C) → AnnouncesOk st (step keys remote_id st i)
  unfolding step
  step-Announces st (from_tasks (some e)) = handle_conn_event-Announces st e
  step-Announces st (from_tasks none) = tt
  step-Announces st (from_coord (some e)) = handle_core_event-Announces st e
  step-Announces st (from_coord none) = tt
