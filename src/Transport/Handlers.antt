-- ===== src/Transport/Handlers.antt =====
-- iroh.rs: the handlers of the event loop `Iroh::run`, and the loop over the events that arrive.
use peer_to_peer_decentraliz.Base.{
  suc, Option, none, some, List, [], ◌∷◌, ◌++◌, if◌then◌else◌, Result, ok, err,
}
use peer_to_peer_decentraliz.Packet.{Bytes}
use peer_to_peer_decentraliz.Transport.{
  KeyOrder, ConnectionState, connected, connecting, waiting_incoming_connection,
  disconnected_from_peer, CoreAction, send_packet_to, connect_to_peer, disconnect_from_peer,
  ConnectionEvent, outgoing_connection, incoming_connection, internal_error, data_race_resolver,
  peer_opened_another, invariant_violated, not_now, unknown_peer, core_action, Effect,
  send_to_coord, spawn_accept, abort, close, try_send, Iroh, Handled, state_of, set_state,
  start_connecting, init_new_connection, init_ready_connection,
}

-- What `tokio::select!` hands to the loop; `none` is a closed channel.
pub data Input (K C : Type 0) : Type 0 where
  from_tasks : Option (ConnectionEvent K C) → Input K C
  from_coord : Option (CoreAction K) → Input K C

module _ {K C : Type 0} (keys : KeyOrder K) (remote_id : C → K) where
  abbrev after : List (Effect K C) → Handled K C → Handled K C
  after now (st, later) = (st, now ++ later)

  -- `ConnectionEvent::OutgoingConnection(conn)`, at the state of its peer
  unfoldable pub on_outgoing : Iroh K C → C → Option (ConnectionState C) → Handled K C
  unfolding init_ready_connection
  on_outgoing st conn (some (connecting _)) = init_ready_connection keys remote_id st conn
  on_outgoing st conn (some (connected expired_task expired_conn _)) =
      after (abort expired_task ∷ close expired_conn data_race_resolver ∷ [])
        (init_ready_connection keys remote_id st conn)
  on_outgoing st conn (some waiting_incoming_connection) = (st, close conn invariant_violated ∷ [])
  on_outgoing st conn (some ConnectionState.disconnected) = (st, close conn not_now ∷ [])
  on_outgoing st conn none = (st, close conn unknown_peer ∷ [])

  -- `ConnectionEvent::IncomingConnection(conn)`
  unfoldable pub on_incoming : Iroh K C → C → Option (ConnectionState C) → Handled K C
  unfolding init_ready_connection
  on_incoming st conn (some waiting_incoming_connection) =
      init_ready_connection keys remote_id st conn
  on_incoming st conn (some (connected expired_task expired_conn _)) =
      after (abort expired_task ∷ close expired_conn peer_opened_another ∷ [])
        (init_ready_connection keys remote_id st conn)
  on_incoming st conn (some (connecting _)) = (st, close conn invariant_violated ∷ [])
  on_incoming st conn (some ConnectionState.disconnected) = (st, close conn not_now ∷ [])
  on_incoming st conn none = (st, close conn unknown_peer ∷ [])

  -- `ConnectionEvent::Disconnected(pub_key)`
  unfoldable pub on_disconnected : Iroh K C → K → Option (ConnectionState C) → Handled K C
  unfolding init_new_connection
  on_disconnected st k (some (connected _ _ _)) =
      after (send_to_coord (disconnected_from_peer k) ∷ [])
        (init_new_connection keys remote_id st k)
  on_disconnected st k _ = (st, [])

  -- `handle_conn_event`
  unfoldable pub handle_conn_event :
      Iroh K C → ConnectionEvent K C → Result (Handled K C) (Unit {0})
  unfolding on_outgoing on_incoming on_disconnected
  handle_conn_event st (outgoing_connection conn) =
      ok (on_outgoing st conn (state_of keys remote_id st (remote_id conn)))
  handle_conn_event st (incoming_connection conn) =
      ok (on_incoming st conn (state_of keys remote_id st (remote_id conn)))
  handle_conn_event st (ConnectionEvent.disconnected k) =
      ok (on_disconnected st k (state_of keys remote_id st k))
  handle_conn_event st internal_error = err tt

  -- `CoreAction::SendPacketTo(packet, to)`
  unfoldable pub on_send : Iroh K C → Bytes → Option (ConnectionState C) → Handled K C
  on_send st packet (some (connected _ _ channel)) = (st, try_send channel packet ∷ [])
  on_send st packet _ = (st, [])

  -- `CoreAction::ConnectToPeer(pub_key)`
  unfoldable pub on_connect : Iroh K C → K → Option (ConnectionState C) → Handled K C
  unfolding init_new_connection
  on_connect st k (some ConnectionState.disconnected) = init_new_connection keys remote_id st k
  on_connect st k _ = (st, [])

  -- `CoreAction::DisconnectFromPeer(pub_key)`, the `match`
  unfoldable pub release_peer : K → Option (ConnectionState C) → List (Effect K C)
  release_peer k (some (connected old_task old_conn _)) =
      abort old_task ∷ close old_conn core_action ∷ send_to_coord (disconnected_from_peer k) ∷ []
  release_peer k (some (connecting conn_task)) = abort conn_task ∷ []
  release_peer k _ = []

  -- `handle_core_event`. The last case writes its entry for every key.
  unfoldable pub handle_core_event : Iroh K C → CoreAction K → Handled K C
  unfolding on_send on_connect release_peer set_state
  handle_core_event st (send_packet_to packet k) = on_send st packet (state_of keys remote_id st k)
  handle_core_event st (connect_to_peer k) = on_connect st k (state_of keys remote_id st k)
  handle_core_event st (disconnect_from_peer k) =
      after (release_peer k (state_of keys remote_id st k))
        (set_state keys remote_id st k ConnectionState.disconnected)

  -- The body of the loop of `init`.
  unfoldable pub init_peer : Iroh K C → K → Handled K C
  unfolding start_connecting set_state
  init_peer st k =
      if keys.lt st.id k
      then set_state keys remote_id st k waiting_incoming_connection
      else start_connecting keys remote_id st k

  -- The loop of `init` over the peers.
  unfoldable pub init_peers : List K → Iroh K C → Handled K C
  unfolding init_peer
  init_peers [] st = (st, [])
  init_peers (k ∷ ks) st = let (next, now) = init_peer st k in after now (init_peers ks next)

  unfoldable pub init : Iroh K C → Handled K C
  unfolding init_peers
  init st =
      let (next, now) = init_peers st.peers st in
      (record next { tasks = suc next.tasks }, now ++ (spawn_accept next.tasks ∷ []))

  -- One round of the loop; `err` where it returns.
  unfoldable pub step : Iroh K C → Input K C → Result (Handled K C) (Unit {0})
  unfolding handle_conn_event handle_core_event
  step st (from_tasks (some event)) = handle_conn_event st event
  step st (from_tasks none) = err tt
  step st (from_coord (some event)) = ok (handle_core_event st event)
  step st (from_coord none) = err tt

  -- The loop over the inputs that arrive, up to the first that ends it.
  unfoldable pub loop : Iroh K C → List (Input K C) → Handled K C
  unfolding step
  loop st [] = (st, [])
  loop st (i ∷ is) = elim (step st i) [
    | ok (next, now) ↦ after now (loop next is)
    | err _ ↦ (st, [])
  ]

  -- `Iroh::run`
  unfoldable pub run : Iroh K C → List (Input K C) → Handled K C
  unfolding init loop
  run st is = let (next, now) = init st in after now (loop next is)
