-- ===== src/Transport/Recovery.antt =====
-- A lost connection, from the session that loses it to the one that replaces it.
use mathlib.Core.List.{append-nil}
use peer_to_peer_decentraliz.Base.{
  ℕ, suc, ◌≡◌, refl, Bool, true, false, Option, none, some, List, [], ◌∷◌, ◌++◌, map, if◌then◌else◌,
  ok, Bool-cases, inl, inr,
}
use peer_to_peer_decentraliz.Transport.{
  KeyOrder, connected, connecting, waiting_incoming_connection, connected_to_peer,
  disconnected_from_peer, ConnectionEvent, outgoing_connection, incoming_connection, Iroh, state_of,
  set_state,
}
use peer_to_peer_decentraliz.Transport.Handlers.{Input, from_tasks, loop}
use peer_to_peer_decentraliz.Transport.Tasks.{
  SessionInput, Attempt, connects, fails, TaskEffect, on_peer_connected, connect_to_peer,
  finish_accept,
}
use peer_to_peer_decentraliz.Transport.Sessions.{reports, is_lost, on_peer_connected_lem}
use peer_to_peer_decentraliz.Transport.Announcements.{sent_events}
use peer_to_peer_decentraliz.Transport.Pairs.{Holds}
use peer_to_peer_decentraliz.Transport.Races.{read_back}

abbrev pub first_connection : {C : Type 0} → List (Attempt C) → Option C
first_connection [] = none
first_connection (connects conn ∷ _) = some conn
first_connection (fails _ ∷ attempts) = first_connection attempts

connect_to_peer-reports :
    {K C : Type 0} (attempts : List (Attempt C)) (conn : C)
    → first_connection attempts ≡ some conn
    → reports {K = K} (connect_to_peer attempts) ≡ outgoing_connection conn ∷ []
unfolding connect_to_peer
connect_to_peer-reports [] conn e = cc
connect_to_peer-reports (connects c ∷ attempts) conn e = cc
connect_to_peer-reports (fails true ∷ attempts) conn e = connect_to_peer-reports attempts conn e
connect_to_peer-reports (fails false ∷ attempts) conn e = connect_to_peer-reports attempts conn e

module _ {K C E : Type 0} (keys : KeyOrder K) (remote_id : C → K) (is_too_large : E → Bool) where
  -- The inputs of the manager that a task's effects are.
  abbrev pub heard : List (TaskEffect K C) → List (Input K C)
  heard es = map (λ e. from_tasks (some e)) (reports es)

  -- The task that brings the next connection for `k`: the one that accepts it, where the node waits
  -- for greater keys, or the one that dials.
  abbrev pub comeback : Iroh K C → K → List (Attempt C) → C → List (TaskEffect K C)
  comeback st k attempts conn =
      if keys.lt st.id k then finish_accept (ok conn) else connect_to_peer attempts

  -- The manager hears the end of a session, then of a connection that replaces it.
  abbrev pub Replaced : Iroh K C → C → List (Input K C) → Type 0
  Replaced st conn is =
      Holds keys remote_id (loop keys remote_id st is).0 (remote_id conn) conn
      × (sent_events (loop keys remote_id st is).1
          ≡ disconnected_from_peer (remote_id conn) ∷ connected_to_peer (remote_id conn) ∷ [])

  incoming-Replaced :
      (st : Iroh K C) (conn old : C) (task channel : ℕ)
      → keys.lt st.id (remote_id conn) ≡ true
      → state_of keys remote_id st (remote_id conn) ≡ some (connected task old channel)
      → Replaced st conn (
          from_tasks (some (ConnectionEvent.disconnected (remote_id conn)))
          ∷ from_tasks (some (incoming_connection conn))
          ∷ [])
  unfolding loop
  incoming-Replaced st conn old task channel l e =
      let k = remote_id conn in
      let st' = (set_state keys remote_id st k waiting_incoming_connection).0 in
      let back = read_back keys remote_id st k waiting_incoming_connection in
      let fresh = record st' { tasks = suc st'.tasks; channels = suc st'.channels } in
      rw e (
        rw l (
          rw back (
            (
              st.tasks,
              st.channels,
              read_back keys remote_id fresh k (connected st.tasks conn st.channels),
            ),
            rw (e, append-nil, back) refl,
          )))

  outgoing-Replaced :
      (st : Iroh K C) (conn old : C) (task channel : ℕ)
      → keys.lt st.id (remote_id conn) ≡ false
      → state_of keys remote_id st (remote_id conn) ≡ some (connected task old channel)
      → Replaced st conn (
          from_tasks (some (ConnectionEvent.disconnected (remote_id conn)))
          ∷ from_tasks (some (outgoing_connection conn))
          ∷ [])
  unfolding loop
  outgoing-Replaced st conn old task channel l e =
      let k = remote_id conn in
      let dialling = record st { tasks = suc st.tasks } in
      let st' = (set_state keys remote_id dialling k (connecting st.tasks)).0 in
      let back = read_back keys remote_id dialling k (connecting st.tasks) in
      let fresh = record st' { tasks = suc st'.tasks; channels = suc st'.channels } in
      rw e (
        rw l (
          rw back (
            (
              suc st.tasks,
              st.channels,
              read_back keys remote_id fresh k (connected (suc st.tasks) conn st.channels),
            ),
            rw (e, append-nil, back) refl,
          )))

  -- A lost connection is replaced by one to the same peer: at a connected peer, when its session
  -- loses the connection, whatever it read and was handed before, the manager hears of it; and when the task
  -- that brings the next connection, an accepted one for a greater key and the first successful
  -- attempt of dialling otherwise, has done so, the manager holds that connection, and the
  -- coordinator was told of the end and then of the new connection, and of nothing else.
  pub session-Holds :
      (st : Iroh K C) (old conn : C) (task channel : ℕ) (is : List (SessionInput E))
      (attempts : List (Attempt C))
      → remote_id old ≡ remote_id conn
      → state_of keys remote_id st (remote_id conn) ≡ some (connected task old channel)
      → is_lost is_too_large is ≡ true
      → first_connection attempts ≡ some conn
      → Replaced st conn (
          heard (on_peer_connected remote_id is_too_large old is)
          ++ heard (comeback st (remote_id conn) attempts conn))
  unfolding finish_accept
  session-Holds st old conn task channel is attempts same e lost found =
      let (_, _, told) = on_peer_connected_lem is_too_large remote_id old is in
      rw (told, lost, same)
        (elim (Bool-cases (keys.lt st.id (remote_id conn))) [
          | inl l ↦ rw l (incoming-Replaced st conn old task channel l e)
          | inr l ↦
              rw (l, connect_to_peer-reports attempts conn found)
                (outgoing-Replaced st conn old task channel l e)
        ])
