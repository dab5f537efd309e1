-- ===== src/Transport/Races.antt =====
-- Two orders of events that the handlers do not tell from the ones they are written for.
use mathlib.Core.List.{Memᴰ, append-nil}
use peer_to_peer_decentraliz.Base.{
  ℕ, suc, ◌≡◌, if◌then◌else◌, refl, ap, ◌∙◌, false, none, some, List, [], ◌∷◌, get-insert,
  Bool-cases, inl, inr, arith,
}
use peer_to_peer_decentraliz.Transport.{
  KeyOrder, ConnectionState, connected, connecting, waiting_incoming_connection, connected_to_peer,
  disconnected_from_peer, connect_to_peer, disconnect_from_peer, ConnectionEvent,
  incoming_connection, Effect, drop_sender, Iroh, Handled, state_of, set_state,
}
use peer_to_peer_decentraliz.Transport.Handlers.{
  Input, from_tasks, on_disconnected, on_connect, handle_core_event, loop,
}
use peer_to_peer_decentraliz.Transport.Announcements.{is_up, sent_events, linked}

module _ {K C : Type 0} (keys : KeyOrder K) (remote_id : C → K) where
  pub read_back :
      (st : Iroh K C) (k : K) (s : ConnectionState C)
      → state_of keys remote_id (set_state keys remote_id st k s).0 k ≡ some s
  unfolding set_state
  read_back st k s = get-insert keys.eq k k s st.state_table ∙ ground arith

  -- The end of a session, as its handler takes it.
  abbrev Drops : K → ℕ → Handled K C → Type 0
  Drops k channel r =
      (linked keys remote_id r.0 k ≡ false)
      × (sent_events r.1 ≡ disconnected_from_peer k ∷ [])
      × Memᴰ (drop_sender channel) r.1

  on_disconnected-Drops :
      (st : Iroh K C) (k : K) (task channel : ℕ) (conn : C)
      → state_of keys remote_id st k ≡ some (connected task conn channel)
      → Drops k channel (on_disconnected keys remote_id st k (some (connected task conn channel)))
  unfolding on_disconnected set_state
  on_disconnected-Drops st k task channel conn e = elim (Bool-cases (keys.lt st.id k)) [
    | inl l ↦ rw l (
      ap is_up (read_back st k waiting_incoming_connection),
      rw e,
      rw e (Memᴰ.tail (Memᴰ.head refl)),
    )
    | inr l ↦ rw l (
      ap is_up (read_back (record st { tasks = suc st.tasks }) k (connecting st.tasks)),
      rw e,
      rw e (Memᴰ.tail (Memᴰ.tail (Memᴰ.head refl))),
    )
  ]

  -- A peer opens a new connection over an old one, and the word of the old session's end stands
  -- behind it in the queue.
  abbrev pub reconnect_race : C → List (Input K C)
  reconnect_race conn =
      from_tasks (some (incoming_connection conn))
      ∷ from_tasks (some (ConnectionEvent.disconnected (remote_id conn)))
      ∷ []

  -- The late word of an old session takes down the session that has replaced it: whenever a peer
  -- that is connected connects anew and the old session's `Disconnected` follows, the new session's
  -- channel is dropped, its link is gone from the table, and the coordinator hears of both.
  pub reconnect_race-drops :
      (st : Iroh K C) (conn old : C) (task channel : ℕ)
      → state_of keys remote_id st (remote_id conn) ≡ some (connected task old channel)
      → let r = loop keys remote_id st (reconnect_race conn) in
        (linked keys remote_id r.0 (remote_id conn) ≡ false)
        × (sent_events r.1
            ≡ connected_to_peer (remote_id conn) ∷ disconnected_from_peer (remote_id conn) ∷ [])
        × Memᴰ (drop_sender st.channels) r.1
  unfolding loop
  reconnect_race-drops st conn old task channel e =
      let k = remote_id conn in
      let fresh = record st { tasks = suc st.tasks; channels = suc st.channels } in
      let back = read_back fresh k (connected st.tasks conn st.channels) in
      let st' = (set_state keys remote_id fresh k (connected st.tasks conn st.channels)).0 in
      let (down, words, gone) = on_disconnected-Drops st' k st.tasks st.channels conn back in
      rw e (
        rw back (
          rw append-nil (
            down,
            rw e (ap (λ es. connected_to_peer k ∷ es) words),
            rw e (deep (deep (deep (deep (deep gone))))),
          )))
    where
      deep : {x y : Effect K C} {l : List (Effect K C)} → Memᴰ x l → Memᴰ x (y ∷ l)
      deep = Memᴰ.tail

  -- `DisconnectFromPeer` for a key that the table does not have makes an entry for it: before it the
  -- manager ignores `ConnectToPeer` for that key, and behind it the manager waits for that key if it is
  -- greater than the node's own, and dials it if it is not.
  pub disconnect_unknown-connects :
      (st : Iroh K C) (k : K)
      → state_of keys remote_id st k ≡ none
      → let st' = (handle_core_event keys remote_id st (disconnect_from_peer k)).0 in
        (handle_core_event keys remote_id st (connect_to_peer k) ≡ (st, []))
        × (state_of keys remote_id (handle_core_event keys remote_id st' (connect_to_peer k)).0 k
            ≡ some (if keys.lt st.id k then waiting_incoming_connection else connecting st.tasks))
  unfolding handle_core_event
  disconnect_unknown-connects st k e = (
    ap (on_connect keys remote_id st k) e,
    rw (read_back st k ConnectionState.disconnected) (elim (Bool-cases (keys.lt st.id k)) [
      | inl l ↦ rw l (read_back (record st { state_table = _ }) k waiting_incoming_connection)
      | inr l ↦
          rw l (
            read_back (record st { tasks = suc st.tasks; state_table = _ }) k (connecting st.tasks))
    ]),
  )
