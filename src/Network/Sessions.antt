-- ===== src/Network/Sessions.antt =====
-- What a round of a host does to its sessions, and which packets these send.
use peer_to_peer_decentraliz.Base.{
  ℕ, ◌≡◌, refl, sym, subst, Option, none, some, List, [], ◌∷◌, ◌++◌, All, Bool-cases, inl, inr, ok,
  err,
}
use peer_to_peer_decentraliz.Packet.{Bytes}
use peer_to_peer_decentraliz.Vpn.Origins.{All-append}
use peer_to_peer_decentraliz.Transport.{
  KeyOrder, ConnectionState, connected, connecting, waiting_incoming_connection, disconnected,
  CoreAction, send_packet_to, connect_to_peer, disconnect_from_peer, ConnectionEvent,
  outgoing_connection, incoming_connection, internal_error, Effect, try_send, send_to_coord,
  spawn_connect, spawn_session, spawn_accept, abort, close, drop_sender, Iroh, dropped, state_of,
  set_state, init_new_connection, init_ready_connection, start_connecting,
}
use peer_to_peer_decentraliz.Transport.Handlers.{
  on_outgoing, on_incoming, on_disconnected, on_connect, on_send, release_peer, handle_conn_event,
  handle_core_event,
}
use peer_to_peer_decentraliz.Transport.Tasks.{on_peer_connected}
use peer_to_peer_decentraliz.Transport.Accounts.{IsAccounted}
use peer_to_peer_decentraliz.Node.{Node, manager_event}
use peer_to_peer_decentraliz.Host.{inner}
use peer_to_peer_decentraliz.Network.{Letter, letters, ordered, performed}

module _ {K C : Type 0} (keys : KeyOrder K) (remote_id : C → K) where
  -- No packet for a session.
  abbrev IsQuiet : Effect K C → Type 0
  IsQuiet (try_send channel p) = ⊥
  IsQuiet _ = Unit {0}

  letters-IsQuiet :
      (k : K) (es : List (Effect K C)) (live : ℕ → Option K)
      → All IsQuiet es
      → letters keys remote_id k live es ≡ []
  letters-IsQuiet k [] live q = refl
  letters-IsQuiet k (try_send c p ∷ es) live q = absurd q.0
  letters-IsQuiet k (send_to_coord e ∷ es) live q = letters-IsQuiet k es live q.1
  letters-IsQuiet k (spawn_connect t j ∷ es) live q = letters-IsQuiet k es live q.1
  letters-IsQuiet k (spawn_session t c conn ∷ es) live q = letters-IsQuiet k es _ q.1
  letters-IsQuiet k (spawn_accept t ∷ es) live q = letters-IsQuiet k es live q.1
  letters-IsQuiet k (abort t ∷ es) live q = letters-IsQuiet k es live q.1
  letters-IsQuiet k (close c r ∷ es) live q = letters-IsQuiet k es live q.1
  letters-IsQuiet k (drop_sender c ∷ es) live q = letters-IsQuiet k es _ q.1

  dropped-IsQuiet : (s : Option (ConnectionState C)) → All IsQuiet (dropped s)
  dropped-IsQuiet none = tt
  dropped-IsQuiet (some (connected t conn n)) = (tt, tt)
  dropped-IsQuiet (some (connecting t)) = tt
  dropped-IsQuiet (some waiting_incoming_connection) = tt
  dropped-IsQuiet (some disconnected) = tt

  init_ready_connection-IsQuiet :
      (st : Iroh K C) (conn : C) → All IsQuiet (init_ready_connection keys remote_id st conn).1
  unfolding init_ready_connection set_state
  init_ready_connection-IsQuiet st conn = (tt, (tt, dropped-IsQuiet _))

  init_new_connection-IsQuiet :
      (st : Iroh K C) (k : K) → All IsQuiet (init_new_connection keys remote_id st k).1
  unfolding init_new_connection start_connecting set_state
  init_new_connection-IsQuiet st k = elim (Bool-cases (keys.lt st.id k)) [
    | inl l ↦ rw l (dropped-IsQuiet _)
    | inr l ↦ rw l (tt, dropped-IsQuiet _)
  ]

  on_outgoing-IsQuiet :
      (st : Iroh K C) (conn : C) (s : Option (ConnectionState C))
      → All IsQuiet (on_outgoing keys remote_id st conn s).1
  unfolding on_outgoing
  on_outgoing-IsQuiet st conn (some (connecting t)) = init_ready_connection-IsQuiet st conn
  on_outgoing-IsQuiet st conn (some (connected t e c)) =
      (tt, (tt, init_ready_connection-IsQuiet st conn))
  on_outgoing-IsQuiet st conn (some waiting_incoming_connection) = (tt, tt)
  on_outgoing-IsQuiet st conn (some disconnected) = (tt, tt)
  on_outgoing-IsQuiet st conn none = (tt, tt)

  on_incoming-IsQuiet :
      (st : Iroh K C) (conn : C) (s : Option (ConnectionState C))
      → All IsQuiet (on_incoming keys remote_id st conn s).1
  unfolding on_incoming
  on_incoming-IsQuiet st conn (some waiting_incoming_connection) =
      init_ready_connection-IsQuiet st conn
  on_incoming-IsQuiet st conn (some (connected t e c)) =
      (tt, (tt, init_ready_connection-IsQuiet st conn))
  on_incoming-IsQuiet st conn (some (connecting t)) = (tt, tt)
  on_incoming-IsQuiet st conn (some disconnected) = (tt, tt)
  on_incoming-IsQuiet st conn none = (tt, tt)

  on_disconnected-IsQuiet :
      (st : Iroh K C) (k : K) (s : Option (ConnectionState C))
      → All IsQuiet (on_disconnected keys remote_id st k s).1
  unfolding on_disconnected
  on_disconnected-IsQuiet st k (some (connected t e c)) = (tt, init_new_connection-IsQuiet st k)
  on_disconnected-IsQuiet st k (some (connecting t)) = tt
  on_disconnected-IsQuiet st k (some waiting_incoming_connection) = tt
  on_disconnected-IsQuiet st k (some disconnected) = tt
  on_disconnected-IsQuiet st k none = tt

  on_connect-IsQuiet :
      (st : Iroh K C) (k : K) (s : Option (ConnectionState C))
      → All IsQuiet (on_connect keys remote_id st k s).1
  unfolding on_connect
  on_connect-IsQuiet st k (some disconnected) = init_new_connection-IsQuiet st k
  on_connect-IsQuiet st k (some (connected t e c)) = tt
  on_connect-IsQuiet st k (some (connecting t)) = tt
  on_connect-IsQuiet st k (some waiting_incoming_connection) = tt
  on_connect-IsQuiet st k none = tt

  release_peer-IsQuiet :
      (k : K) (s : Option (ConnectionState C)) → All IsQuiet (release_peer keys remote_id k s)
  unfolding release_peer
  release_peer-IsQuiet k (some (connected t e c)) = (tt, (tt, (tt, tt)))
  release_peer-IsQuiet k (some (connecting t)) = (tt, tt)
  release_peer-IsQuiet k (some waiting_incoming_connection) = tt
  release_peer-IsQuiet k (some disconnected) = tt
  release_peer-IsQuiet k none = tt

  handle_conn_event-IsQuiet :
      (st : Iroh K C) (e : ConnectionEvent K C)
      → All IsQuiet (elim (handle_conn_event keys remote_id st e) as (λ _. List (Effect K C)) [
        | ok r ↦ r.1
        | err _ ↦ []
      ])
  unfolding handle_conn_event
  handle_conn_event-IsQuiet st (outgoing_connection conn) = on_outgoing-IsQuiet st conn _
  handle_conn_event-IsQuiet st (incoming_connection conn) = on_incoming-IsQuiet st conn _
  handle_conn_event-IsQuiet st (ConnectionEvent.disconnected k) = on_disconnected-IsQuiet st k _
  handle_conn_event-IsQuiet st internal_error = tt

  abbrev letter : K → K → Bytes → Letter K
  letter k j p = record { from = k; to = j; content = p }

  -- The manager puts a packet on the channel of the session with the peer that it is for, and this
  -- sends it there.
  pub on_send-letter :
      (k j : K) (live : ℕ → Option K) (st : Iroh K C) (p : Bytes) (task channel : ℕ) (conn : C)
      → IsAccounted keys remote_id live st
      → state_of keys remote_id st j ≡ some (connected task conn channel)
      → letters keys remote_id k live (handle_core_event keys remote_id st (send_packet_to p j)).1
        ≡ letter k j p ∷ []
  unfolding handle_core_event on_send on_peer_connected
  on_send-letter k j live st p task channel conn h e =
      let lives = h.lives j channel (rw e refl) in rw e (rw lives refl)

  -- So a packet that the manager takes comes, if at all, to the peer that it is for.
  send-letters :
      (P : Letter K → Type 0) (k j : K) (live : ℕ → Option K) (st : Iroh K C) (p : Bytes)
      → IsAccounted keys remote_id live st
      → P (letter k j p)
      → (s : Option (ConnectionState C)) → state_of keys remote_id st j ≡ s
      → All P (
          letters keys remote_id k live
            (handle_core_event keys remote_id st (send_packet_to p j)).1)
  unfolding handle_core_event on_send
  send-letters P k j live st p h x (some (connected task conn channel)) e =
      subst (All P) (sym (on_send-letter k j live st p task channel conn h e)) (x, tt)
  send-letters P k j live st p h x (some (connecting t)) e = rw e tt
  send-letters P k j live st p h x (some waiting_incoming_connection) e = rw e tt
  send-letters P k j live st p h x (some disconnected) e = rw e tt
  send-letters P k j live st p h x none e = rw e tt

  -- What the sessions send when the manager takes what stands first on its channel.
  pub ordered-letters :
      (P : Letter K → Type 0) (Q : CoreAction K → Type 0) (k : K) (live : ℕ → Option K)
      (n : Node K C) (actions : List (CoreAction K))
      → IsAccounted keys remote_id live n.iroh
      → ((p : Bytes) (j : K) → Q (send_packet_to p j) → P (letter k j p))
      → All Q actions
      → All P (letters keys remote_id k live (ordered keys remote_id n actions))
  unfolding handle_core_event set_state
  ordered-letters P Q k live n [] h f q = tt
  ordered-letters P Q k live n (send_packet_to p j ∷ rest) h f q =
      send-letters P k j live n.iroh p h (f p j q.0) _ refl
  ordered-letters P Q k live n (connect_to_peer j ∷ rest) h f q =
      rw (letters-IsQuiet k _ live (on_connect-IsQuiet n.iroh j (state_of keys remote_id n.iroh j)))
        tt
  ordered-letters P Q k live n (disconnect_from_peer j ∷ rest) h f q =
      let s = state_of keys remote_id n.iroh j in
      rw
        (letters-IsQuiet k (release_peer keys remote_id j s ++ dropped s) live
          (All-append IsQuiet _ _ (release_peer-IsQuiet j s) (dropped-IsQuiet s)))
        tt

  -- An event of a connection task makes no session send anything.
  pub event-letters :
      (k : K) (live : ℕ → Option K) (n : Node K C) (e : ConnectionEvent K C)
      → letters keys remote_id k live (performed keys remote_id n (inner (manager_event e))) ≡ []
  event-letters k live n e = letters-IsQuiet k _ live (handle_conn_event-IsQuiet n.iroh e)
