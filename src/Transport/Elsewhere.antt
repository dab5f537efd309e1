-- ===== src/Transport/Elsewhere.antt =====
-- The handlers leave the entries of other peers as they are.
use peer_to_peer_decentraliz.Base.{
  suc, ◌≡◌, ◌≢◌, refl, Option, none, some, get-insert, if_neg, Bool-cases, inl, inr,
}
use peer_to_peer_decentraliz.Packet.{Bytes}
use peer_to_peer_decentraliz.Transport.{
  KeyOrder, ConnectionState, connected, connecting, waiting_incoming_connection, disconnected, Iroh,
  state_of, set_state, init_new_connection, init_ready_connection, start_connecting,
}
use peer_to_peer_decentraliz.Transport.Handlers.{
  on_outgoing, on_incoming, on_disconnected, on_connect, on_send,
}

module _ {K C : Type 0} (keys : KeyOrder K) (remote_id : C → K) where
  pub set_state-elsewhere :
      (st : Iroh K C) (j k : K) (s : ConnectionState C)
      → j ≢ k
      → state_of keys remote_id (set_state keys remote_id st j s).0 k ≡ state_of keys remote_id st k
  unfolding set_state
  set_state-elsewhere st j k s d = rw (get-insert keys.eq k j s st.state_table, if_neg _ d) refl

  pub init_new_connection-elsewhere :
      (st : Iroh K C) (j k : K)
      → j ≢ k
      → state_of keys remote_id (init_new_connection keys remote_id st j).0 k
        ≡ state_of keys remote_id st k
  unfolding init_new_connection start_connecting
  init_new_connection-elsewhere st j k d = elim (Bool-cases (keys.lt st.id j)) [
    | inl l ↦ rw l (set_state-elsewhere st j k waiting_incoming_connection d)
    | inr l ↦
        rw l (set_state-elsewhere (record st { tasks = suc st.tasks }) j k (connecting st.tasks) d)
  ]

  pub init_ready_connection-elsewhere :
      (st : Iroh K C) (conn : C) (k : K)
      → remote_id conn ≢ k
      → state_of keys remote_id (init_ready_connection keys remote_id st conn).0 k
        ≡ state_of keys remote_id st k
  unfolding init_ready_connection
  init_ready_connection-elsewhere st conn k d =
      set_state-elsewhere (record st { tasks = suc st.tasks; channels = suc st.channels })
        (remote_id conn) k (connected st.tasks conn st.channels) d

  pub on_outgoing-elsewhere :
      (st : Iroh K C) (conn : C) (k : K) (s : Option (ConnectionState C))
      → remote_id conn ≢ k
      → state_of keys remote_id (on_outgoing keys remote_id st conn s).0 k
        ≡ state_of keys remote_id st k
  unfolding on_outgoing
  on_outgoing-elsewhere st conn k (some (connecting t)) d =
      init_ready_connection-elsewhere st conn k d
  on_outgoing-elsewhere st conn k (some (connected t e c)) d =
      init_ready_connection-elsewhere st conn k d
  on_outgoing-elsewhere st conn k (some waiting_incoming_connection) d = refl
  on_outgoing-elsewhere st conn k (some disconnected) d = refl
  on_outgoing-elsewhere st conn k none d = refl

  pub on_incoming-elsewhere :
      (st : Iroh K C) (conn : C) (k : K) (s : Option (ConnectionState C))
      → remote_id conn ≢ k
      → state_of keys remote_id (on_incoming keys remote_id st conn s).0 k
        ≡ state_of keys remote_id st k
  unfolding on_incoming
  on_incoming-elsewhere st conn k (some waiting_incoming_connection) d =
      init_ready_connection-elsewhere st conn k d
  on_incoming-elsewhere st conn k (some (connected t e c)) d =
      init_ready_connection-elsewhere st conn k d
  on_incoming-elsewhere st conn k (some (connecting t)) d = refl
  on_incoming-elsewhere st conn k (some disconnected) d = refl
  on_incoming-elsewhere st conn k none d = refl

  pub on_disconnected-elsewhere :
      (st : Iroh K C) (j k : K) (s : Option (ConnectionState C))
      → j ≢ k
      → state_of keys remote_id (on_disconnected keys remote_id st j s).0 k
        ≡ state_of keys remote_id st k
  unfolding on_disconnected
  on_disconnected-elsewhere st j k (some (connected t e c)) d =
      init_new_connection-elsewhere st j k d
  on_disconnected-elsewhere st j k (some (connecting t)) d = refl
  on_disconnected-elsewhere st j k (some waiting_incoming_connection) d = refl
  on_disconnected-elsewhere st j k (some disconnected) d = refl
  on_disconnected-elsewhere st j k none d = refl

  pub on_connect-elsewhere :
      (st : Iroh K C) (j k : K) (s : Option (ConnectionState C))
      → j ≢ k
      → state_of keys remote_id (on_connect keys remote_id st j s).0 k
        ≡ state_of keys remote_id st k
  unfolding on_connect
  on_connect-elsewhere st j k (some disconnected) d = init_new_connection-elsewhere st j k d
  on_connect-elsewhere st j k (some (connected t e c)) d = refl
  on_connect-elsewhere st j k (some (connecting t)) d = refl
  on_connect-elsewhere st j k (some waiting_incoming_connection) d = refl
  on_connect-elsewhere st j k none d = refl

  pub on_send-same :
      (st : Iroh K C) (p : Bytes) (s : Option (ConnectionState C))
      → (on_send keys remote_id st p s).0 ≡ st
  unfolding on_send
  on_send-same st p (some (connected t e c)) = refl
  on_send-same st p (some (connecting t)) = refl
  on_send-same st p (some waiting_incoming_connection) = refl
  on_send-same st p (some disconnected) = refl
  on_send-same st p none = refl
