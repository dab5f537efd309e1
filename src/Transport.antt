-- ===== src/Transport.antt =====
-- iroh.rs: the connection manager `Iroh`, its state table and its event loop. Connections belong to
-- the iroh library: a type `C` with `remote_id`. A handler returns the new manager beside what it
-- does to the world, in order; tasks and channels are numbered as they are made.
pub mod Handlers
pub mod Directions
pub mod Announcements
pub mod Reports
pub mod Pairs
pub mod Races
pub mod Tasks
pub mod Endings
pub mod Accounts
pub mod Live
pub mod Elsewhere
pub mod Fates
pub mod Sessions
pub mod Recovery
pub mod Endpoint
use peer_to_peer_decentraliz.Base.{
  ℕ, suc, ◌≡◌, ◌≢◌, Bool, true, false, not, Option, none, some, List, [], ◌∷◌, ◌++◌, get, insert,
  if◌then◌else◌, Result, ok, err,
}
use peer_to_peer_decentraliz.Packet.{Bytes}

-- What the manager uses of `PublicKey`: equality, and a total order.
pub record KeyOrder (K : Type 0) : Type 0 where
  pub eq : Discrete K
  pub lt : K → K → Bool
  pub lt_irrefl : (a : K) → lt a a ≡ false
  pub lt_asymm : (a b : K) → lt a b ≡ true → lt b a ≡ false
  pub lt_total : (a b : K) → a ≢ b → lt a b ≡ false → lt b a ≡ true

pub data ConnectionState (C : Type 0) : Type 0 where
  connected : (task : ℕ) → (connection : C) → (tx_packet_channel : ℕ) → ConnectionState C
  connecting : (task : ℕ) → ConnectionState C
  waiting_incoming_connection : ConnectionState C
  disconnected : ConnectionState C

pub data IrohEvent (K : Type 0) : Type 0 where
  connected_to_peer : K → IrohEvent K
  disconnected_from_peer : K → IrohEvent K
  recv_packet_from : Bytes → K → IrohEvent K

pub data CoreAction (K : Type 0) : Type 0 where
  send_packet_to : Bytes → K → CoreAction K
  connect_to_peer : K → CoreAction K
  disconnect_from_peer : K → CoreAction K

pub data ConnectionEvent (K C : Type 0) : Type 0 where
  outgoing_connection : C → ConnectionEvent K C
  incoming_connection : C → ConnectionEvent K C
  disconnected : K → ConnectionEvent K C
  internal_error : ConnectionEvent K C

-- The byte strings that a connection is closed with.
pub data CloseReason : Type 0 where
  data_race_resolver peer_opened_another invariant_violated not_now unknown_peer core_action :
      CloseReason

pub data Effect (K C : Type 0) : Type 0 where
  -- `tx_to_coord.send(event).await`, with its result unused
  send_to_coord : IrohEvent K → Effect K C
  -- `tokio::spawn` of `connect_to_peer`, `on_peer_connected` and `accept_connections`
  spawn_connect : (task : ℕ) → K → Effect K C
  spawn_session : (task : ℕ) → (channel : ℕ) → C → Effect K C
  spawn_accept : (task : ℕ) → Effect K C
  -- `JoinHandle::abort`, `Connection::close`, `Sender::try_send` on a session's channel
  abort : (task : ℕ) → Effect K C
  close : C → CloseReason → Effect K C
  try_send : (channel : ℕ) → Bytes → Effect K C
  -- the sender of a session's channel is dropped with its entry of the table
  drop_sender : (channel : ℕ) → Effect K C

pub record Iroh (K C : Type 0) : Type 0 where
  pub id : K
  pub peers : List K
  pub state_table : List (K × ConnectionState C)
  pub tasks : ℕ
  pub channels : ℕ

abbrev pub Handled : Type 0 → Type 0 → Type 0
Handled K C = Iroh K C × List (Effect K C)

-- What goes with an entry that is overwritten.
abbrev pub dropped : {K C : Type 0} → Option (ConnectionState C) → List (Effect K C)
dropped (some (connected task connection channel)) = drop_sender channel ∷ []
dropped _ = []

module _ {K C : Type 0} (keys : KeyOrder K) (remote_id : C → K) where
  abbrev pub state_of : Iroh K C → K → Option (ConnectionState C)
  state_of st k = get keys.eq k st.state_table

  -- `self.state_table.insert(pub_key, state)`
  unfoldable pub set_state : Iroh K C → K → ConnectionState C → Handled K C
  set_state st k s =
      (record st { state_table = insert keys.eq k s st.state_table }, dropped (state_of st k))

  -- The loop of `Iroh::new` over the peers.
  unfoldable pub new_table : List K → List (K × ConnectionState C) → List (K × ConnectionState C)
  new_table [] table = table
  new_table (k ∷ ks) table = new_table ks (insert keys.eq k disconnected table)

  unfoldable pub new : K → List K → Iroh K C
  new id peers = record {
    id = id;
    peers = peers;
    state_table = new_table peers [];
    tasks = 0;
    channels = 0;
  }

  -- `tokio::spawn(Self::connect_to_peer(..))` and the entry that holds its handle.
  unfoldable pub start_connecting : Iroh K C → K → Handled K C
  unfolding set_state
  start_connecting st k =
      let (next, gone) = set_state (record st { tasks = suc st.tasks }) k (connecting st.tasks) in
      (next, spawn_connect st.tasks k ∷ gone)

  unfoldable pub init_new_connection : Iroh K C → K → Handled K C
  unfolding start_connecting set_state
  init_new_connection st k =
      if keys.lt st.id k then set_state st k waiting_incoming_connection else start_connecting st k

  unfoldable pub init_ready_connection : Iroh K C → C → Handled K C
  unfolding set_state
  init_ready_connection st conn =
      let (next, gone) =
        set_state (record st { tasks = suc st.tasks; channels = suc st.channels }) (remote_id conn)
          (connected st.tasks conn st.channels) in
      (
        next,
        send_to_coord (connected_to_peer (remote_id conn))
            ∷ spawn_session st.tasks st.channels conn
            ∷ gone,
      )
