-- ===== src/Examples/Tasks.antt =====
-- The tasks of iroh.rs at concrete inputs. Keys and connections are numbers, a connection is its
-- remote key, and an error is whether it is `TooLarge`.
use peer_to_peer_decentraliz.Base.{
  ℕ, ◌≡◌, refl, Bool, true, false, none, some, List, [], ◌∷◌, ◌++◌, ok, err, ℕ_discrete, get,
  insert,
}
use peer_to_peer_decentraliz.Transport.{
  recv_packet_from, ConnectionEvent, incoming_connection, Iroh, new_table, new,
}
use peer_to_peer_decentraliz.Transport.Handlers.{from_tasks, run}
use peer_to_peer_decentraliz.Transport.Tasks.{
  SessionInput, read_datagram, from_channel, connects, fails, offer_to_coord, tell_manager,
  send_datagram, on_peer_connected, accept_connections,
}
use peer_to_peer_decentraliz.Transport.Sessions.{
  offers, sent_datagrams, reports, on_peer_connected_lem,
}
use peer_to_peer_decentraliz.Transport.Recovery.{heard, comeback, Replaced, session-Holds}
use peer_to_peer_decentraliz.Examples.Mesh.{nat_keys, remote}

abbrev is_too_large : Bool → Bool
is_too_large b = b

-- A datagram, a packet that is too large, one that the connection no longer takes, and one more.
abbrev session_inputs : List (SessionInput Bool)
session_inputs =
    read_datagram (ok (1 ∷ []))
    ∷ from_channel (some (2 ∷ [], err true))
    ∷ from_channel (some (3 ∷ [], err false))
    ∷ read_datagram (ok (4 ∷ []))
    ∷ []

session_effects :
    on_peer_connected remote is_too_large 9 session_inputs
    ≡ offer_to_coord (recv_packet_from (1 ∷ []) 9)
      ∷ send_datagram (2 ∷ [])
      ∷ send_datagram (3 ∷ [])
      ∷ tell_manager (ConnectionEvent.disconnected 9)
      ∷ []
unfolding on_peer_connected
session_effects = refl

accepted_tasks :
    accept_connections {H = ℕ} (some (ok 1) ∷ some (err tt) ∷ some (ok 2) ∷ none ∷ []) ≡ 1 ∷ 2 ∷ []
unfolding accept_connections
accepted_tasks = refl

on_peer_connected_lem_example :
    let es = on_peer_connected remote is_too_large 9 session_inputs in
    (offers es ≡ recv_packet_from (1 ∷ []) 9 ∷ [])
    × (sent_datagrams es ≡ (2 ∷ []) ∷ (3 ∷ []) ∷ [])
    × (reports es ≡ ConnectionEvent.disconnected 9 ∷ [])
on_peer_connected_lem_example = on_peer_connected_lem is_too_large remote 9 session_inputs

-- Node 5 with the peer 9 connected, by task 1 and channel 0.
waiting_node : Iroh ℕ ℕ
unfolding run new
waiting_node =
    (run nat_keys remote (new nat_keys remote 5 (9 ∷ []))
      (from_tasks (some (incoming_connection 9)) ∷ [])).0

session-Holds_example : Replaced nat_keys remote is_too_large waiting_node 9 (
    heard nat_keys remote is_too_large (on_peer_connected remote is_too_large 9 session_inputs)
    ++ heard nat_keys remote is_too_large
        (comeback nat_keys remote is_too_large waiting_node 9 (fails true ∷ connects 9 ∷ []) 9))
unfolding waiting_node new_table get insert ℕ_discrete
session-Holds_example =
    session-Holds nat_keys remote is_too_large waiting_node 9 9 1 0 session_inputs
      (fails true ∷ connects 9 ∷ []) refl refl refl refl
