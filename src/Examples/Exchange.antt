-- ===== src/Examples/Exchange.antt =====
-- The nodes 5 and 9, which name one another, from their start to a packet that the device of 9 is
-- handed from the device of 5. Keys are numbers, and a connection is named by its remote key.
use mathlib.Core.List.{Memᴰ}
use peer_to_peer_decentraliz.Base.{
  ℕ, ◌≡◌, refl, List, [], ◌∷◌, arith, ℕ_discrete, get, insert, ite, All, Returns, returns, panics,
  ok,
}
use peer_to_peer_decentraliz.Packet.{Bytes, Ipv4Addr, Ipv4Addr-discrete, parse, read_fields}
use peer_to_peer_decentraliz.Packet.Header.{IsBytes, datagram}
use peer_to_peer_decentraliz.Transport.{
  incoming_connection, outgoing_connection, new_table, init_ready_connection, set_state,
  start_connecting, init_new_connection,
}
use peer_to_peer_decentraliz.Node.{
  coord_event, manager_action, manager_event, session_packet, turn, start, start_with, key_set,
  insert_key, coord_turn, manager_turn, tun_turn,
}
use peer_to_peer_decentraliz.Host.{
  Round, inner, take_packet, create, reader_reads, writer_writes, round, reader_turn, writer_turn,
  take_turn,
}
use peer_to_peer_decentraliz.Tun.{reader_round, after_write}
use peer_to_peer_decentraliz.Network.{Network, move, opened, Allowed, Reaches, begins}
use peer_to_peer_decentraliz.Network.Genuine.{IsSent, IsGenuine, Reaches-IsGenuine, move-Reaches}
use peer_to_peer_decentraliz.Vpn
use peer_to_peer_decentraliz.Vpn.{
  process, send_packet, new_peers, on_peer_connected, check_send, send_to, buffer,
  verify_send_packet, recv_packet, check_recv, verify_recv_packet,
}
use peer_to_peer_decentraliz.Transport
use peer_to_peer_decentraliz.Transport.Handlers.{
  handle_conn_event, handle_core_event, on_incoming, on_send, init, init_peers, init_peer,
}
use peer_to_peer_decentraliz.Coordinator.{
  handle_packet_from_tun, handle_iroh_event, handle_event, handle_actions, handle_action,
  map_iroh_event_to_core_event,
}
use peer_to_peer_decentraliz.Examples.Mesh.{nat_keys, remote}

abbrev pub five : Ipv4Addr
five = record { a = 10; b = 67; c = 1; d = 5 }

abbrev pub nine : Ipv4Addr
nine = record { a = 10; b = 67; c = 1; d = 9 }

abbrev pub ip_of : ℕ → Ipv4Addr
ip_of k = ite (ℕ_discrete k 5) five nine

abbrev pub table_of : ℕ → List (Ipv4Addr × ℕ)
table_of k = ite (ℕ_discrete k 5) ((nine, 9) ∷ []) ((five, 5) ∷ [])

abbrev pub greeting : Bytes
greeting = datagram 20 64 five nine []

pub greeting-IsBytes : IsBytes greeting
unfolding datagram
greeting-IsBytes = omega arith

-- The device of 5 gives the greeting, that of 9 nothing.
abbrev Given : ℕ → Bytes → Type 0
Given k p = (k ≡ 5) × (p ≡ greeting)

abbrev Reached : Network ℕ ℕ → Type 0
Reached = Reaches nat_keys remote Given ip_of table_of

unfoldable first : Network ℕ ℕ
first = opened nat_keys remote ip_of table_of

first-Reached : Reached first
unfolding first
first-Reached = begins

unfoldable then : Network ℕ ℕ → ℕ → Round ℕ ℕ → Network ℕ ℕ
then w k r = elim (move nat_keys remote w k r) [ returns next ↦ next | panics ↦ w ]

then-Reached :
    (w : Network ℕ ℕ) (k : ℕ) (r : Round ℕ ℕ)
    → Reached w
    → Allowed nat_keys remote Given w k r
    → Reached (then w k r)
unfolding then
then-Reached w k r reached a =
    elim (move nat_keys remote w k r)
        as (λ m. Returns Reached m → Reached (elim m [ returns next ↦ next | panics ↦ w ])) [
          | returns next ↦ λ h. h
          | panics ↦ λ h. absurd h
        ]
      (move-Reaches nat_keys remote Given ip_of table_of w k r reached a)

-- The connection and the device are up at 5.
unfoldable linked : Network ℕ ℕ
unfolding first then
linked =
    then (then (then first 5 (inner (manager_event (incoming_connection 9)))) 5 (inner coord_event))
      5 (create (ok tt))

linked-Reached : Reached linked
unfolding linked
linked-Reached =
    then-Reached _ 5 (create (ok tt))
      (then-Reached _ 5 (inner coord_event)
        (then-Reached _ 5 (inner (manager_event (incoming_connection 9))) first-Reached tt) tt)
      tt

-- The device gives the greeting, which the coordinator routes and the manager hands to the session.
unfoldable handed : Network ℕ ℕ
unfolding linked then
handed =
    then (then (then linked 5 (reader_reads (ok greeting))) 5 take_packet) 5 (inner manager_action)

handed-Reached : Reached handed
unfolding handed
handed-Reached =
    then-Reached _ 5 (inner manager_action)
      (then-Reached _ 5 take_packet
        (then-Reached _ 5 (reader_reads (ok greeting)) linked-Reached
          (greeting-IsBytes, (refl, refl)))
        tt)
      tt

handed_wire : handed.wire ≡ record { from = 5; to = 9; content = greeting } ∷ []
unfolding handed linked first then move opened round reader_turn writer_turn take_turn reader_round
    after_write tun_turn turn start start_with key_set insert_key coord_turn manager_turn
    handle_packet_from_tun handle_iroh_event handle_event handle_actions handle_action
    map_iroh_event_to_core_event process send_packet Vpn.new new_peers on_peer_connected check_send
    send_to buffer verify_send_packet parse read_fields handle_conn_event handle_core_event
    on_incoming on_send init init_peers init_peer Transport.new new_table init_ready_connection
    set_state start_connecting init_new_connection datagram get insert ℕ_discrete Ipv4Addr-discrete
handed_wire = refl

greeting-Memᴰ : Memᴰ (record { from = 5; to = 9; content = greeting }) handed.wire
greeting-Memᴰ = rw handed_wire (Memᴰ.head refl)

unfoldable read : Network ℕ ℕ
unfolding handed
read = then handed 9 (inner (session_packet greeting 5))

read-Reached : Reached read
unfolding read
read-Reached =
    then-Reached handed 9 (inner (session_packet greeting 5)) handed-Reached
      (greeting-IsBytes, greeting-Memᴰ)

-- The coordinator of 9 routes it to the device, once this is made.
unfoldable delivered : Network ℕ ℕ
unfolding read then
delivered =
    then (then (then read 9 (inner coord_event)) 9 (create (ok tt))) 9 (writer_writes (ok tt))

delivered-Reached : Reached delivered
unfolding delivered
delivered-Reached =
    then-Reached _ 9 (writer_writes (ok tt))
      (then-Reached _ 9 (create (ok tt)) (then-Reached read 9 (inner coord_event) read-Reached tt)
        tt)
      tt

delivered_written : (delivered.hosts 9).written ≡ greeting ∷ []
unfolding delivered read handed linked first then move opened round reader_turn writer_turn
    take_turn reader_round after_write tun_turn turn start start_with key_set insert_key coord_turn
    manager_turn handle_packet_from_tun handle_iroh_event handle_event handle_actions handle_action
    map_iroh_event_to_core_event process send_packet Vpn.new new_peers on_peer_connected check_send
    send_to buffer verify_send_packet parse read_fields handle_conn_event handle_core_event
    on_incoming on_send init init_peers init_peer Transport.new new_table init_ready_connection
    set_state start_connecting init_new_connection datagram get insert ℕ_discrete Ipv4Addr-discrete
    recv_packet check_recv verify_recv_packet
delivered_written = refl

Reaches-IsGenuine_example :
    All (IsSent nat_keys remote Given ip_of table_of) delivered.wire
    × ((k : ℕ)
        → All (IsGenuine nat_keys remote Given ip_of table_of k) (delivered.hosts k).written
          × All
              (IsGenuine nat_keys remote Given ip_of table_of k)
              (delivered.hosts k).node.out.to_tun)
Reaches-IsGenuine_example =
    Reaches-IsGenuine nat_keys remote Given ip_of table_of delivered delivered-Reached
