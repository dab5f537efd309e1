-- ===== src/Examples/Network.antt =====
-- Two nodes, 5 and 9, that hold a connection (vpn_core.rs, coord.rs, main.rs). Keys are numbers, and
-- a connection is named by its remote key.
use peer_to_peer_decentraliz.Base.{
  ℕ, suc, ◌≡◌, refl, Bool, true, List, [], ◌∷◌, some, arith, ℕ_discrete, get, map, returns, insert,
}
use peer_to_peer_decentraliz.Packet.{Bytes, Ipv4Addr, Ipv4Addr-discrete, parse, read_fields}
use peer_to_peer_decentraliz.Packet.Header.{datagram}
use peer_to_peer_decentraliz.Vpn.{
  VpnCore, PeerState, Action, packet_from_tun, packet_from_iroh, send_packet_to, write_to_tun,
  no_action, packet_buffered, process, max_packets_in_queue,
}
use peer_to_peer_decentraliz.Vpn
use peer_to_peer_decentraliz.Vpn.Run
use peer_to_peer_decentraliz.Transport.{
  connected_to_peer, disconnected_from_peer, recv_packet_from, connected,
}
use peer_to_peer_decentraliz.Coordinator.{Outbox, accepted, closed, run}
use peer_to_peer_decentraliz.Coordinator.Rounds.{Arrival, event, packet, input_of, event_of}
use peer_to_peer_decentraliz.Node.{Node, Queues, queues}
use peer_to_peer_decentraliz.Node.Channels.{Filled}
use peer_to_peer_decentraliz.Node.Rounds.{run-Filled}

abbrev own : Ipv4Addr
own = record { a = 10; b = 67; c = 1; d = 5 }

abbrev near : Ipv4Addr
near = record { a = 10; b = 67; c = 2; d = 10 }

-- A router with one peer, which is connected.
abbrev core_of : Ipv4Addr → Ipv4Addr → ℕ → VpnCore ℕ
core_of ip other key = record {
  max_packet_size = 1100;
  ipv4_addr = ip;
  peers = (key, record { is_connected = true; ipv4_addr = other; packet_queue = [] }) ∷ [];
  route_table = (other, key) ∷ [];
}

abbrev node_of : ℕ → Ipv4Addr → Ipv4Addr → ℕ → Node ℕ ℕ
node_of id ip other key = record {
  core = core_of ip other key;
  iroh = record {
    id = id;
    peers = key ∷ [];
    state_table = (key, connected 1 key 0) ∷ [];
    tasks = 2;
    channels = 1;
  };
  to_coord = [];
  out = record { to_iroh = []; to_tun = [] };
}

abbrev too_large : Bool → Bool
too_large b = b

abbrev sent : Bytes
sent = datagram 24 64 own near (1 ∷ 2 ∷ 3 ∷ 4 ∷ [])

-- A world that counts what is sent, over channels that never close.
abbrev counter : Outbox ℕ ℕ
counter = record {
  send_to_iroh = λ a w. some (suc w);
  try_send_to_iroh = λ a w. accepted (suc w);
  try_send_to_tun = λ p w. accepted (suc w);
}

-- What the peer sends back.
abbrev back : Bytes
back = datagram 24 64 near own (5 ∷ 6 ∷ 7 ∷ 8 ∷ [])

abbrev arrivals : List (Arrival ℕ)
arrivals =
    packet sent
    ∷ event (disconnected_from_peer 9)
    ∷ packet sent
    ∷ event (connected_to_peer 9)
    ∷ event (recv_packet_from back 9)
    ∷ []

-- The channel to the TUN device is closed.
abbrev deaf : Outbox ℕ ℕ
deaf = record counter { try_send_to_tun = λ p w. closed }

abbrev answers : List (Action ℕ)
answers =
    send_packet_to sent 9
    ∷ no_action packet_buffered
    ∷ send_packet_to sent 9
    ∷ write_to_tun back
    ∷ []

-- The packet that comes while the peer is away is sent when it is back.
answers-run :
    Run.run ℕ_discrete (core_of own near 9) (map event_of arrivals)
    ≡ returns (core_of own near 9, answers)
unfolding Run.run process Vpn.on_peer_connected Vpn.on_peer_disconnected Vpn.send_packet
    Vpn.recv_packet Vpn.verify_send_packet Vpn.verify_recv_packet Vpn.check_send Vpn.check_recv
    Vpn.send_to Vpn.buffer get insert ℕ_discrete Ipv4Addr-discrete datagram parse read_fields
answers-run = refl

abbrev empty : Queues ℕ
empty = record { to_iroh = []; to_tun = [] }

run-Filled_example :
    (r : Queues ℕ) × (run ℕ_discrete queues (core_of own near 9) empty (map input_of arrivals)
      ≡ returns (core_of own near 9, r))
    × Filled empty answers r
run-Filled_example =
    run-Filled ℕ_discrete (core_of own near 9) (core_of own near 9) empty arrivals answers
      answers-run (tt, (tt, (tt, (tt, tt))))
      (record { iroh_fits = omega arith; tun_fits = omega arith })
