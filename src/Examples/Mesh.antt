-- ===== src/Examples/Mesh.antt =====
-- A node with two peers (iroh.rs, coord.rs, main.rs). Keys are numbers, and a connection is named
-- by its remote key.
use mathlib.Core.List.{Memᴰ}
use peer_to_peer_decentraliz.Base.{
  length, ◌≤◌, ℕ, ◌≡◌, refl, ◌⊎◌, false, List, [], ◌∷◌, none, some, arith, ltb, ℕ_discrete, get,
  insert, All, Returns, ◌>>=◌,
}
use peer_to_peer_decentraliz.Packet.{Bytes, Ipv4Addr}
use peer_to_peer_decentraliz.Packet.Header.{IsBytes, datagram}
use peer_to_peer_decentraliz.Vpn.Refinement.{view}
use peer_to_peer_decentraliz.Transport.{
  KeyOrder, connecting, disconnected_from_peer, connected_to_peer, send_packet_to, connect_to_peer,
  disconnect_from_peer, ConnectionEvent, outgoing_connection, incoming_connection, drop_sender,
  Iroh, state_of, new_table, new, connected,
}
use peer_to_peer_decentraliz.Transport.Handlers.{
  Input, from_tasks, from_coord, handle_core_event, loop, run,
}
use peer_to_peer_decentraliz.Transport.Announcements.{sent_events, hear, linked}
use peer_to_peer_decentraliz.Transport.Directions.{IsDirected, run-IsDirected}
use peer_to_peer_decentraliz.Transport.Reports.{none_up, run-hear}
use peer_to_peer_decentraliz.Transport.Pairs.{Meets, started, started-Meets}
use peer_to_peer_decentraliz.Transport.Races.{
  reconnect_race, reconnect_race-drops, disconnect_unknown-connects,
}
use peer_to_peer_decentraliz.Node.{
  Turn, coord_event, host_packet, manager_action, manager_event, session_packet, start, play,
  intermod_channel_capacity,
}
use peer_to_peer_decentraliz.Node.Views.{ups, IsSend}
use peer_to_peer_decentraliz.Node.Invariant.{IsTurn}
use peer_to_peer_decentraliz.Node.Schedules.{play-start}
use peer_to_peer_decentraliz.Node.CatchUp.{coord_turns, IsCaughtUp, play-IsCaughtUp}
use peer_to_peer_decentraliz.Transport.Fates.{Fate, loop-Fate}
use peer_to_peer_decentraliz.Node.Bounds.{start-IsBounded}
use peer_to_peer_decentraliz.Vpn.{PeerState, max_packets_in_queue}

abbrev pub nat_keys : KeyOrder ℕ
nat_keys = record {
  eq = ℕ_discrete;
  lt = ltb;
  lt_irrefl = λ a. ground arith;
  lt_asymm = λ a b h. ground arith;
  lt_total = λ a b n h. ground arith;
}

abbrev pub remote : ℕ → ℕ
remote c = c

-- Node 5 dials 3 and waits for 9.
abbrev inputs : List (Input ℕ ℕ)
inputs =
    from_tasks (some (outgoing_connection 3))
    ∷ from_coord (some (send_packet_to (1 ∷ []) 3))
    ∷ from_tasks (some (incoming_connection 9))
    ∷ from_tasks (some (ConnectionEvent.disconnected 3))
    ∷ from_coord none
    ∷ []

run-IsDirected_example :
    IsDirected nat_keys remote (run nat_keys remote (new nat_keys remote 5 (3 ∷ 9 ∷ [])) inputs).0
run-IsDirected_example = run-IsDirected nat_keys remote 5 (3 ∷ 9 ∷ []) inputs

run-hear_example :
    let r = run nat_keys remote (new nat_keys remote 5 (3 ∷ 9 ∷ [])) inputs in
    hear ℕ_discrete (none_up nat_keys remote) (sent_events r.1) ≡ linked nat_keys remote r.0
run-hear_example = run-hear nat_keys remote 5 (3 ∷ 9 ∷ []) inputs

run_events :
    sent_events (run nat_keys remote (new nat_keys remote 5 (3 ∷ 9 ∷ [])) inputs).1
    ≡ connected_to_peer 3 ∷ connected_to_peer 9 ∷ disconnected_from_peer 3 ∷ []
unfolding run new new_table get insert ℕ_discrete
run_events = refl

started-Meets_example :
    Meets nat_keys remote 5 9
      (started nat_keys remote 5 (9 ∷ []))
      (started nat_keys remote 9 (5 ∷ []))
      9
      5
    ⊎ Meets nat_keys remote 9 5
        (started nat_keys remote 9 (5 ∷ []))
        (started nat_keys remote 5 (9 ∷ []))
        5
        9
unfolding ℕ_discrete
started-Meets_example =
    started-Meets nat_keys remote 5 9 (9 ∷ []) (5 ∷ []) 9 5 (omega arith) refl refl refl refl

-- Node 5 with the peer 9 connected, by task 1 and channel 0.
held : Iroh ℕ ℕ
unfolding run new
held =
    (run nat_keys remote (new nat_keys remote 5 (9 ∷ []))
      (from_tasks (some (incoming_connection 9)) ∷ [])).0

reconnect_race-drops_example :
    let r = loop nat_keys remote held (reconnect_race nat_keys remote 9) in
    (linked nat_keys remote r.0 9 ≡ false)
    × (sent_events r.1 ≡ connected_to_peer 9 ∷ disconnected_from_peer 9 ∷ [])
    × Memᴰ (drop_sender 1) r.1
unfolding held new_table get insert ℕ_discrete
reconnect_race-drops_example = reconnect_race-drops nat_keys remote held 9 9 1 0 refl

disconnect_unknown-connects_example :
    let st' = (handle_core_event nat_keys remote held (disconnect_from_peer 4)).0 in
    (handle_core_event nat_keys remote held (connect_to_peer 4) ≡ (held, []))
    × (state_of nat_keys remote (handle_core_event nat_keys remote st' (connect_to_peer 4)).0 4
        ≡ some (connecting 2))
unfolding held new_table get insert ℕ_discrete
disconnect_unknown-connects_example = disconnect_unknown-connects nat_keys remote held 4 refl

abbrev pub own : Ipv4Addr
own = record { a = 10; b = 67; c = 1; d = 5 }

abbrev pub near : Ipv4Addr
near = record { a = 10; b = 67; c = 2; d = 10 }

abbrev pub packet : Bytes
packet = datagram 20 64 own near []

pub packet-IsBytes : IsBytes packet
unfolding datagram
packet-IsBytes = omega arith

abbrev pub reply : Bytes
reply = datagram 20 64 near own []

pub reply-IsBytes : IsBytes reply
unfolding datagram
reply-IsBytes = omega arith

abbrev schedule : List (Turn ℕ ℕ)
schedule =
    host_packet packet
    ∷ manager_event (incoming_connection 9)
    ∷ session_packet reply 9
    ∷ coord_event
    ∷ manager_action
    ∷ manager_event (ConnectionEvent.disconnected 9)
    ∷ coord_event
    ∷ []

schedule-IsTurn : All IsTurn schedule
schedule-IsTurn = (packet-IsBytes, (tt, (reply-IsBytes, (tt, (tt, (tt, (tt, tt)))))))

play-start_example :
    Returns
      (λ n.
        All IsSend n.out.to_iroh
        × (hear ℕ_discrete (ups (view ℕ_discrete n.core)) n.to_coord
            ≡ linked nat_keys remote n.iroh))
      (play nat_keys remote (start nat_keys remote 5 own ((near, 9) ∷ [])) schedule)
play-start_example = play-start nat_keys remote 5 own ((near, 9) ∷ []) schedule schedule-IsTurn

start-IsBounded_example :
    Returns
      (λ n.
        (length n.out.to_iroh ≤ intermod_channel_capacity)
        × (length n.out.to_tun ≤ intermod_channel_capacity)
        × ((k : ℕ) (p : PeerState)
            → get ℕ_discrete k n.core.peers ≡ some p
            → length p.packet_queue ≤ max_packets_in_queue))
      (play nat_keys remote (start nat_keys remote 5 own ((near, 9) ∷ [])) schedule)
start-IsBounded_example =
    start-IsBounded nat_keys remote 5 own ((near, 9) ∷ []) schedule schedule-IsTurn

play-IsCaughtUp_example : Returns (IsCaughtUp nat_keys remote) (
    play nat_keys remote (start nat_keys remote 5 own ((near, 9) ∷ [])) schedule >>= λ n.
    play nat_keys remote n (coord_turns (length n.to_coord)))
play-IsCaughtUp_example =
    play-IsCaughtUp nat_keys remote 5 own ((near, 9) ∷ []) schedule schedule-IsTurn

-- Node 5 is connected to 9, which connects anew.
abbrev in_session : Iroh ℕ ℕ
in_session = record {
  id = 5;
  peers = 9 ∷ [];
  state_table = (9, connected 1 9 0) ∷ [];
  tasks = 2;
  channels = 1;
}

loop-Fate_example :
    Fate nat_keys remote 1 0 9 9
      (from_coord (some (send_packet_to (1 ∷ []) 9))
        ∷ from_tasks (some (incoming_connection 9))
        ∷ [])
      (loop nat_keys remote in_session (
        from_coord (some (send_packet_to (1 ∷ []) 9))
        ∷ from_tasks (some (incoming_connection 9))
        ∷ []))
unfolding get ℕ_discrete
loop-Fate_example =
    loop-Fate nat_keys remote 1 0 9 in_session 9
      (from_coord (some (send_packet_to (1 ∷ []) 9))
        ∷ from_tasks (some (incoming_connection 9))
        ∷ [])
      refl
