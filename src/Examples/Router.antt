-- ===== src/Examples/Router.antt =====
-- A router of two peers, with keys that are numbers (vpn_core.rs, packet/ipv4.rs).
use mathlib.Core.List.{Sublist, Permᴰ}
use peer_to_peer_decentraliz.Base.{
  ℕ, ◌≡◌, refl, List, [], ◌∷◌, ◌++◌, map, some, arith, ℕ_discrete, get, insert, All, ok, returns,
  Returns, ◌>>=◌, ◌↔◌,
}
use peer_to_peer_decentraliz.Packet.{Bytes, Ipv4Addr, Ipv4Addr-discrete, parse}
use peer_to_peer_decentraliz.Packet.Header.{
  IsBytes, datagram, parsed_of, parse-parsed_of, parse-datagram, addr_of,
}
use peer_to_peer_decentraliz.Vpn.Verdict.{send_verdict}
use peer_to_peer_decentraliz.Vpn.Queue.{keep_last}
use peer_to_peer_decentraliz.Vpn.Invariant.{
  IsValid, IsEvent, SameConfig, new-IsValid, process-IsValid,
}
use peer_to_peer_decentraliz.Vpn.Admission.{
  MayLeave, MayEnter, verify_send_packet-MayLeave, recv_packet-MayEnter,
}
use peer_to_peer_decentraliz.Vpn.Refinement.{Links, up, down, view, on_link, process-on_link}
use peer_to_peer_decentraliz.Vpn.Delivery.{waiting, sent_to, all_accepted, run-Sublist}
use peer_to_peer_decentraliz.Vpn.Offline.{Hops, connect-run}
use peer_to_peer_decentraliz.Vpn.Whitelist.{Concerns, listed, run-whitelist}
use peer_to_peer_decentraliz.Vpn.Order.{actions_of, run-Perm}
use peer_to_peer_decentraliz.Vpn.Run.{run}
use peer_to_peer_decentraliz.Vpn.{
  VpnCore, Event, peer_connected, peer_disconnected, packet_from_tun, packet_from_iroh, Action,
  send_packet_to, write_to_tun, new, verify_connection, new_peers, check_send, verify_send_packet,
  recv_packet, process,
}

abbrev own : Ipv4Addr
own = record { a = 10; b = 67; c = 1; d = 5 }

abbrev near : Ipv4Addr
near = record { a = 10; b = 67; c = 2; d = 10 }

abbrev table : List (Ipv4Addr × ℕ)
table = (near, 7) ∷ (record { a = 10; b = 67; c = 1; d = 11 }, 8) ∷ []

core : VpnCore ℕ
core = new ℕ_discrete own table 1100

core-IsValid : IsValid ℕ_discrete core
unfolding core
core-IsValid = new-IsValid ℕ_discrete own table 1100

-- From this host to the peer 7, and back.
ping : Bytes
ping = datagram 24 64 own near (1 ∷ 2 ∷ 3 ∷ 4 ∷ [])

reply : Bytes
reply = datagram 22 64 near own (5 ∷ 6 ∷ [])

ping-IsBytes : IsBytes ping
unfolding ping datagram
ping-IsBytes = omega arith

reply-IsBytes : IsBytes reply
unfolding reply datagram
reply-IsBytes = omega arith

parse-parsed_of_example : parse ping ≡ returns (parsed_of ping)
parse-parsed_of_example = parse-parsed_of ping ping-IsBytes

parse-datagram_example :
    parse (datagram 24 64 own near (1 ∷ 2 ∷ 3 ∷ 4 ∷ []))
    ≡ returns (
        ok (record {
          packet_length = 24;
          total_length = 24;
          ttl = 64;
          src_ip = own;
          dest_ip = near;
        }))
unfolding ping
parse-datagram_example =
    parse-datagram 24 64 own near (1 ∷ 2 ∷ 3 ∷ 4 ∷ []) (omega arith) ping-IsBytes

process-IsValid_example :
    Returns
      (λ r. IsValid ℕ_discrete r.0 × SameConfig ℕ_discrete core r.0)
      (process ℕ_discrete core (packet_from_tun ping))
process-IsValid_example =
    process-IsValid ℕ_discrete core (packet_from_tun ping) ping-IsBytes core-IsValid

process-on_link_example :
    Returns
      (λ r.
        ◌≡◌ {A = Links ℕ × List (Action ℕ)}
          (view ℕ_discrete r.0, r.1)
          (on_link ℕ_discrete core (view ℕ_discrete core) (packet_from_tun ping)))
      (process ℕ_discrete core (packet_from_tun ping))
process-on_link_example =
    process-on_link ℕ_discrete core (packet_from_tun ping) ping-IsBytes core-IsValid

verify_send_packet-MayLeave_example :
    (verify_send_packet ℕ_discrete core ping ≡ returns (ok (addr_of ping 16)))
    ↔ MayLeave ℕ_discrete core ping
verify_send_packet-MayLeave_example = verify_send_packet-MayLeave ℕ_discrete core ping ping-IsBytes

recv_packet-MayEnter_example :
    (recv_packet ℕ_discrete core reply 7 ≡ returns (core, write_to_tun reply ∷ []))
    ↔ MayEnter ℕ_discrete core reply 7
recv_packet-MayEnter_example = recv_packet-MayEnter ℕ_discrete core reply 7 reply-IsBytes

abbrev history : List (Event ℕ)
history =
    packet_from_tun ping
    ∷ peer_connected 7
    ∷ packet_from_tun ping
    ∷ peer_disconnected 7
    ∷ packet_from_iroh reply 7
    ∷ []

history-IsEvent : All (IsEvent ℕ_discrete) history
history-IsEvent = (ping-IsBytes, (tt, (ping-IsBytes, (tt, (reply-IsBytes, tt)))))

run-Sublist_example :
    Returns
      (λ r.
        Sublist
          (sent_to ℕ_discrete 7 r.1 ++ waiting (view ℕ_discrete r.0 7))
          (waiting (view ℕ_discrete core 7) ++ all_accepted ℕ_discrete core 7 history))
      (run ℕ_discrete core history)
run-Sublist_example = run-Sublist ℕ_discrete core history 7 history-IsEvent core-IsValid

run-whitelist_example :
    Returns
      (λ r.
        ((k : ℕ) → verify_connection ℕ_discrete r.0 k ≡ listed ℕ_discrete table k)
        × All (Concerns (listed ℕ_discrete table)) r.1)
      (run ℕ_discrete (new ℕ_discrete own table 1100) history)
run-whitelist_example = run-whitelist ℕ_discrete own table 1100 history history-IsEvent

core_waits : view ℕ_discrete core 7 ≡ some (down [])
unfolding core new new_peers get insert ℕ_discrete
core_waits = refl

ping-Hops : Hops ℕ_discrete core 7 (ping ∷ ping ∷ [])
unfolding ping datagram core new new_peers get send_verdict check_send ℕ_discrete Ipv4Addr-discrete
ping-Hops = ((ping-IsBytes, refl), ((ping-IsBytes, refl), tt))

connect-run_example :
    Returns
      (λ r.
        (r.1 ≡ map (λ p. send_packet_to p 7) (keep_last 1000 ([] ++ (ping ∷ ping ∷ []))))
        × (view ℕ_discrete r.0 7 ≡ some up))
      (run ℕ_discrete core (map packet_from_tun (ping ∷ ping ∷ [])) >>= λ r.
        process ℕ_discrete r.0 (peer_connected 7))
connect-run_example =
    connect-run ℕ_discrete core 7 [] (ping ∷ ping ∷ []) ping-Hops core-IsValid core_waits

-- The same routes, in the other order.
abbrev turned : List (Ipv4Addr × ℕ)
turned = (record { a = 10; b = 67; c = 1; d = 11 }, 8) ∷ (near, 7) ∷ []

run-Perm_example :
    actions_of (run ℕ_discrete (new ℕ_discrete own turned 1100) history)
    ≡ actions_of (run ℕ_discrete (new ℕ_discrete own table 1100) history)
unfolding get Ipv4Addr-discrete ℕ_discrete
run-Perm_example =
    run-Perm ℕ_discrete own table turned 1100 history (refl, (refl, tt)) (Permᴰ.swap refl refl)
      history-IsEvent
