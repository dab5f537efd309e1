-- ===== src/Vpn/Invariant.antt =====
-- What holds of a router between two events.
use peer_to_peer_decentraliz.Base.{
  ℕ, ◌≤◌, ◌≡◌, refl, true, false, some, List, [], ◌∷◌, ◌++◌, arith, length, get, insert, get-insert,
  is_some, Returns, Returns-if, not, Option-cases, Result-cases, false, inl, inr,
}
use peer_to_peer_decentraliz.Packet.{Bytes, Ipv4Addr, Ipv4Addr-discrete}
use peer_to_peer_decentraliz.Packet.Header.{IsBytes}
use peer_to_peer_decentraliz.Vpn.Verdict.{
  send_verdict, verify_send_packet-verdict, verify_recv_packet-verdict,
}
use peer_to_peer_decentraliz.Vpn.Queue.{buffer-keep_last, length-keep_last}
use peer_to_peer_decentraliz.Vpn.{
  VpnCore, PeerState, Event, peer_connected, peer_disconnected, packet_from_tun, packet_from_iroh,
  Action, max_packets_in_queue, fresh_peer, drained, new_peers, new, is_neighbour, set_peer,
  process, on_peer_connected, on_peer_disconnected, send_to, send_packet, recv_packet,
}

-- A queue is bounded, and empty while the peer is connected.
pub record IsQueued (p : PeerState) : Type 0 where
  pub bounded : length p.packet_queue ≤ max_packets_in_queue
  pub flushed : p.is_connected ≡ true → p.packet_queue ≡ []

module _ {K : Type 0} (key_eq : Discrete K) where
  -- Every route leads to a known peer, and every peer's queue is in order.
  pub record IsValid (c : VpnCore K) : Type 0 where
    pub routed :
        (ip : Ipv4Addr) (k : K)
        → get Ipv4Addr-discrete ip c.route_table ≡ some k
        → is_neighbour key_eq c k ≡ true
    pub queued : (k : K) (p : PeerState) → get key_eq k c.peers ≡ some p → IsQueued p

  set_peer-IsValid :
      (c : VpnCore K) (k : K) (p : PeerState)
      → IsValid c
      → IsQueued p
      → IsValid (set_peer key_eq c k p)
  set_peer-IsValid c k p v q = record {
    routed = λ ip j e. ground (arith, get-insert key_eq j k p c.peers, v.routed ip j);
    queued = λ j p' e. ground (arith, get-insert key_eq j k p c.peers, v.queued j p');
  }

  -- The settings that no event changes.
  pub record SameConfig (c d : VpnCore K) : Type 0 where
    pub same_size : d.max_packet_size ≡ c.max_packet_size
    pub same_addr : d.ipv4_addr ≡ c.ipv4_addr
    pub same_routes : d.route_table ≡ c.route_table

  abbrev pub Keeps : VpnCore K → VpnCore K × List (Action K) → Type 0
  Keeps c r = IsValid r.0 × SameConfig c r.0

  pub same : (c : VpnCore K) → SameConfig c c
  same c = record { same_size = refl; same_addr = refl; same_routes = refl }

  set_peer-Keeps :
      (c : VpnCore K) (k : K) (p : PeerState)
      → IsValid c
      → IsQueued p
      → IsValid (set_peer key_eq c k p) × SameConfig c (set_peer key_eq c k p)
  set_peer-Keeps c k p v q = (
    set_peer-IsValid c k p v q,
    record { same_size = refl; same_addr = refl; same_routes = refl },
  )

  on_peer_connected-Keeps :
      (c : VpnCore K) (k : K) → IsValid c → Returns (Keeps c) (on_peer_connected key_eq c k)
  unfolding on_peer_connected
  on_peer_connected-Keeps c k v = elim (Option-cases (get key_eq k c.peers)) [
    | inl e ↦ rw (e, on_peer_connected) (v, same c)
    | inr (p, e) ↦
        rw (e, on_peer_connected)
          (Returns-if (Keeps c) p.is_connected _ _ (λ _. (v, same c))
            (λ _. set_peer-Keeps c k (drained p) v (ground arith)))
  ]

  on_peer_disconnected-Keeps :
      (c : VpnCore K) (k : K) → IsValid c → Returns (Keeps c) (on_peer_disconnected key_eq c k)
  unfolding on_peer_disconnected
  on_peer_disconnected-Keeps c k v = elim (Option-cases (get key_eq k c.peers)) [
    | inl e ↦ rw (e, on_peer_disconnected) (v, same c)
    | inr (p, e) ↦
        rw (e, on_peer_disconnected)
          (Returns-if (Keeps c) (not p.is_connected) _ _ (λ _. (v, same c))
            (λ _.
              set_peer-Keeps c k (record p { is_connected = false }) v
                (ground (arith, v.queued k p e))))
  ]

  send_to-Keeps :
      (c : VpnCore K) (packet : Bytes) (ip : Ipv4Addr)
      → IsValid c
      → Returns (Keeps c) (send_to key_eq c packet ip)
  unfolding send_to
  send_to-Keeps c packet ip v = elim (Option-cases (get Ipv4Addr-discrete ip c.route_table)) [
    | inl e ↦ rw (e, send_to) (v, same c)
    | inr (k, e) ↦ elim (Option-cases (get key_eq k c.peers)) [
      | inl missing ↦ cc (v.routed ip k e)
      | inr (p, found) ↦
          rw (e, send_to)
            (rw (found, send_to)
              (Returns-if (Keeps c) p.is_connected _ _ (λ _. (v, same c))
                (λ closed. set_peer-Keeps c k _ v (
                  rw (buffer-keep_last {K = K} p.packet_queue packet (v.queued k p found).bounded)
                    (record {
                      bounded =
                          length-keep_last max_packets_in_queue (p.packet_queue ++ (packet ∷ []));
                      flushed = λ open_now. cc;
                    })))))
    ]
  ]

  send_packet-Keeps :
      (c : VpnCore K) (packet : Bytes)
      → IsBytes packet
      → IsValid c
      → Returns (Keeps c) (send_packet key_eq c packet)
  unfolding send_packet
  send_packet-Keeps c packet b v =
      rw (verify_send_packet-verdict key_eq c packet b)
        (elim (Result-cases (send_verdict key_eq c packet)) [
          | inl (ip, e) ↦ rw e (send_to-Keeps c packet ip v)
          | inr (_, e) ↦ rw e (v, same c)
        ])

  recv_packet-Keeps :
      (c : VpnCore K) (packet : Bytes) (from : K)
      → IsBytes packet
      → IsValid c
      → Returns (Keeps c) (recv_packet key_eq c packet from)
  unfolding recv_packet
  recv_packet-Keeps c packet from b v =
      rw (verify_recv_packet-verdict key_eq c packet from b) (v, same c)

  -- The packets of an event are sequences of octets.
  abbrev pub IsEvent : Event K → Type 0
  IsEvent (packet_from_tun packet) = IsBytes packet
  IsEvent (packet_from_iroh packet from) = IsBytes packet
  IsEvent _ = Unit {0}

  -- In a valid router no event panics; the router stays valid, and its packet limit, its address
  -- and its route table stay as they were.
  pub process-IsValid :
      (c : VpnCore K) (e : Event K)
      → IsEvent e
      → IsValid c
      → Returns (λ r. IsValid r.0 × SameConfig c r.0) (process key_eq c e)
  unfolding process
  process-IsValid c (peer_connected k) b v = on_peer_connected-Keeps c k v
  process-IsValid c (peer_disconnected k) b v = on_peer_disconnected-Keeps c k v
  process-IsValid c (packet_from_tun packet) b v = send_packet-Keeps c packet b v
  process-IsValid c (packet_from_iroh packet from) b v = recv_packet-Keeps c packet from b v

  -- The entries that `new_peers` makes are fresh, and no route is left without one.
  pub new_peers-fresh :
      (table : List (Ipv4Addr × K)) (peers : List (K × PeerState))
      → ((k : K) (p : PeerState) → get key_eq k peers ≡ some p → p ≡ fresh_peer p.ipv4_addr)
      → (k : K) (p : PeerState) → get key_eq k (new_peers key_eq table peers) ≡ some p
      → p ≡ fresh_peer p.ipv4_addr
  unfolding new_peers
  new_peers-fresh [] peers h k p e = h k p e
  new_peers-fresh ((ip, key) ∷ table) peers h k p e =
      new_peers-fresh table _
        (λ j q found. ground (arith, get-insert key_eq j key (fresh_peer ip) peers, h j q)) k p e

  new_peers_mono :
      (table : List (Ipv4Addr × K)) (peers : List (K × PeerState)) (k : K)
      → is_some (get key_eq k peers) ≡ true
      → is_some (get key_eq k (new_peers key_eq table peers)) ≡ true
  unfolding new_peers
  new_peers_mono [] peers k h = h
  new_peers_mono ((ip, key) ∷ table) peers k h =
      new_peers_mono table _ k (ground (arith, get-insert key_eq k key (fresh_peer ip) peers))

  new_peers-routed :
      (table : List (Ipv4Addr × K)) (peers : List (K × PeerState)) (ip : Ipv4Addr) (k : K)
      → get Ipv4Addr-discrete ip table ≡ some k
      → is_some (get key_eq k (new_peers key_eq table peers)) ≡ true
  unfolding new_peers get
  new_peers-routed [] peers ip k e = cc
  new_peers-routed ((i, key) ∷ table) peers ip k e = ground (
    arith,
    get-insert key_eq key key (fresh_peer i) peers,
    new_peers_mono table (insert key_eq key (fresh_peer i) peers) key,
    new_peers-routed table (insert key_eq key (fresh_peer i) peers) ip k,
  )

  -- A new router is valid, whatever its route table.
  pub new-IsValid :
      (ip : Ipv4Addr) (table : List (Ipv4Addr × K)) (size : ℕ) → IsValid (new key_eq ip table size)
  unfolding new get
  new-IsValid ip table size = record {
    routed = λ i k e. new_peers-routed table [] i k e;
    queued = λ k p e. ground (arith, new_peers-fresh table [] (λ j q none_yet. cc) k p e);
  }
