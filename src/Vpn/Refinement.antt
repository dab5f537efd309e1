-- ===== src/Vpn/Refinement.antt =====
-- The router as its clients see it: a route for each packet, and for each peer a link that is up,
-- or down with the packets that wait for it. The view forgets the tables and their order.
use mathlib.Core.Path.{fun_ext}
use peer_to_peer_decentraliz.Base.{
  ◌≡◌, ite, false, Option, some, none, List, [], ◌∷◌, ◌++◌, map, arith, leb, length, get,
  get-insert, Result, ok, err, Returns, Returns-if, Returns-both, Option-cases, Result-cases, inl,
  inr, if◌then◌else◌, not,
}
use peer_to_peer_decentraliz.Packet.{Bytes, Ipv4Addr, Ipv4Addr-discrete}
use peer_to_peer_decentraliz.Packet.Header.{IsBytes}
use peer_to_peer_decentraliz.Vpn.Queue.{keep_last, buffer-keep_last}
use peer_to_peer_decentraliz.Vpn.Verdict.{
  send_verdict, recv_verdict, verify_send_packet-verdict, verify_recv_packet-verdict,
}
use peer_to_peer_decentraliz.Vpn.Invariant.{IsValid, IsEvent, SameConfig, process-IsValid}
use peer_to_peer_decentraliz.Vpn.{
  VpnCore, PeerState, Event, peer_connected, peer_disconnected, packet_from_tun, packet_from_iroh,
  Action, disconnect_from_peer, send_packet_to, write_to_tun, no_action, SendPacketError,
  unknown_dest_ip, internal_state_error, unknown_peer, already_connected, already_disconnected,
  send_packet_error, recv_packet_error, packet_buffered, packet_queue_overflow,
  max_packets_in_queue, drained, set_peer, process, on_peer_connected, on_peer_disconnected,
  send_to, send_packet, recv_packet,
}

pub data Link : Type 0 where
  up : Link
  down : List Bytes → Link

-- The peers' links; `none` for a key that is no peer.
abbrev pub Links : Type 0 → Type 0
Links K = K → Option Link

abbrev pub link_of : PeerState → Link
link_of p = if p.is_connected then up else down p.packet_queue

abbrev pub links_entry : Option PeerState → Option Link
links_entry none = none
links_entry (some p) = some (link_of p)

-- What is logged when a packet joins a queue.
abbrev pub buffer_log : {K : Type 0} → List Bytes → List (Action K)
buffer_log queue =
    if leb max_packets_in_queue (length queue)
    then no_action packet_queue_overflow ∷ no_action packet_buffered ∷ []
    else no_action packet_buffered ∷ []

module _ {K : Type 0} (key_eq : Discrete K) where
  abbrev pub view : VpnCore K → Links K
  view c k = links_entry (get key_eq k c.peers)

  abbrev pub update : K → Link → Links K → Links K
  update k l v j = ite (key_eq k j) (some l) (v j)

  -- The peer that a packet from the host is to go to.
  abbrev pub next_hop : VpnCore K → Bytes → Result K SendPacketError
  next_hop c packet = elim (send_verdict key_eq c packet) [
    | err e ↦ err e
    | ok ip ↦ elim (get Ipv4Addr-discrete ip c.route_table) [
      | none ↦ err unknown_dest_ip
      | some k ↦ ok k
    ]
  ]

  -- The specification of an event, over the links alone. `c` gives the address and the routes.
  abbrev pub on_link : VpnCore K → Links K → Event K → Links K × List (Action K)
  on_link c v (peer_connected k) = elim (v k) [
    | none ↦ (v, disconnect_from_peer k ∷ [])
    | some l ↦ elim l [
      | up ↦ (v, no_action already_connected ∷ [])
      | down queue ↦ (update k up v, map (λ p. send_packet_to p k) queue)
    ]
  ]
  on_link c v (peer_disconnected k) = elim (v k) [
    | none ↦ (v, no_action unknown_peer ∷ [])
    | some l ↦ elim l [
      | up ↦ (update k (down []) v, [])
      | down queue ↦ (v, no_action already_disconnected ∷ [])
    ]
  ]
  on_link c v (packet_from_tun packet) = elim (next_hop c packet) [
    | err e ↦ (v, no_action (send_packet_error e) ∷ [])
    | ok k ↦ elim (v k) [
      | none ↦ (v, no_action internal_state_error ∷ [])
      | some l ↦ elim l [
        | up ↦ (v, send_packet_to packet k ∷ [])
        | down queue ↦ (
          update k (down (keep_last max_packets_in_queue (queue ++ (packet ∷ [])))) v,
          buffer_log queue,
        )
      ]
    ]
  ]
  on_link c v (packet_from_iroh packet from) = elim (recv_verdict key_eq c packet from) [
    | ok _ ↦ (v, write_to_tun packet ∷ [])
    | err e ↦ (v, no_action (recv_packet_error e) ∷ [])
  ]

  view-set_peer :
      (c : VpnCore K) (k : K) (p : PeerState)
      → view (set_peer key_eq c k p) ≡ update k (link_of p) (view c)
  view-set_peer c k p = fun_ext λ j. ground (arith, get-insert key_eq j k p c.peers)

  abbrev Refines : VpnCore K → Event K → VpnCore K × List (Action K) → Type 0
  Refines c e r = ◌≡◌ {A = Links K × List (Action K)} (view r.0, r.1) (on_link c (view c) e)

  on_peer_connected-Refines :
      (c : VpnCore K) (k : K)
      → IsValid key_eq c
      → Returns (Refines c (peer_connected k)) (on_peer_connected key_eq c k)
  unfolding on_peer_connected
  on_peer_connected-Refines c k v = elim (Option-cases (get key_eq k c.peers)) [
    | inl e ↦ rw (e, on_peer_connected) (ground arith)
    | inr (p, e) ↦
        rw (e, on_peer_connected)
          (Returns-if (Refines c (peer_connected k)) p.is_connected _ _ (λ open_now. ground arith)
            (λ closed. ground (arith, view-set_peer c k (drained p))))
  ]

  on_peer_disconnected-Refines :
      (c : VpnCore K) (k : K)
      → IsValid key_eq c
      → Returns (Refines c (peer_disconnected k)) (on_peer_disconnected key_eq c k)
  unfolding on_peer_disconnected
  on_peer_disconnected-Refines c k v = elim (Option-cases (get key_eq k c.peers)) [
    | inl e ↦ rw (e, on_peer_disconnected) (ground arith)
    | inr (p, e) ↦
        rw (e, on_peer_disconnected)
          (Returns-if (Refines c (peer_disconnected k)) (not p.is_connected) _ _
            (λ closed. ground arith)
            (λ open_now.
              ground
                (arith, v.queued k p e, view-set_peer c k (record p { is_connected = false }))))
  ]

  -- `send_packet` once its packet has passed and its destination has a route.
  send_to-Refines :
      (c : VpnCore K) (packet : Bytes) (ip : Ipv4Addr) (k : K) (p : PeerState)
      → IsValid key_eq c
      → send_verdict key_eq c packet ≡ ok ip
      → get Ipv4Addr-discrete ip c.route_table ≡ some k
      → get key_eq k c.peers ≡ some p
      → Returns (Refines c (packet_from_tun packet)) (send_to key_eq c packet ip)
  unfolding send_to
  send_to-Refines c packet ip k p v passed e found =
      rw (e, send_to)
        (rw (found, send_to)
          (Returns-if (Refines c (packet_from_tun packet)) p.is_connected _ _
            (λ open_now. ground arith)
            (λ closed.
              rw (buffer-keep_last {K = K} p.packet_queue packet (v.queued k p found).bounded) (
                ground (
                  arith,
                  view-set_peer c k (record p {
                    packet_queue = keep_last max_packets_in_queue (p.packet_queue ++ (packet ∷ []));
                  }),
                )))))

  send_packet-Refines :
      (c : VpnCore K) (packet : Bytes)
      → IsBytes packet
      → IsValid key_eq c
      → Returns (Refines c (packet_from_tun packet)) (send_packet key_eq c packet)
  unfolding send_packet
  send_packet-Refines c packet b v =
      rw (verify_send_packet-verdict key_eq c packet b)
        (elim (Result-cases (send_verdict key_eq c packet)) [
          | inr (_, e) ↦ rw e (ground arith)
          | inl (ip, e) ↦ rw e (elim (Option-cases (get Ipv4Addr-discrete ip c.route_table)) [
            | inl lost ↦ ground arith
            | inr (k, route) ↦ elim (Option-cases (get key_eq k c.peers)) [
              | inl missing ↦ cc (v.routed ip k route)
              | inr (p, found) ↦ send_to-Refines c packet ip k p v e route found
            ]
          ])
        ])

  recv_packet-Refines :
      (c : VpnCore K) (packet : Bytes) (from : K)
      → IsBytes packet
      → Returns (Refines c (packet_from_iroh packet from)) (recv_packet key_eq c packet from)
  unfolding recv_packet
  recv_packet-Refines c packet from b =
      rw (verify_recv_packet-verdict key_eq c packet from b) (ground arith)

  -- In a valid router every event returns, without a panic, and its actions and the peers' links
  -- behind it are those of the specification `on_link`.
  pub process-on_link :
      (c : VpnCore K) (e : Event K)
      → IsEvent key_eq e
      → IsValid key_eq c
      → Returns
          (λ r. ◌≡◌ {A = Links K × List (Action K)} (view r.0, r.1) (on_link c (view c) e))
          (process key_eq c e)
  unfolding process
  process-on_link c (peer_connected k) b v = on_peer_connected-Refines c k v
  process-on_link c (peer_disconnected k) b v = on_peer_disconnected-Refines c k v
  process-on_link c (packet_from_tun packet) b v = send_packet-Refines c packet b v
  process-on_link c (packet_from_iroh packet from) b v = recv_packet-Refines c packet from b

  -- Both halves of what a step gives: the invariant and the specification.
  pub process-both :
      (c : VpnCore K) (e : Event K)
      → IsEvent key_eq e
      → IsValid key_eq c
      → Returns
          (λ r.
            (IsValid key_eq r.0 × SameConfig key_eq c r.0)
            × (◌≡◌ {A = Links K × List (Action K)} (view r.0, r.1) (on_link c (view c) e)))
          (process key_eq c e)
  process-both c e b v =
      Returns-both _ _ (process key_eq c e) (process-IsValid key_eq c e b v)
        (process-on_link c e b v)
