-- ===== src/Vpn/Admission.antt =====
-- Which packets leave the host and which enter it, in terms of their octets.
use peer_to_peer_decentraliz.Base.{
  ℕ, ◌+◌, ◌*◌, ◌/◌, ◌≤◌, ◌≡◌, refl, ap, ◌↔◌, ◌≢◌, inl, inr, Result-cases, true, some, ◌∷◌, [],
  arith, length, get, is_some, ok, returns,
}
use peer_to_peer_decentraliz.Packet.{Bytes, Ipv4Addr-discrete, min_header}
use peer_to_peer_decentraliz.Packet.Header.{IsBytes, octet, addr_of}
use peer_to_peer_decentraliz.Vpn.Verdict.{
  send_verdict, recv_verdict, verify_send_packet-verdict, verify_recv_packet-verdict,
}
use peer_to_peer_decentraliz.Vpn.{
  VpnCore, write_to_tun, check_send, verify_send_packet, recv_packet,
}

-- An IPv4 packet that carries as many octets as its header claims and fits the limit.
pub record IsWellFormed (limit : ℕ) (p : Bytes) : Type 0 where
  pub header : min_header ≤ length p
  pub version : octet p 0 / 16 ≡ 4
  pub fits : length p ≤ limit
  pub complete : octet p 2 * 256 + octet p 3 ≤ length p

module _ {K : Type 0} (key_eq : Discrete K) where
  -- A packet of this host that is still alive, for a host with a route.
  pub record MayLeave (c : VpnCore K) (p : Bytes) : Type 0 where
    pub formed : IsWellFormed c.max_packet_size p
    pub alive : octet p 8 ≢ 0
    pub own_source : addr_of p 12 ≡ c.ipv4_addr
    pub routed : is_some (get Ipv4Addr-discrete (addr_of p 16) c.route_table) ≡ true

  -- A packet for this host from the peer that owns its source address.
  pub record MayEnter (c : VpnCore K) (p : Bytes) (from : K) : Type 0 where
    pub formed : IsWellFormed c.max_packet_size p
    pub own_dest : addr_of p 16 ≡ c.ipv4_addr
    pub owned : get Ipv4Addr-discrete (addr_of p 12) c.route_table ≡ some from

  pub send_verdict-MayLeave :
      (c : VpnCore K) (p : Bytes) → send_verdict key_eq c p ≡ ok (addr_of p 16) → MayLeave c p
  unfolding send_verdict check_send
  send_verdict-MayLeave c p e = record {
    formed = ground arith;
    alive = ground arith;
    own_source = ground arith;
    routed = ground arith;
  }

  MayLeave-send_verdict :
      (c : VpnCore K) (p : Bytes) → MayLeave c p → send_verdict key_eq c p ≡ ok (addr_of p 16)
  unfolding send_verdict check_send
  MayLeave-send_verdict c p h = ground arith

  pub recv_verdict-MayEnter :
      (c : VpnCore K) (p : Bytes) (from : K)
      → recv_verdict key_eq c p from ≡ ok tt
      → MayEnter c p from
  unfolding recv_verdict
  recv_verdict-MayEnter c p from e = record {
    formed = ground arith;
    own_dest = ground arith;
    owned = ground arith;
  }

  MayEnter-recv_verdict :
      (c : VpnCore K) (p : Bytes) (from : K)
      → MayEnter c p from
      → recv_verdict key_eq c p from ≡ ok tt
  unfolding recv_verdict
  MayEnter-recv_verdict c p from h = ground arith

  -- `verify_send_packet` passes a packet, with its destination address, exactly when it is an IPv4
  -- packet within the limit and as long as its header claims, its TTL is not 0, its source is this
  -- host, and its destination has a route.
  pub verify_send_packet-MayLeave :
      (c : VpnCore K) (p : Bytes)
      → IsBytes p
      → (verify_send_packet key_eq c p ≡ returns (ok (addr_of p 16))) ↔ MayLeave c p
  verify_send_packet-MayLeave c p b =
      rw (verify_send_packet-verdict key_eq c p b) (
        λ e. send_verdict-MayLeave c p (ground arith),
        λ h. ap returns (MayLeave-send_verdict c p h),
      )

  -- A packet from a peer is written to the host's interface exactly when it is a well-formed IPv4
  -- packet for this host and the route table assigns its source address to that very peer.
  pub recv_packet-MayEnter :
      (c : VpnCore K) (p : Bytes) (from : K)
      → IsBytes p
      → (recv_packet key_eq c p from ≡ returns (c, write_to_tun p ∷ [])) ↔ MayEnter c p from
  unfolding recv_packet
  recv_packet-MayEnter c p from b =
      rw (verify_recv_packet-verdict key_eq c p from b)
        (elim (Result-cases (recv_verdict key_eq c p from)) [
          | inl (tt', e) ↦ rw e (λ _. recv_verdict-MayEnter c p from e, λ _. refl)
          | inr (x, e) ↦
              rw e (λ h. ground arith, λ h. ground (arith, MayEnter-recv_verdict c p from h))
        ])
