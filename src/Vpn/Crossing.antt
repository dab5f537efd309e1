-- ===== src/Vpn/Crossing.antt =====
-- Two routers whose settings name one another: what one lets out, the other lets in.
use peer_to_peer_decentraliz.Base.{
  ◌≤◌, ◌≡◌, refl, true, some, [], ◌∷◌, get, arith, returns, Option-cases, inl, inr,
}
use peer_to_peer_decentraliz.Packet.{Bytes, Ipv4Addr-discrete}
use peer_to_peer_decentraliz.Packet.Header.{IsBytes, addr_of}
use peer_to_peer_decentraliz.Vpn.Admission.{
  MayLeave, MayEnter, verify_send_packet-MayLeave, recv_packet-MayEnter,
}
use peer_to_peer_decentraliz.Vpn.Refinement.{view, up}
use peer_to_peer_decentraliz.Vpn.{
  VpnCore, PeerState, packet_from_tun, packet_from_iroh, send_packet_to, write_to_tun, send_packet,
  send_to, process,
}

module _ {K : Type 0} (key_eq : Discrete K) where
  -- Router `a` of the key `ka` and router `b` of the key `kb` have one another in their tables, and
  -- `b` takes packets as long as those of `a`.
  pub record IsPeered (a b : VpnCore K) (ka kb : K) : Type 0 where
    pub there : get Ipv4Addr-discrete b.ipv4_addr a.route_table ≡ some kb
    pub back : get Ipv4Addr-discrete a.ipv4_addr b.route_table ≡ some ka
    pub limit : a.max_packet_size ≤ b.max_packet_size

  MayLeave-MayEnter :
      (a b : VpnCore K) (ka kb : K) (p : Bytes)
      → IsPeered a b ka kb
      → MayLeave key_eq a p
      → addr_of p 16 ≡ b.ipv4_addr
      → MayEnter key_eq b p ka
  MayLeave-MayEnter a b ka kb p h m d = record {
    formed = record {
      header = m.formed.header;
      version = m.formed.version;
      fits = omega (arith, m.formed.fits, h.limit);
      complete = m.formed.complete;
    };
    own_dest = d;
    owned = rw m.own_source h.back;
  }

  open_entry :
      (c : VpnCore K) (k : K)
      → view key_eq c k ≡ some up
      → (ps : PeerState) × (get key_eq k c.peers ≡ some ps) × (ps.is_connected ≡ true)
  open_entry c k = elim (Option-cases (get key_eq k c.peers)) [
    | inl e ↦ rw e λ h. cc
    | inr (ps, e) ↦ rw e λ h. (ps, refl, ground arith)
  ]

  -- What one router lets out for its peer's address, it sends to that peer while the link is up,
  -- and the peer's router writes it to its host: the checks on the two sides agree.
  pub process-crosses :
      (a b : VpnCore K) (ka kb : K) (p : Bytes)
      → IsPeered a b ka kb
      → IsBytes p
      → MayLeave key_eq a p
      → addr_of p 16 ≡ b.ipv4_addr
      → view key_eq a kb ≡ some up
      → (process key_eq a (packet_from_tun p) ≡ returns (a, send_packet_to p kb ∷ []))
        × (process key_eq b (packet_from_iroh p ka) ≡ returns (b, write_to_tun p ∷ []))
  unfolding process send_packet send_to
  process-crosses a b ka kb p h bytes m d linked =
      let (ps, found, connected) = open_entry a kb linked in
      let routed : get Ipv4Addr-discrete (addr_of p 16) a.route_table ≡ some kb = rw d h.there in
      (
        rw ((verify_send_packet-MayLeave key_eq a p bytes).1 m)
            (rw (routed, send_to) (rw (found, send_to) (rw connected refl))),
        (recv_packet-MayEnter key_eq b p ka bytes).1 (MayLeave-MayEnter a b ka kb p h m d),
      )
