-- ===== src/Vpn/Verdict.antt =====
-- The verdicts of `verify_send_packet` and `verify_recv_packet`, with the possible panics gone.
use peer_to_peer_decentraliz.Base.{
  ◌≡◌, Option, none, some, ltb, not, if◌then◌else◌, is_yes, is_some, get, Result, ok, err, returns,
  arith,
}
use peer_to_peer_decentraliz.Packet.{Bytes, Ipv4Addr, Ipv4Addr-discrete, Ipv4Packet}
use peer_to_peer_decentraliz.Packet.Header.{IsBytes, header_of, parsed_of, parse-parsed_of}
use peer_to_peer_decentraliz.Vpn.{
  VpnCore, SendPacketError, RecvPacketError, unknown_src_ip, incorrect_dest_ip, spoofing,
  check_send, verify_send_packet, check_recv, verify_recv_packet,
}

module _ {K : Type 0} (key_eq : Discrete K) where
  unfoldable pub send_verdict : VpnCore K → Bytes → Result Ipv4Addr SendPacketError
  send_verdict c p = elim (parsed_of p) [
    | ok h ↦ check_send key_eq c h
    | err e ↦ err (SendPacketError.parse_error e)
  ]

  pub verify_send_packet-verdict :
      (c : VpnCore K) (p : Bytes)
      → IsBytes p
      → verify_send_packet key_eq c p ≡ returns (send_verdict c p)
  unfolding verify_send_packet send_verdict
  verify_send_packet-verdict c p b = rw (parse-parsed_of p b)

  -- The verdict depends on the settings alone.
  pub send_verdict_same :
      (c d : VpnCore K) (p : Bytes)
      → d.max_packet_size ≡ c.max_packet_size
      → d.ipv4_addr ≡ c.ipv4_addr
      → d.route_table ≡ c.route_table
      → send_verdict d p ≡ send_verdict c p
  unfolding send_verdict check_send
  send_verdict_same c d p size addr routes = ground arith

  abbrev pub owner_verdict : Option K → K → Result (Unit {0}) RecvPacketError
  owner_verdict none from = err unknown_src_ip
  owner_verdict (some owner) from = if not (is_yes (key_eq owner from)) then err spoofing else ok tt

  abbrev pub checked_recv : VpnCore K → K → Ipv4Packet → Result (Unit {0}) RecvPacketError
  checked_recv c from h =
      if ltb c.max_packet_size h.packet_length
      then err RecvPacketError.mtu_error
      else if ltb h.packet_length h.total_length
      then err RecvPacketError.broken_length
      else if not (is_some (get Ipv4Addr-discrete h.src_ip c.route_table))
      then err unknown_src_ip
      else if not (is_yes (Ipv4Addr-discrete h.dest_ip c.ipv4_addr))
      then err incorrect_dest_ip
      else owner_verdict (get Ipv4Addr-discrete h.src_ip c.route_table) from

  check_recv-checked :
      (c : VpnCore K) (from : K) (h : Ipv4Packet)
      → check_recv key_eq c from h ≡ returns (checked_recv c from h)
  unfolding check_recv
  check_recv-checked c from h = ground arith

  unfoldable pub recv_verdict : VpnCore K → Bytes → K → Result (Unit {0}) RecvPacketError
  recv_verdict c p from = elim (parsed_of p) [
    | ok h ↦ checked_recv c from h
    | err e ↦ err (RecvPacketError.parse_error e)
  ]

  pub verify_recv_packet-verdict :
      (c : VpnCore K) (p : Bytes) (from : K)
      → IsBytes p
      → verify_recv_packet key_eq c p from ≡ returns (recv_verdict c p from)
  unfolding verify_recv_packet recv_verdict
  verify_recv_packet-verdict c p from b =
      rw (parse-parsed_of p b) (ground (arith, check_recv-checked c from (header_of p)))
