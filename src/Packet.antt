-- ===== src/Packet.antt =====
-- packet/ipv4.rs: the IPv4 header that the router reads, and `Ipv4Addr` of the standard library.
mod Bits
pub mod Header
use Prim.Native.Nat.{bit_or}
use peer_to_peer_decentraliz.Base.{
  ℕ, ◌*◌, ◌/◌, ◌^◌, List, ℕ_discrete, ltb, ◌==◌, not, if◌then◌else◌, length, get_elem?, Result, ok,
  err, Checked, returns, ◌>>=◌, index,
}

-- The payload of `bytes::Bytes`: a list of octets.
abbrev pub Bytes : Type 0
Bytes = List ℕ

-- `std::net::Ipv4Addr`, by its four octets.
pub record Ipv4Addr : Type 0 where
  pub a : ℕ
  pub b : ℕ
  pub c : ℕ
  pub d : ℕ

unfoldable pub Ipv4Addr-discrete : Discrete Ipv4Addr
unfolding ℕ_discrete
Ipv4Addr-discrete = hlevel ℕ_discrete

pub record Ipv4Packet : Type 0 where
  pub packet_length : ℕ
  pub total_length : ℕ
  pub ttl : ℕ
  pub src_ip : Ipv4Addr
  pub dest_ip : Ipv4Addr

pub data ParseError : Type 0 where
  too_small_packet incorrect_ip_version : ParseError

abbrev pub min_header : ℕ
min_header = 20

-- `packet[i]`
abbrev at : Bytes → ℕ → Checked ℕ
at packet i = index (get_elem? packet i)

-- `Ipv4Addr::new(packet[i], …, packet[l])`
abbrev addr_at : Bytes → ℕ → ℕ → ℕ → ℕ → Checked Ipv4Addr
addr_at packet i j k l = do
  a ← at packet i
  b ← at packet j
  c ← at packet k
  d ← at packet l
  returns (record { a = a; b = b; c = c; d = d })

-- The part of `Ipv4Packet::new` behind the two checks.
unfoldable pub read_fields : Bytes → Checked Ipv4Packet
read_fields packet = do
  hi ← at packet 2
  lo ← at packet 3
  ttl ← at packet 8
  src ← addr_at packet 12 13 14 15
  dest ← addr_at packet 16 17 18 19
  returns (record {
    packet_length = length packet;
    total_length = bit_or (hi * 2 ^ 8) lo;
    ttl = ttl;
    src_ip = src;
    dest_ip = dest;
  })

-- `Ipv4Packet::new`
unfoldable pub parse : Bytes → Checked (Result Ipv4Packet ParseError)
unfolding read_fields
parse packet =
    if ltb (length packet) min_header
    then returns (err too_small_packet)
    else (at packet 0 >>= λ first.
        if not (first / 2 ^ 4 == 4)
        then returns (err incorrect_ip_version)
        else (read_fields packet >>= λ fields. returns (ok fields)))
