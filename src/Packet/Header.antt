-- ===== src/Packet/Header.antt =====
-- What `parse` reads from a packet: which packets it takes, and the fields that it reports.
use peer_to_peer_decentraliz.Base.{
  ℕ, zero, suc, ◌+◌, ◌*◌, ◌/◌, ◌%◌, ◌≤◌, ◌<◌, ◌≡◌, refl, inl, inr, [], ◌∷◌, some, arith, ltb, ◌==◌,
  not, if◌then◌else◌, length, get_elem?, All, Bool-cases, Result, ok, err, returns,
}
use peer_to_peer_decentraliz.Packet.{
  Bytes, Ipv4Addr, Ipv4Packet, ParseError, too_small_packet, incorrect_ip_version, min_header,
  parse, read_fields,
}
use peer_to_peer_decentraliz.Packet.Bits.{bit_or-shl_eight}

-- The octet at a place that lies inside the packet.
abbrev pub octet : Bytes → ℕ → ℕ
octet [] i = 0
octet (x ∷ xs) zero = x
octet (x ∷ xs) (suc i) = octet xs i

abbrev pub addr_of : Bytes → ℕ → Ipv4Addr
addr_of p i = record {
  a = octet p i;
  b = octet p (i + 1);
  c = octet p (i + 2);
  d = octet p (i + 3);
}

-- The addresses and the other fields as RFC 791 places them.
abbrev pub header_of : Bytes → Ipv4Packet
header_of p = record {
  packet_length = length p;
  total_length = octet p 2 * 256 + octet p 3;
  ttl = octet p 8;
  src_ip = addr_of p 12;
  dest_ip = addr_of p 16;
}

abbrev pub IsBytes : Bytes → Type 0
IsBytes = All λ x. x < 256

octet-lt : (p : Bytes) (i : ℕ) → IsBytes p → octet p i < 256
octet-lt [] i h = omega arith
octet-lt (x ∷ p) zero h = h.0
octet-lt (x ∷ p) (suc i) h = octet-lt p i h.1

get_elem?-octet : (p : Bytes) (i : ℕ) → i < length p → get_elem? p i ≡ some (octet p i)
get_elem?-octet [] i h = elim h [ ]
get_elem?-octet (x ∷ p) zero h = refl
get_elem?-octet (x ∷ p) (suc i) h = get_elem?-octet p i (omega arith)

read_fields-header_of :
    (p : Bytes) → IsBytes p → min_header ≤ length p → read_fields p ≡ returns (header_of p)
unfolding read_fields
read_fields-header_of p b h =
    rw (at 2 (omega arith), at 3 (omega arith), at 8 (omega arith), at 12 (omega arith))
      (rw (at 13 (omega arith), at 14 (omega arith), at 15 (omega arith), at 16 (omega arith))
        (rw (at 17 (omega arith), at 18 (omega arith), at 19 (omega arith))
          (rw (bit_or-shl_eight (octet p 2) (octet p 3) (octet-lt p 3 b)))))
  where
    at : (i : ℕ) → i < min_header → get_elem? p i ≡ some (octet p i)
    at i lt = get_elem?-octet p i (omega arith)

-- What a packet parses to: a packet of fewer than 20 octets is refused, then one whose version is
-- not 4; every other packet gives its fields.
abbrev pub parsed_of : Bytes → Result Ipv4Packet ParseError
parsed_of p =
    if ltb (length p) min_header
    then err too_small_packet
    else if not (octet p 0 / 16 == 4)
    then err incorrect_ip_version
    else ok (header_of p)

-- On any sequence of octets `parse` returns, without a panic, what `parsed_of` says: the refusals
-- by length and by version in that order, or else every field read from its place.
pub parse-parsed_of : (p : Bytes) → IsBytes p → parse p ≡ returns (parsed_of p)
unfolding parse
parse-parsed_of p b = elim (Bool-cases (ltb (length p) min_header)) [
  | inl short ↦ rw (short, parse)
  | inr long ↦
      let fits : min_header ≤ length p = ground arith in
      rw (long, parse)
        (rw (get_elem?-octet p 0 (omega arith), read_fields-header_of p b fits) (ground arith))
]

-- A datagram with a header of 20 octets, no options, and the given fields.
unfoldable pub datagram : ℕ → ℕ → Ipv4Addr → Ipv4Addr → Bytes → Bytes
datagram total ttl src dest payload =
    0x45
    ∷ 0
    ∷ (total / 256)
    ∷ (total % 256)
    ∷ 0
    ∷ 0
    ∷ 0
    ∷ 0
    ∷ ttl
    ∷ 17
    ∷ 0
    ∷ 0
    ∷ src.a
    ∷ src.b
    ∷ src.c
    ∷ src.d
    ∷ dest.a
    ∷ dest.b
    ∷ dest.c
    ∷ dest.d
    ∷ payload

-- A datagram whose total length fits in 16 bits parses to the fields that it was built from, and
-- `packet_length` counts the header and the payload.
pub parse-datagram :
    (total ttl : ℕ) (src dest : Ipv4Addr) (payload : Bytes)
    → total < 65536
    → IsBytes (datagram total ttl src dest payload)
    → parse (datagram total ttl src dest payload)
      ≡ returns (
          ok (record {
            packet_length = 20 + length payload;
            total_length = total;
            ttl = ttl;
            src_ip = src;
            dest_ip = dest;
          }))
unfolding datagram
parse-datagram total ttl src dest payload small b =
    rw (parse-parsed_of (datagram total ttl src dest payload) b) (ground arith)
