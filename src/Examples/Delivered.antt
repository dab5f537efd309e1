-- ===== src/Examples/Delivered.antt =====
-- The nodes 5 and 9 exchange packets from their start. Keys are numbers, and a connection is named
-- by its remote key.
use peer_to_peer_decentraliz.Base.{ℕ, ◌≡◌, refl, List, [], ◌∷◌, ℕ_discrete, inl, inr, arith, get}
use peer_to_peer_decentraliz.Packet.{Bytes, Ipv4Addr-discrete}
use peer_to_peer_decentraliz.Packet.Header.{IsBytes, datagram}
use peer_to_peer_decentraliz.Network.{Network, Reaches}
use peer_to_peer_decentraliz.Network.Pairs.{IsPair, IsFor}
use peer_to_peer_decentraliz.Network.Delivery.{Message, of_first, of_second, opened-delivers}
use peer_to_peer_decentraliz.Vpn
use peer_to_peer_decentraliz.Examples.Mesh.{nat_keys, remote}
use peer_to_peer_decentraliz.Examples.Exchange.{
  five, nine, ip_of, table_of, greeting, greeting-IsBytes,
}

abbrev answer : Bytes
answer = datagram 20 64 nine five []

answer-IsBytes : IsBytes answer
unfolding datagram
answer-IsBytes = omega arith

-- Any packet may be given.
abbrev Given : ℕ → Bytes → Type 0
Given k p = Unit {0}

pair : IsPair nat_keys remote Given ip_of table_of 5 9 9 5
unfolding get ℕ_discrete Ipv4Addr-discrete
pair = record { apart = omega arith; dialled = refl; dialling = refl; there = refl; back = refl }

greeting-IsFor : IsFor nat_keys remote Given ip_of table_of 5 9 greeting
unfolding get ℕ_discrete Ipv4Addr-discrete datagram Vpn.new
greeting-IsFor = record {
  bytes = greeting-IsBytes;
  given = tt;
  leaves = record {
    formed = record {
      header = omega arith;
      version = refl;
      fits = omega arith;
      complete = omega arith;
    };
    alive = omega arith;
    own_source = refl;
    routed = refl;
  };
  address = refl;
}

answer-IsFor : IsFor nat_keys remote Given ip_of table_of 9 5 answer
unfolding get ℕ_discrete Ipv4Addr-discrete datagram Vpn.new
answer-IsFor = record {
  bytes = answer-IsBytes;
  given = tt;
  leaves = record {
    formed = record {
      header = omega arith;
      version = refl;
      fits = omega arith;
      complete = omega arith;
    };
    alive = omega arith;
    own_source = refl;
    routed = refl;
  };
  address = refl;
}

abbrev talk : List Message
talk = inl greeting ∷ inr answer ∷ inl greeting ∷ []

opened-delivers_example :
    (w : Network ℕ ℕ) × Reaches nat_keys remote Given ip_of table_of w
    × ((w.hosts 9).written ≡ of_first talk)
    × ((w.hosts 5).written ≡ of_second talk)
opened-delivers_example =
    opened-delivers nat_keys remote Given ip_of table_of 5 9 9 5 talk pair
      (greeting-IsFor, (answer-IsFor, (greeting-IsFor, tt)))
