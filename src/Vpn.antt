-- ===== src/Vpn.antt =====
-- vpn_core.rs: the synchronous router `VpnCore`, its events and its actions. A public key is a type
-- `K` with decidable equality; `HashMap`s are association lists; a method that mutates the router
-- returns the new one beside its actions, and panics where the source indexes a missing key.
pub mod Queue
pub mod Verdict
pub mod Invariant
pub mod Refinement
pub mod Admission
pub mod Run
pub mod Delivery
pub mod Offline
pub mod Whitelist
pub mod Crossing
pub mod Origins
pub mod Texts
pub mod Order
use peer_to_peer_decentraliz.Base.{
  ℕ, ◌+◌, ◌≢◌, Bool, true, false, not, Option, none, some, List, [], ◌∷◌, ◌++◌, map, ltb, leb, ◌==◌,
  if◌then◌else◌, is_yes, is_some, length, get, insert, Result, ok, err, Checked, returns, ◌>>=◌,
  index,
}
use peer_to_peer_decentraliz.Packet.{
  Bytes, Ipv4Addr, Ipv4Addr-discrete, Ipv4Packet, ParseError, parse,
}

abbrev pub max_packets_in_queue : ℕ
max_packets_in_queue = 1000

pub record PeerState : Type 0 where
  pub is_connected : Bool
  pub ipv4_addr : Ipv4Addr
  pub packet_queue : List Bytes

pub record VpnCore (K : Type 0) : Type 0 where
  pub max_packet_size : ℕ
  pub ipv4_addr : Ipv4Addr
  pub peers : List (K × PeerState)
  pub route_table : List (Ipv4Addr × K)

pub data Event (K : Type 0) : Type 0 where
  peer_connected : K → Event K
  peer_disconnected : K → Event K
  packet_from_tun : Bytes → Event K
  packet_from_iroh : Bytes → K → Event K

pub data SendPacketError : Type 0 where
  incorrect_src_ip unknown_dest_ip mtu_error incorrect_ttl broken_length : SendPacketError
  parse_error : ParseError → SendPacketError

pub data RecvPacketError : Type 0 where
  unknown_src_ip incorrect_dest_ip mtu_error spoofing broken_length : RecvPacketError
  parse_error : ParseError → RecvPacketError

pub data LogEvent : Type 0 where
  unknown_peer already_connected already_disconnected : LogEvent
  send_packet_error : SendPacketError → LogEvent
  recv_packet_error : RecvPacketError → LogEvent
  connection_not_open internal_state_error packet_buffered packet_queue_overflow : LogEvent

pub data Action (K : Type 0) : Type 0 where
  connect_to_peer : K → Action K
  disconnect_from_peer : K → Action K
  send_packet_to : Bytes → K → Action K
  write_to_tun : Bytes → Action K
  no_action : LogEvent → Action K

-- A `&mut self` method that returns `Vec<Action>`.
abbrev pub Handled : Type 0 → Type 0
Handled K = Checked (VpnCore K × List (Action K))

abbrev pub fresh_peer : Ipv4Addr → PeerState
fresh_peer ip = record { is_connected = false; ipv4_addr = ip; packet_queue = [] }

abbrev pub drained : PeerState → PeerState
drained peer = record peer { is_connected = true; packet_queue = [] }

-- `VecDeque::pop_front`, with its result unused.
unfoldable pub pop_front : List Bytes → List Bytes
pop_front [] = []
pop_front (p ∷ q) = q

-- The end of `send_packet`: a full queue drops its oldest packet, and the new one goes to the back.
unfoldable pub buffer : {K : Type 0} → List Bytes → Bytes → List Bytes × List (Action K)
unfolding pop_front
buffer queue packet =
    if leb max_packets_in_queue (length queue)
    then (
      pop_front queue ++ (packet ∷ []),
      no_action packet_queue_overflow ∷ no_action packet_buffered ∷ [],
    )
    else (queue ++ (packet ∷ []), no_action packet_buffered ∷ [])

module _ {K : Type 0} (key_eq : Discrete K) where
  -- The loop of `VpnCore::new` over the route table.
  unfoldable pub new_peers : List (Ipv4Addr × K) → List (K × PeerState) → List (K × PeerState)
  new_peers [] peers = peers
  new_peers ((ip, pub_key) ∷ table) peers =
      new_peers table (insert key_eq pub_key (fresh_peer ip) peers)

  -- `VpnCore::new`
  unfoldable pub new : Ipv4Addr → List (Ipv4Addr × K) → ℕ → VpnCore K
  new ip table size = record {
    max_packet_size = size;
    ipv4_addr = ip;
    peers = new_peers table [];
    route_table = table;
  }

  abbrev pub is_neighbour : VpnCore K → K → Bool
  is_neighbour c node = is_some (get key_eq node c.peers)

  abbrev pub is_neighbour_ipv4 : VpnCore K → Ipv4Addr → Bool
  is_neighbour_ipv4 c ip = is_some (get Ipv4Addr-discrete ip c.route_table)

  -- `self.peers[node].is_connected`
  abbrev pub is_connect_open : VpnCore K → K → Checked Bool
  is_connect_open c node = index (get key_eq node c.peers) >>= λ peer. returns peer.is_connected

  unfoldable pub verify_connection : VpnCore K → K → Bool
  verify_connection c node = is_neighbour c node

  -- A write through `peers.get_mut(node)`.
  abbrev pub set_peer : VpnCore K → K → PeerState → VpnCore K
  set_peer c node peer = record c { peers = insert key_eq node peer c.peers }

  unfoldable pub on_peer_connected : VpnCore K → K → Handled K
  on_peer_connected c node =
      if not (is_neighbour c node)
      then returns (c, disconnect_from_peer node ∷ [])
      else (is_connect_open c node >>= λ open_now.
          if open_now
          then returns (c, no_action already_connected ∷ [])
          else elim (get key_eq node c.peers) [
            | some peer ↦
                returns (
                  set_peer c node (drained peer),
                  map (λ p. send_packet_to p node) peer.packet_queue,
                )
            | none ↦ returns (c, no_action internal_state_error ∷ [])
          ])

  unfoldable pub on_peer_disconnected : VpnCore K → K → Handled K
  on_peer_disconnected c node =
      if not (is_neighbour c node)
      then returns (c, no_action unknown_peer ∷ [])
      else (is_connect_open c node >>= λ open_now.
          if not open_now
          then returns (c, no_action already_disconnected ∷ [])
          else elim (get key_eq node c.peers) [
            | some peer ↦ returns (set_peer c node (record peer { is_connected = false }), [])
            | none ↦ returns (c, no_action internal_state_error ∷ [])
          ])

  -- `verify_send_packet` behind the parser.
  unfoldable pub check_send : VpnCore K → Ipv4Packet → Result Ipv4Addr SendPacketError
  check_send c h =
      if ltb c.max_packet_size h.packet_length
      then err SendPacketError.mtu_error
      else if ltb h.packet_length h.total_length
      then err SendPacketError.broken_length
      else if h.ttl == 0
      then err incorrect_ttl
      else if not (is_yes (Ipv4Addr-discrete h.src_ip c.ipv4_addr))
      then err incorrect_src_ip
      else if not (is_neighbour_ipv4 c h.dest_ip)
      then err unknown_dest_ip
      else ok h.dest_ip

  unfoldable pub verify_send_packet : VpnCore K → Bytes → Checked (Result Ipv4Addr SendPacketError)
  unfolding check_send
  verify_send_packet c packet = parse packet >>= λ parsed.
      returns (elim parsed [ ok h ↦ check_send c h | err e ↦ err (SendPacketError.parse_error e) ])

  -- `send_packet` behind its verification, at the destination that this returned.
  unfoldable pub send_to : VpnCore K → Bytes → Ipv4Addr → Handled K
  unfolding buffer
  send_to c packet dest = elim (get Ipv4Addr-discrete dest c.route_table) [
    | none ↦ returns (c, no_action (send_packet_error unknown_dest_ip) ∷ [])
    | some pub_key ↦ is_connect_open c pub_key >>= λ open_now.
        if open_now
        then returns (c, send_packet_to packet pub_key ∷ [])
        else elim (get key_eq pub_key c.peers) [
          | none ↦ returns (c, no_action internal_state_error ∷ [])
          | some peer ↦
              let (queue, actions) = buffer peer.packet_queue packet in
              returns (set_peer c pub_key (record peer { packet_queue = queue }), actions)
        ]
  ]

  unfoldable pub send_packet : VpnCore K → Bytes → Handled K
  unfolding verify_send_packet send_to
  send_packet c packet = verify_send_packet c packet >>= elim [
    | ok dest ↦ send_to c packet dest
    | err e ↦ returns (c, no_action (send_packet_error e) ∷ [])
  ]

  -- `verify_recv_packet` behind the parser. `route_table[src]` panics at a missing address.
  unfoldable pub check_recv :
      VpnCore K → K → Ipv4Packet → Checked (Result (Unit {0}) RecvPacketError)
  check_recv c from h =
      if ltb c.max_packet_size h.packet_length
      then returns (err RecvPacketError.mtu_error)
      else if ltb h.packet_length h.total_length
      then returns (err RecvPacketError.broken_length)
      else if not (is_neighbour_ipv4 c h.src_ip)
      then returns (err unknown_src_ip)
      else if not (is_yes (Ipv4Addr-discrete h.dest_ip c.ipv4_addr))
      then returns (err incorrect_dest_ip)
      else (index (get Ipv4Addr-discrete h.src_ip c.route_table) >>= λ owner.
          if not (is_yes (key_eq owner from)) then returns (err spoofing) else returns (ok tt))

  unfoldable pub verify_recv_packet :
      VpnCore K → Bytes → K → Checked (Result (Unit {0}) RecvPacketError)
  unfolding check_recv
  verify_recv_packet c packet from = parse packet >>= elim [
    | ok h ↦ check_recv c from h
    | err e ↦ returns (err (RecvPacketError.parse_error e))
  ]

  unfoldable pub recv_packet : VpnCore K → Bytes → K → Handled K
  unfolding verify_recv_packet
  recv_packet c packet from = verify_recv_packet c packet from >>= λ result. returns (
    c,
    elim result [ ok _ ↦ write_to_tun packet ∷ [] | err e ↦ no_action (recv_packet_error e) ∷ [] ],
  )

  -- `VpnCore::process`
  unfoldable pub process : VpnCore K → Event K → Handled K
  process c (peer_connected pk) = on_peer_connected c pk
  process c (peer_disconnected pk) = on_peer_disconnected c pk
  process c (packet_from_tun packet) = send_packet c packet
  process c (packet_from_iroh packet from) = recv_packet c packet from
