-- ===== src/Node.antt =====
-- main.rs: a node, which is the coordinator with its router, the connection manager and the tasks
-- of its sessions, around the channels between them. The scheduler picks who runs next.
pub mod Views
pub mod Peers
pub mod Invariant
pub mod Schedules
pub mod Channels
pub mod Bounds
pub mod Journey
pub mod Rounds
pub mod Origins
pub mod Owing
pub mod CatchUp
use peer_to_peer_decentraliz.Base.{
  ℕ, suc, Bool, true, false, Option, none, some, List, [], ◌∷◌, ◌++◌, ite, ltb, if◌then◌else◌,
  length, Result, ok, err, Checked, returns, ◌>>=◌,
}
use peer_to_peer_decentraliz.Packet.{Bytes, Ipv4Addr}
use peer_to_peer_decentraliz.Vpn.{VpnCore}
use peer_to_peer_decentraliz.Vpn
use peer_to_peer_decentraliz.Transport.{
  KeyOrder, IrohEvent, recv_packet_from, CoreAction, ConnectionEvent, Iroh, Effect,
}
use peer_to_peer_decentraliz.Transport
use peer_to_peer_decentraliz.Transport.Handlers.{init, handle_conn_event, handle_core_event}
use peer_to_peer_decentraliz.Transport.Announcements.{sent_events}
use peer_to_peer_decentraliz.Coordinator.{
  Outbox, TrySend, accepted, full, Carried, channel_was_closed, handle_iroh_event,
  handle_packet_from_tun,
}

abbrev pub intermod_channel_capacity : ℕ
intermod_channel_capacity = 8192

abbrev pub final_mtu : ℕ
final_mtu = 1100

-- The coordinator's outgoing channels, as queues.
pub record Queues (K : Type 0) : Type 0 where
  pub to_iroh : List (CoreAction K)
  pub to_tun : List Bytes

-- A channel of tokio while both ends live: `send` waits for room and then appends, `try_send` is
-- refused when the channel holds its capacity.
abbrev pub queues : {K : Type 0} → Outbox K (Queues K)
queues = record {
  send_to_iroh = λ a q. some (record q { to_iroh = q.to_iroh ++ (a ∷ []) });
  try_send_to_iroh = λ a q.
      if ltb (length q.to_iroh) intermod_channel_capacity
      then accepted (record q { to_iroh = q.to_iroh ++ (a ∷ []) })
      else full;
  try_send_to_tun = λ p q.
      if ltb (length q.to_tun) intermod_channel_capacity
      then accepted (record q { to_tun = q.to_tun ++ (p ∷ []) })
      else full;
}

-- The queues behind `handle_actions`; these channels do not close.
abbrev pub carried : {K : Type 0} → Carried (Queues K) → Queues K
carried (Carried.ok q) = q
carried (channel_was_closed q) = q

pub record Node (K C : Type 0) : Type 0 where
  pub core : VpnCore K
  pub iroh : Iroh K C
  pub to_coord : List (IrohEvent K)
  pub out : Queues K

-- Who runs next.
pub data Turn (K C : Type 0) : Type 0 where
  -- the coordinator takes an event of the manager, or a packet of the host
  coord_event : Turn K C
  host_packet : Bytes → Turn K C
  -- the task of the TUN device takes a packet off its channel
  tun_packet : Turn K C
  -- the manager takes an action of the coordinator, or an event of a connection task
  manager_action : Turn K C
  manager_event : ConnectionEvent K C → Turn K C
  -- the session of a peer reads a datagram and offers it to the coordinator
  session_packet : Bytes → K → Turn K C

module _ {K C : Type 0} (keys : KeyOrder K) (remote_id : C → K) where
  -- `HashSet::insert`, which leaves a key that is present.
  unfoldable pub insert_key : K → List K → List K
  insert_key k [] = k ∷ []
  insert_key k (j ∷ ks) = ite (keys.eq j k) (j ∷ ks) (j ∷ insert_key k ks)

  -- The loop of `main` over the configured peers.
  unfoldable pub key_set : List (Ipv4Addr × K) → List K → List K
  unfolding insert_key
  key_set [] set = set
  key_set ((ip, pub_key) ∷ table) set = key_set table (insert_key pub_key set)

  -- `main`: the router of the configuration beside the manager, and the manager's start.
  unfoldable pub start_with : Iroh K C → Ipv4Addr → List (Ipv4Addr × K) → Node K C
  start_with manager ip table =
      let (iroh, effects) = init keys remote_id manager in
      record {
        core = Vpn.new keys.eq ip table final_mtu;
        iroh = iroh;
        to_coord = sent_events effects;
        out = record { to_iroh = []; to_tun = [] };
      }

  -- The node of the key `id`, its manager made from the configured peers.
  unfoldable pub start : K → Ipv4Addr → List (Ipv4Addr × K) → Node K C
  unfolding key_set start_with
  start id ip table = start_with (Transport.new keys remote_id id (key_set table [])) ip table

  abbrev pub reported : Node K C → Iroh K C × List (Effect K C) → Node K C
  reported n (iroh, effects) = record n {
    iroh = iroh;
    to_coord = n.to_coord ++ sent_events effects;
  }

  unfoldable pub coord_turn : Node K C → List (IrohEvent K) → Checked (Node K C)
  coord_turn n [] = returns n
  coord_turn n (event ∷ rest) = handle_iroh_event keys.eq queues n.core n.out event >>= λ r.
      returns (record n { core = r.0; out = carried r.1; to_coord = rest })

  unfoldable pub manager_turn : Node K C → List (CoreAction K) → Node K C
  manager_turn n [] = n
  manager_turn n (action ∷ rest) =
      reported (record n { out = record (n.out) { to_iroh = rest } })
        (handle_core_event keys remote_id n.iroh action)

  unfoldable pub tun_turn : Node K C → List Bytes → Node K C
  tun_turn n [] = n
  tun_turn n (packet ∷ rest) = record n { out = record (n.out) { to_tun = rest } }

  unfoldable pub turn : Node K C → Turn K C → Checked (Node K C)
  unfolding coord_turn manager_turn tun_turn
  turn n coord_event = coord_turn n n.to_coord
  turn n (host_packet packet) = handle_packet_from_tun keys.eq queues n.core n.out packet >>= λ r.
      returns (record n { core = r.0; out = carried r.1 })
  turn n tun_packet = returns (tun_turn n n.out.to_tun)
  turn n manager_action = returns (manager_turn n n.out.to_iroh)
  turn n (manager_event event) =
      returns
        (elim (handle_conn_event keys remote_id n.iroh event) [ ok r ↦ reported n r | err _ ↦ n ])
  turn n (session_packet packet k) = returns (record n {
    to_coord =
        if ltb (length n.to_coord) intermod_channel_capacity
        then n.to_coord ++ (recv_packet_from packet k ∷ [])
        else n.to_coord;
  })

  unfoldable pub play : Node K C → List (Turn K C) → Checked (Node K C)
  play n [] = returns n
  play n (t ∷ ts) = turn n t >>= λ next. play next ts
