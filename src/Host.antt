-- ===== src/Host.antt =====
-- A node beside its TUN device (main.rs, tun.rs): the task of the device and its two workers, one
-- round at a time, between the rounds of the other tasks. `tokio::select!` picks among the rounds
-- that are ready, so that a worker may still read or write before it sees its stop signal.
pub mod Served
pub mod Owing
pub mod Crossing
pub mod Linking
pub mod Idle
pub mod Standing
pub mod Steps
pub mod Rounds
pub mod Refinement
use peer_to_peer_decentraliz.Base.{
  List, [], ◌∷◌, ◌++◌, Option, none, some, if◌then◌else◌, ltb, length, Result, ok, err, Checked,
  returns, ◌>>=◌,
}
use peer_to_peer_decentraliz.Packet.{Bytes}
use peer_to_peer_decentraliz.Transport.{KeyOrder, ConnectionEvent}
use peer_to_peer_decentraliz.Tun.{
  ErrorKind, TunEvent, read, Offer, taken, full, reader_round, after_write, Progress, goes_on,
  waits, returned, decide,
}
use peer_to_peer_decentraliz.Node.{
  Node, Turn, host_packet, intermod_channel_capacity, tun_turn, turn,
}

-- Where the loop of `Tun::run` stands: without a device, with both workers, with a worker that has
-- ended and the other told to stop, or behind its end.
pub data Phase : Type 0 where
  absent running finished : Phase
  -- the reader has ended with the event
  writer_left : TunEvent → Phase
  reader_left : TunEvent → Phase

pub record Host (K C : Type 0) : Type 0 where
  pub node : Node K C
  -- the channel from the reader to the coordinator
  pub from_tun : List Bytes
  pub phase : Phase
  -- the packets that the writer has handed to the device
  pub written : List Bytes

-- What happens next. A result is what the device answers.
pub data Round (K C : Type 0) : Type 0 where
  -- a task of the node, but for the packets of the device
  inner : Turn K C → Round K C
  -- the coordinator takes a packet of the host
  take_packet : Round K C
  -- `create_as_async`
  create : Result (Unit {0}) (Unit {0}) → Round K C
  reader_reads : Result Bytes ErrorKind → Round K C
  writer_writes : Result (Unit {0}) ErrorKind → Round K C
  -- the worker that is left sees its stop signal
  stop_seen : Round K C

-- The `match event` once both workers have ended.
abbrev pub resumed : Progress → Phase
resumed goes_on = absent
resumed waits = running
resumed returned = finished

abbrev pub reader_ended : Phase → TunEvent → Phase
reader_ended running event = writer_left event
reader_ended (reader_left first) event = resumed (decide first)
reader_ended phase event = phase

abbrev pub writer_ended : Phase → TunEvent → Phase
writer_ended running event = reader_left event
writer_ended (writer_left first) event = resumed (decide first)
writer_ended phase event = phase

abbrev pub stopped : Phase → Phase
stopped (writer_left first) = resumed (decide first)
stopped (reader_left first) = resumed (decide first)
stopped phase = phase

abbrev pub created : Phase → Result (Unit {0}) (Unit {0}) → Phase
created absent (ok _) = running
created phase _ = phase

abbrev pub after_round : (Phase → TunEvent → Phase) → Phase → Option TunEvent → Phase
after_round ended phase none = phase
after_round ended phase (some event) = ended phase event

-- `try_send` of what was read; a read of nothing sends nothing.
abbrev pub offered : List Bytes → Result Bytes ErrorKind → List Bytes
offered channel (ok (x ∷ packet)) =
    if ltb (length channel) intermod_channel_capacity
    then channel ++ ((x ∷ packet) ∷ [])
    else channel
offered channel _ = channel

abbrev pub answer : List Bytes → Offer
answer channel = if ltb (length channel) intermod_channel_capacity then taken else full

abbrev pub read_round : List Bytes → Result Bytes ErrorKind → Option TunEvent
read_round channel (ok packet) = reader_round (read (ok (packet, answer channel)))
read_round channel (err e) = reader_round (read (err e))

module _ {K C : Type 0} (keys : KeyOrder K) (remote_id : C → K) where
  abbrev pub reads : Host K C → Result Bytes ErrorKind → Host K C
  reads h result = record h {
    from_tun = offered h.from_tun result;
    phase = after_round reader_ended h.phase (read_round h.from_tun result);
  }

  -- The reader's round, where a reader runs.
  unfoldable pub reader_turn : Host K C → Phase → Result Bytes ErrorKind → Host K C
  reader_turn h running result = reads h result
  reader_turn h (reader_left first) result = reads h result
  reader_turn h _ result = h

  -- The writer waits while its channel is empty.
  abbrev pub writes : Host K C → List Bytes → Result (Unit {0}) ErrorKind → Host K C
  writes h [] result = h
  writes h (packet ∷ rest) result = record h {
    node = tun_turn keys remote_id h.node h.node.out.to_tun;
    written = h.written ++ (packet ∷ []);
    phase = after_round writer_ended h.phase (after_write result);
  }

  unfoldable pub writer_turn : Host K C → Phase → Result (Unit {0}) ErrorKind → Host K C
  writer_turn h running result = writes h h.node.out.to_tun result
  writer_turn h (writer_left first) result = writes h h.node.out.to_tun result
  writer_turn h _ result = h

  unfoldable pub take_turn : Host K C → List Bytes → Checked (Host K C)
  take_turn h [] = returns h
  take_turn h (packet ∷ rest) = turn keys remote_id h.node (host_packet packet) >>= λ n.
      returns (record h { node = n; from_tun = rest })

  unfoldable pub round : Host K C → Round K C → Checked (Host K C)
  unfolding reader_turn writer_turn take_turn
  round h (inner t) = turn keys remote_id h.node t >>= λ n. returns (record h { node = n })
  round h take_packet = take_turn h h.from_tun
  round h (create result) = returns (record h { phase = created h.phase result })
  round h (reader_reads result) = returns (reader_turn h h.phase result)
  round h (writer_writes result) = returns (writer_turn h h.phase result)
  round h stop_seen = returns (record h { phase = stopped h.phase })

  unfoldable pub rounds : Host K C → List (Round K C) → Checked (Host K C)
  unfolding round
  rounds h [] = returns h
  rounds h (r ∷ rs) = round h r >>= λ next. rounds next rs

  -- The device task starts without a device.
  abbrev pub beside : Node K C → Host K C
  beside n = record { node = n; from_tun = []; phase = absent; written = [] }
