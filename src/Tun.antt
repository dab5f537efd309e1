-- ===== src/Tun.antt =====
-- tun.rs: the task of the TUN device. The device belongs to a library: what it and the channels
-- answer enters as inputs. A receiver is the list of the packets that it will give before its
-- channel is closed.
pub mod Conservation
pub mod Prefixes
use peer_to_peer_decentraliz.Base.{
  ℕ, Bool, true, false, Option, none, some, List, [], ◌∷◌, ◌++◌, if◌then◌else◌, Result, ok, err,
}
use peer_to_peer_decentraliz.Packet.{Bytes, Ipv4Addr}

-- The configuration of a device and its setters, which belong to the library.
pub record Configurations (D : Type 0) : Type 0 where
  pub default : D
  pub mtu : ℕ → D → D
  pub address : Ipv4Addr → D → D
  pub netmask : Ipv4Addr → D → D
  pub tun_name : Bytes → D → D
  pub up : D → D

-- `Tun::new`, for the configuration; its channels are the node's.
unfoldable pub new : {D : Type 0} → Configurations D → Bytes → ℕ → Ipv4Addr → Ipv4Addr → D
new lib tun_name mtu tun_ip netmask =
    lib.up
      (lib.tun_name tun_name (lib.netmask netmask (lib.address tun_ip (lib.mtu mtu lib.default))))

-- The kinds of `std::io::ErrorKind` that the code names; `other` is any of the rest.
pub data ErrorKind : Type 0 where
  would_block interrupted write_zero invalid_data unexpected_eof timed_out : ErrorKind
  network_down broken_pipe stale_network_file_handle not_connected : ErrorKind
  connection_reset connection_aborted : ErrorKind
  permission_denied not_found already_exists invalid_input resource_busy : ErrorKind
  addr_in_use unsupported other : ErrorKind

-- The texts and the library's error that two of the events carry are left out.
pub data TunEvent : Type 0 where
  info init_error fatal_error drop_packet reconnect_required : TunEvent

unfoldable pub classify_tun_error : ErrorKind → TunEvent
classify_tun_error would_block = drop_packet
classify_tun_error interrupted = drop_packet
classify_tun_error write_zero = drop_packet
classify_tun_error invalid_data = drop_packet
classify_tun_error unexpected_eof = drop_packet
classify_tun_error timed_out = drop_packet
classify_tun_error network_down = reconnect_required
classify_tun_error broken_pipe = reconnect_required
classify_tun_error stale_network_file_handle = reconnect_required
classify_tun_error not_connected = reconnect_required
classify_tun_error connection_reset = reconnect_required
classify_tun_error connection_aborted = reconnect_required
classify_tun_error _ = fatal_error

-- `match action` in both workers: the event that they end with, if they end.
unfoldable pub end_of : TunEvent → Option TunEvent
end_of reconnect_required = some reconnect_required
end_of fatal_error = some fatal_error
end_of _ = none

-- The answer of `tx_to_coord.try_send`.
pub data Offer : Type 0 where
  taken full closed : Offer

-- What `tokio::select!` hands to the reader: the stop signal, or the result of a read, with the
-- answer of the channel to what was read.
pub data ReaderInput : Type 0 where
  stop : ReaderInput
  read : Result (Bytes × Offer) ErrorKind → ReaderInput

-- To the writer: the stop signal, or its turn to receive, with the result of a write.
pub data WriterInput : Type 0 where
  stop : WriterInput
  recv : Result (Unit {0}) ErrorKind → WriterInput

-- One round of the reader; the event that it ends with, if it ends.
unfoldable pub reader_round : ReaderInput → Option TunEvent
unfolding classify_tun_error end_of
reader_round ReaderInput.stop = some info
reader_round (read (ok ([], _))) = some reconnect_required
reader_round (read (ok (_ ∷ _, taken))) = none
reader_round (read (ok (_ ∷ _, full))) = none
reader_round (read (ok (_ ∷ _, closed))) = some fatal_error
reader_round (read (err e)) = end_of (classify_tun_error e)

-- `worker_tun_reader`: what it sends through `tx_end_data`, or `none` while it runs.
unfoldable pub worker_tun_reader : List ReaderInput → Option TunEvent
unfolding reader_round
worker_tun_reader [] = none
worker_tun_reader (i ∷ is) = elim (reader_round i) [
  | some event ↦ some event
  | none ↦ worker_tun_reader is
]

-- What the writer does with the result of a write.
unfoldable pub after_write : Result (Unit {0}) ErrorKind → Option TunEvent
unfolding classify_tun_error end_of
after_write (ok _) = none
after_write (err e) = end_of (classify_tun_error e)

-- `worker_tun_writer`: the packets that it tried to write, the receiver, and the event that it
-- sends back with the receiver, or `none` while it runs.
unfoldable pub worker_tun_writer :
    List Bytes → List WriterInput → List Bytes × List Bytes × Option TunEvent
unfolding after_write
worker_tun_writer rx [] = ([], rx, none)
worker_tun_writer rx (WriterInput.stop ∷ is) = ([], rx, some info)
worker_tun_writer [] (recv _ ∷ is) = ([], [], some fatal_error)
worker_tun_writer (packet ∷ rx) (recv result ∷ is) = elim (after_write result) [
  | some event ↦ (packet ∷ [], rx, some event)
  | none ↦ let (tried, left, event) = worker_tun_writer rx is in (packet ∷ tried, left, event)
]

-- A turn of the loop of `Tun::run`: the device cannot be made; the reader is the first to end, and
-- the writer still takes some inputs before it sees the stop signal; or the writer is the first.
pub data Turn : Type 0 where
  create_error : Turn
  reader_ends : List ReaderInput → List WriterInput → Turn
  writer_ends : List WriterInput → List ReaderInput → Turn

-- How far the task has come: it goes on with its receiver, waits in a turn, or has returned.
pub data Progress : Type 0 where
  goes_on waits returned : Progress

-- The `match event` behind the end of both workers; the last branch falls through to the loop.
unfoldable pub decide : TunEvent → Progress
decide reconnect_required = goes_on
decide fatal_error = returned
decide _ = goes_on

-- The end of the other worker is waited for before the event of the first is looked at.
unfoldable pub both_ended : Option TunEvent → Option TunEvent → Progress
unfolding decide
both_ended (some event) (some _) = decide event
both_ended _ _ = waits

-- One turn: the packets tried, the receiver, and how it ended.
unfoldable pub turn : List Bytes → Turn → List Bytes × List Bytes × Progress
unfolding worker_tun_reader worker_tun_writer both_ended
turn rx create_error = ([], rx, goes_on)
turn rx (reader_ends rs ws) =
    let (tried, left, event) = worker_tun_writer rx (ws ++ (WriterInput.stop ∷ [])) in
    (tried, left, both_ended (worker_tun_reader rs) event)
turn rx (writer_ends ws rs) =
    let (tried, left, event) = worker_tun_writer rx ws in
    (tried, left, both_ended event (worker_tun_reader (rs ++ (ReaderInput.stop ∷ []))))

-- A turn, then the turns behind it where the loop goes on.
unfoldable pub followed_by :
    List Bytes × List Bytes × Progress
    → List Bytes × List Bytes × Progress
    → List Bytes × List Bytes × Progress
followed_by (tried, left, goes_on) (later, end, last) = (tried ++ later, end, last)
followed_by (tried, left, waits) _ = (tried, left, waits)
followed_by (tried, left, returned) _ = (tried, left, returned)

-- `Tun::run`
unfoldable pub run : List Bytes → List Turn → List Bytes × List Bytes × Progress
unfolding turn followed_by
run rx [] = ([], rx, goes_on)
run rx (t ∷ ts) = let now = turn rx t in followed_by now (run now.1 ts)
