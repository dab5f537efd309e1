-- ===== src/Lib.antt =====
-- A user-space mesh VPN in Rust: IPv4 packets of the host go to the peer that owns their destination,
-- over connections that the iroh library authenticates by public key, and packets of the peers come
-- back to the host. Four tasks talk over channels: the TUN device, the coordinator with its router,
-- the connection manager, and one session for each connected peer.
--
-- Parts, files and correspondence (paths from the repository's root):
--
--   Packet, Packet/Header, Packet/Bits   src/packet/ipv4.rs. `parse` is `Ipv4Packet::new`, with the
--     indexing that could panic; `Ipv4Addr` is its four octets and `Bytes` a list of octets.
--   Vpn and Vpn/*   src/vpn_core.rs. `VpnCore`, its events and its actions; `process` and the handlers
--     under their names, with `check_send`, `check_recv`, `send_to` and `buffer` for the later parts
--     of `verify_send_packet`, `verify_recv_packet` and `send_packet`. Maps are association lists, an
--     index at a missing key is `panics`, the public key is any type with decidable equality.
--   Transport and Transport/*   src/iroh.rs. `Iroh` with its state table, `handle_conn_event` (by
--     `on_outgoing`, `on_incoming`, `on_disconnected`), `handle_core_event` (by `on_send`,
--     `on_connect`, `release_peer`), `init` and the loop of `run`. What a handler does to the world is
--     a list of effects in order: events sent, tasks spawned and aborted, connections closed, packets
--     offered, and the channel that goes when its entry of the table is overwritten.
--     Transport/Tasks has the tasks that the manager spawns: `on_peer_connected` for a connection,
--     `connect_to_peer` that dials, `accept_connections` with `finish_accept` for what it spawns.
--   Tun, Tun/Conservation   src/tun.rs. `classify_tun_error`, `worker_tun_reader`,
--     `worker_tun_writer`, and `Tun::run` as `run` over turns, one for each device.
--   Config, Config/*   src/config.rs. `from_file`, `get_peers`, `get_secret_key` and `gen_secret_key`
--     over the interface `Library` of the file system, the parsers and the keys.
--   Vpn/Texts, Config/Texts   what `Display` writes for errors, actions and events of the log, as the
--     bytes of an ASCII text.
--   CustomTransport   src/custom_transport.rs. The congestion controller and its factory.
--   Generator, Generator/*   src/bin/gen_configs.rs. `main` and its two loops as `write_keys` and
--     `write_configs`, over the interfaces `Disk` and `KeyTexts`; `config_lines` are the lines of one
--     configuration, and Generator/Reading has a reader of such lines.
--   Coordinator, Coordinator/*   src/coord.rs. `handle_actions`, `map_iroh_event_to_core_event` and
--     `run`, over the interface `Outbox` of the outgoing channels.
--   Main, Main/Ready, Logger   src/main.rs. `main` from its arguments to the node and its device, and
--     `init_logger` over the interface `Tracing`; Transport/Endpoint has `Iroh::new` as `iroh_new`,
--     over the interface `Endpoints` of the iroh library.
--   Node and Node/*   src/main.rs. The router and the manager as `main` wires them, with the queues
--     between them; `play` runs the tasks in the order of any schedule.
--   Host, Host/*   src/main.rs, src/tun.rs. Such a node beside its device: the loop of `Tun::run` and its
--     two workers, one round at a time, between the rounds of the other tasks; `rounds` runs them in
--     the order of any schedule. Tun has the same loop over whole turns.
--   Network, Network/*   several such hosts, with their sessions. What the manager puts on a channel
--     comes to the session that was spawned with it, which sends it to its peer; a session may read any
--     datagram that its peer has sent to it, at any time and again.
--   Base/*   shared names, lists, association lists, results and panics.
--   Examples/*   the theorems at concrete inputs, and tests.
--
-- Bounds. A queue of the router holds 1000 packets, a channel 8192 messages, the packet limit of a
-- node is 1100; these are the source's numbers. Lengths and counters are natural numbers. No
-- loop needs fuel, since it runs over the list of what arrives; `decimal` has as much as its number.
--
-- Parameters. Public keys (with their order, in Transport), connections with `remote_id`, and what a
-- channel does with a send are arguments, with instances in Node and Examples; so is the `Library` of
-- Config, whose laws are that a file reads back as written and that a key is its bytes, and the
-- interfaces of the endpoint, of the device's settings and of the generator's file system.
--
-- Not modelled: the TUN device itself, what the tasks log and print, a panic of a spawned task, and the
-- `select!` that ends the process when a task ends. Where the manager would wait for room on the channel
-- to the coordinator, the model appends.
-- `Connection::close` and `JoinHandle::abort` are effects with no model of what the library does with
-- them. In Node the channels do not close, and a manager that has met an internal error stays as it
-- is.
mod Base
pub mod Packet
pub mod Vpn
pub mod Transport
pub mod Coordinator
pub mod Tun
pub mod Config
pub mod Generator
pub mod CustomTransport
pub mod Logger
pub mod Main
pub mod Node
pub mod Host
pub mod Network
mod Examples
