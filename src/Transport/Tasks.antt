-- ===== src/Transport/Tasks.antt =====
-- iroh.rs: the tasks that the manager spawns: the session of a connection, the task that dials a
-- peer, and the one that accepts. What the iroh library answers enters as their inputs.
use peer_to_peer_decentraliz.Base.{
  Bool, true, false, Option, none, some, List, [], ◌∷◌, ◌++◌, if◌then◌else◌, Result, ok, err,
}
use peer_to_peer_decentraliz.Packet.{Bytes}
use peer_to_peer_decentraliz.Transport.{
  IrohEvent, recv_packet_from, ConnectionEvent, outgoing_connection, incoming_connection,
}

-- What `tokio::select!` hands to a session: the result of `read_datagram`, or what its channel
-- gives, a packet with the answer of `send_datagram` to it; `none` is a closed channel.
pub data SessionInput (E : Type 0) : Type 0 where
  read_datagram : Result Bytes (Unit {0}) → SessionInput E
  from_channel : Option (Bytes × Result (Unit {0}) E) → SessionInput E

-- The result of `endpoint.connect`, at a failure with whether the endpoint has a DNS resolver.
pub data Attempt (C : Type 0) : Type 0 where
  connects : C → Attempt C
  fails : (has_resolver : Bool) → Attempt C

pub data TaskEffect (K C : Type 0) : Type 0 where
  -- `try_send` to the coordinator, which drops what does not fit
  offer_to_coord : IrohEvent K → TaskEffect K C
  -- `tx_to_manager.send(event).await`
  tell_manager : ConnectionEvent K C → TaskEffect K C
  send_datagram : Bytes → TaskEffect K C
  clear_dns_cache : TaskEffect K C
  -- `sleep` of two seconds
  pause : TaskEffect K C

module _ {K C E : Type 0} (remote_id : C → K) (is_too_large : E → Bool) where
  -- One round of a session, and whether another follows.
  unfoldable pub session_round : C → SessionInput E → List (TaskEffect K C) × Bool
  session_round conn (read_datagram (ok packet)) =
      (offer_to_coord (recv_packet_from packet (remote_id conn)) ∷ [], true)
  session_round conn (read_datagram (err _)) =
      (tell_manager (ConnectionEvent.disconnected (remote_id conn)) ∷ [], false)
  session_round conn (from_channel (some (packet, ok _))) = (send_datagram packet ∷ [], true)
  session_round conn (from_channel (some (packet, err e))) =
      if is_too_large e then (send_datagram packet ∷ [], true) else (
        send_datagram packet ∷ tell_manager (ConnectionEvent.disconnected (remote_id conn)) ∷ [],
        false,
      )
  session_round conn (from_channel none) = ([], false)

  -- `on_peer_connected`, on the inputs that arrive.
  unfoldable pub on_peer_connected : C → List (SessionInput E) → List (TaskEffect K C)
  unfolding session_round
  on_peer_connected conn [] = []
  on_peer_connected conn (i ∷ is) =
      let rest = on_peer_connected conn is in
      let (now, goes_on) = session_round conn i in if goes_on then now ++ rest else now

module _ {K C : Type 0} where
  -- `connect_to_peer`, on the results of its attempts.
  unfoldable pub connect_to_peer : List (Attempt C) → List (TaskEffect K C)
  connect_to_peer [] = []
  connect_to_peer (connects conn ∷ _) = tell_manager (outgoing_connection conn) ∷ []
  connect_to_peer (fails has_resolver ∷ attempts) =
      (if has_resolver then clear_dns_cache ∷ [] else []) ++ (pause ∷ connect_to_peer attempts)

  -- The task that `accept_connections` spawns for an incoming connection: `ac.await`.
  unfoldable pub finish_accept : Result C (Unit {0}) → List (TaskEffect K C)
  finish_accept (ok conn) = tell_manager (incoming_connection conn) ∷ []
  finish_accept (err _) = []

-- `accept_connections`: of the answers of `incoming.accept`, those that it spawns a task for; `none`
-- is an endpoint that is closed.
unfoldable pub accept_connections : {H : Type 0} → List (Option (Result H (Unit {0}))) → List H
accept_connections [] = []
accept_connections (none ∷ _) = []
accept_connections (some (ok accepting) ∷ is) = accepting ∷ accept_connections is
accept_connections (some (err _) ∷ is) = accept_connections is
