-- ===== src/Vpn/Texts.antt =====
-- vpn_core.rs and ipv4.rs: what `Display` writes for errors, events of the log and actions.
use peer_to_peer_decentraliz.Base.{
  ◌≡◌, refl, sym, ap, ◌∙◌, Bool, true, false, Option, none, some, List, [], ◌∷◌, ◌++◌, ◌==◌, ◌&&◌,
  if◌then◌else◌, length, codes, decimal,
}
use peer_to_peer_decentraliz.Packet.{Bytes, ParseError, too_small_packet, incorrect_ip_version}
use peer_to_peer_decentraliz.Vpn.{
  SendPacketError, RecvPacketError, LogEvent, unknown_peer, already_connected, already_disconnected,
  send_packet_error, recv_packet_error, connection_not_open, internal_state_error, packet_buffered,
  packet_queue_overflow, Action, connect_to_peer, disconnect_from_peer, send_packet_to,
  write_to_tun, no_action,
}

unfoldable pub parse_error_text : ParseError → Bytes
parse_error_text incorrect_ip_version = codes "unsupported IP version (only IPv4 is allowed)"
parse_error_text too_small_packet = codes "packet is too small to contain a valid IPv4 header"

unfoldable pub send_packet_error_text : SendPacketError → Bytes
unfolding parse_error_text
send_packet_error_text SendPacketError.incorrect_src_ip =
    codes "source IP does not match the assigned tun IP"
send_packet_error_text SendPacketError.unknown_dest_ip =
    codes "destination IP is not found in the routing table"
send_packet_error_text SendPacketError.mtu_error = codes "packet length exceeds the MTU limit"
send_packet_error_text SendPacketError.incorrect_ttl = codes "TTL is 0 or invalid"
send_packet_error_text SendPacketError.broken_length = codes "incorrect length of packet"
send_packet_error_text (SendPacketError.parse_error e) =
    codes "packet parse error: " ++ parse_error_text e

unfoldable pub recv_packet_error_text : RecvPacketError → Bytes
unfolding parse_error_text
recv_packet_error_text RecvPacketError.unknown_src_ip =
    codes "source IP is not found in the routing table"
recv_packet_error_text RecvPacketError.incorrect_dest_ip =
    codes "destination IP does not match local tun IP"
recv_packet_error_text RecvPacketError.mtu_error =
    codes "received packet length exceeds the MTU limit"
recv_packet_error_text RecvPacketError.spoofing =
    codes "anti-spoofing triggered: Source IP does not match the sender's public key"
recv_packet_error_text RecvPacketError.broken_length = codes "incorrect length of packet"
recv_packet_error_text (RecvPacketError.parse_error e) =
    codes "packet parse error: " ++ parse_error_text e

unfoldable pub log_text : LogEvent → Bytes
unfolding send_packet_error_text recv_packet_error_text
log_text unknown_peer = codes "Unknown peer"
log_text already_connected = codes "Peers are already connected"
log_text already_disconnected = codes "Peers are already disconnected"
log_text (send_packet_error e) = codes "Dropped outgoing packet: " ++ send_packet_error_text e
log_text (recv_packet_error e) = codes "Dropped incoming packet: " ++ recv_packet_error_text e
log_text connection_not_open = codes "Connection is not open"
log_text internal_state_error = codes "Internal State Error"
log_text packet_buffered = codes "Packet buffered (connection is not open yet)"
log_text packet_queue_overflow = codes "Queue overflow: oldest packet dropped"

-- `key_text` is the text of a public key.
unfoldable pub action_text : {K : Type 0} → (K → Bytes) → Action K → Bytes
unfolding log_text decimal
action_text key_text (connect_to_peer k) = codes "Connect to: " ++ key_text k
action_text key_text (disconnect_from_peer k) = codes "Disconnect from: " ++ key_text k
action_text key_text (send_packet_to packet k) =
    codes "Send " ++ (decimal (length packet) ++ (codes " bytes to " ++ key_text k))
action_text key_text (write_to_tun packet) =
    codes "Write " ++ (decimal (length packet) ++ codes " bytes to TUN")
action_text key_text (no_action reason) = codes "Info -> " ++ log_text reason

-- Every event of the log.
abbrev log_events : List LogEvent
log_events =
    unknown_peer
    ∷ already_connected
    ∷ already_disconnected
    ∷ connection_not_open
    ∷ internal_state_error
    ∷ packet_buffered
    ∷ packet_queue_overflow
    ∷ send_packet_error SendPacketError.incorrect_src_ip
    ∷ send_packet_error SendPacketError.unknown_dest_ip
    ∷ send_packet_error SendPacketError.mtu_error
    ∷ send_packet_error SendPacketError.incorrect_ttl
    ∷ send_packet_error SendPacketError.broken_length
    ∷ send_packet_error (SendPacketError.parse_error too_small_packet)
    ∷ send_packet_error (SendPacketError.parse_error incorrect_ip_version)
    ∷ recv_packet_error RecvPacketError.unknown_src_ip
    ∷ recv_packet_error RecvPacketError.incorrect_dest_ip
    ∷ recv_packet_error RecvPacketError.mtu_error
    ∷ recv_packet_error RecvPacketError.spoofing
    ∷ recv_packet_error RecvPacketError.broken_length
    ∷ recv_packet_error (RecvPacketError.parse_error too_small_packet)
    ∷ recv_packet_error (RecvPacketError.parse_error incorrect_ip_version)
    ∷ []

abbrev same_text : Bytes → Bytes → Bool
same_text [] [] = true
same_text (x ∷ xs) (y ∷ ys) = (x == y) && same_text xs ys
same_text _ _ = false

-- The first of the events with the text.
event_with : Bytes → List LogEvent → Option LogEvent
event_with text [] = none
event_with text (e ∷ es) =
    let rest = event_with text es in if same_text (log_text e) text then some e else rest

event_with-log_text : (e : LogEvent) → event_with (log_text e) log_events ≡ some e
unfolding event_with log_text
event_with-log_text unknown_peer = refl
event_with-log_text already_connected = refl
event_with-log_text already_disconnected = refl
event_with-log_text connection_not_open = refl
event_with-log_text internal_state_error = refl
event_with-log_text packet_buffered = refl
event_with-log_text packet_queue_overflow = refl
event_with-log_text (send_packet_error SendPacketError.incorrect_src_ip) = refl
event_with-log_text (send_packet_error SendPacketError.unknown_dest_ip) = refl
event_with-log_text (send_packet_error SendPacketError.mtu_error) = refl
event_with-log_text (send_packet_error SendPacketError.incorrect_ttl) = refl
event_with-log_text (send_packet_error SendPacketError.broken_length) = refl
event_with-log_text (send_packet_error (SendPacketError.parse_error too_small_packet)) = refl
event_with-log_text (send_packet_error (SendPacketError.parse_error incorrect_ip_version)) = refl
event_with-log_text (recv_packet_error RecvPacketError.unknown_src_ip) = refl
event_with-log_text (recv_packet_error RecvPacketError.incorrect_dest_ip) = refl
event_with-log_text (recv_packet_error RecvPacketError.mtu_error) = refl
event_with-log_text (recv_packet_error RecvPacketError.spoofing) = refl
event_with-log_text (recv_packet_error RecvPacketError.broken_length) = refl
event_with-log_text (recv_packet_error (RecvPacketError.parse_error too_small_packet)) = refl
event_with-log_text (recv_packet_error (RecvPacketError.parse_error incorrect_ip_version)) = refl

-- The log tells its events apart: no two of them have the same text, also where the texts of their
-- errors are the same.
pub log_text-injective : (e f : LogEvent) → log_text e ≡ log_text f → e ≡ f
log_text-injective e f h =
    let both =
      sym (event_with-log_text e) ∙ ap (λ t. event_with t log_events) h ∙ event_with-log_text f in
    cc
