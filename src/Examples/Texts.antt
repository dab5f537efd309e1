-- ===== src/Examples/Texts.antt =====
-- The texts of errors, events and actions. Errors of the libraries and keys write their own text.
use peer_to_peer_decentraliz.Base.{◌≡◌, refl, ◌∷◌, [], codes}
use peer_to_peer_decentraliz.Packet.{Bytes}
use peer_to_peer_decentraliz.Vpn.{
  send_packet_to, write_to_tun, no_action, send_packet_error, SendPacketError,
}
use peer_to_peer_decentraliz.Vpn.Texts.{action_text}
use peer_to_peer_decentraliz.Config.{secret_key_error, get_key_error}
use peer_to_peer_decentraliz.Config.Texts.{config_error_text, init_error_text}
use peer_to_peer_decentraliz.Transport.Endpoint.{build_error}

abbrev itself : Bytes → Bytes
itself text = text

send_text :
    action_text itself (send_packet_to (1 ∷ 2 ∷ 3 ∷ []) (codes "k")) ≡ codes "Send 3 bytes to k"
unfolding action_text
send_text = refl

write_text :
    action_text itself (write_to_tun (1 ∷ 2 ∷ 3 ∷ 4 ∷ 5 ∷ 6 ∷ 7 ∷ 8 ∷ 9 ∷ 10 ∷ []))
    ≡ codes "Write 10 bytes to TUN"
unfolding action_text
write_text = refl

length_text :
    action_text itself (no_action (send_packet_error SendPacketError.broken_length))
    ≡ codes "Info -> Dropped outgoing packet: incorrect length of packet"
unfolding action_text
length_text = refl

key_text :
    config_error_text itself itself (secret_key_error (get_key_error (codes "denied")))
    ≡ codes "Secret key error: can't get the key: denied"
unfolding config_error_text
key_text = refl

start_text :
    init_error_text {InvalidSocketAddr = Bytes} itself itself (build_error (codes "in use"))
    ≡ codes "Iroh init error: in use"
unfolding init_error_text
start_text = refl
