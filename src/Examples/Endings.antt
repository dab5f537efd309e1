-- ===== src/Examples/Endings.antt =====
-- The loops of coord.rs and iroh.rs at inputs that end them. Keys and connections are numbers, a
-- connection is its remote key.
use peer_to_peer_decentraliz.Base.{ℕ, [], ◌∷◌, ℕ_discrete}
use peer_to_peer_decentraliz.Packet.{Ipv4Addr}
use peer_to_peer_decentraliz.Vpn
use peer_to_peer_decentraliz.Vpn.{VpnCore}
use peer_to_peer_decentraliz.Transport.{Iroh, new}
use peer_to_peer_decentraliz.Transport.Handlers
use peer_to_peer_decentraliz.Coordinator
use peer_to_peer_decentraliz.Node.{Queues}
use peer_to_peer_decentraliz.Examples.Mesh.{nat_keys, remote}

abbrev near : Ipv4Addr
near = record { a = 10; b = 67; c = 2; d = 10 }

abbrev router : VpnCore ℕ
router = Vpn.new ℕ_discrete (record { a = 10; b = 67; c = 1; d = 5 }) ((near, 9) ∷ []) 1100

abbrev no_messages : Queues ℕ
no_messages = record { to_iroh = []; to_tun = [] }

abbrev manager : Iroh ℕ ℕ
manager = new nat_keys remote 5 (9 ∷ [])
