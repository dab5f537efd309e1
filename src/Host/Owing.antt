-- ===== src/Host/Owing.antt =====
-- What passes between a host and its peers, from device to device.
use peer_to_peer_decentraliz.Base.{
  ◌≤◌, List, [], ◌∷◌, length, All, Returns, Returns-bind, Returns-mono,
}
use peer_to_peer_decentraliz.Packet.{Bytes, Ipv4Addr}
use peer_to_peer_decentraliz.Vpn.{VpnCore}
use peer_to_peer_decentraliz.Vpn
use peer_to_peer_decentraliz.Vpn.Origins.{ForHost}
use peer_to_peer_decentraliz.Transport.{KeyOrder}
use peer_to_peer_decentraliz.Node.{start, final_mtu, intermod_channel_capacity}
use peer_to_peer_decentraliz.Node.Owing.{IsOutgoing}
use peer_to_peer_decentraliz.Host.{Host, Round, round, rounds, beside}
use peer_to_peer_decentraliz.Host.Served.{IsRound, IsServed, round-IsServed, beside-IsServed}

module _ {K C : Type 0} (keys : KeyOrder K) (remote_id : C → K) (Given : Bytes → Type 0)
    (Read : Bytes → K → Type 0) where
  module _ (c : VpnCore K) where
    rounds-IsServed :
        (h : Host K C) (rs : List (Round K C))
        → All (IsRound keys remote_id Given Read) rs
        → IsServed keys remote_id Given Read c h
        → Returns (IsServed keys remote_id Given Read c) (rounds keys remote_id h rs)
    unfolding rounds
    rounds-IsServed h [] b s = s
    rounds-IsServed h (r ∷ rs) b s =
        Returns-bind _ _ (round keys remote_id h r) _
          (round-IsServed keys remote_id Given Read c h r b.0 s)
          λ next s'. rounds-IsServed next rs b.1 s'

  -- Let the packets that the device gives have a property, and the datagrams, with the peers whose
  -- sessions read them, another. At every point of every run of a started node with its device,
  -- however often the device fails and is made again, no task has panicked; whatever the writer has
  -- handed to the device is a datagram that may enter from the very peer whose session read it;
  -- whatever the manager is handed is a packet that the device gave and that may leave, for the
  -- peer of its route; and the channel from the device holds at most 8192 packets.
  pub rounds-owing :
      (id : K) (ip : Ipv4Addr) (table : List (Ipv4Addr × K)) (rs : List (Round K C))
      → All (IsRound keys remote_id Given Read) rs
      → Returns
          (λ h.
            All (ForHost keys.eq Given Read (Vpn.new keys.eq ip table final_mtu)) h.written
            × All
                (IsOutgoing keys remote_id Given Read (Vpn.new keys.eq ip table final_mtu))
                h.node.out.to_iroh
            × (length h.from_tun ≤ intermod_channel_capacity))
          (rounds keys remote_id (beside keys remote_id (start keys remote_id id ip table)) rs)
  rounds-owing id ip table rs b =
      let node = start keys remote_id id ip table in
      Returns-mono _ _ (rounds keys remote_id (beside keys remote_id node) rs)
        (λ h s. (s.written, s.kept.traced.owing.0, s.fits))
        (rounds-IsServed (Vpn.new keys.eq ip table final_mtu) (beside keys remote_id node) rs b
          (beside-IsServed keys remote_id Given Read id ip table))
