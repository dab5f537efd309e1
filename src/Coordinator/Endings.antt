-- ===== src/Coordinator/Endings.antt =====
-- What ends the loop of the coordinator.
use peer_to_peer_decentraliz.Base.{none, Bool, true, false, List, Checked}
use peer_to_peer_decentraliz.Vpn.{VpnCore}
use peer_to_peer_decentraliz.Coordinator.{
  Outbox, Carried, ok, channel_was_closed, Input, from_iroh, from_tun, run,
}

-- The manager or the TUN task has dropped its end of a channel.
abbrev pub ends : {K : Type 0} → Input K → Bool
ends (from_iroh none) = true
ends (from_tun none) = true
ends _ = false

module _ {K W : Type 0} (key_eq : Discrete K) (out : Outbox K W) where
  abbrev goes_on : List (Input K) → VpnCore K × Carried W → Checked (VpnCore K × W)
  goes_on is (core, ok next) = run key_eq out core next is
  goes_on is (core, channel_was_closed last) = Checked.returns (core, last)
