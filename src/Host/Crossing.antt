-- ===== src/Host/Crossing.antt =====
-- A packet from the device to the coordinator.
use peer_to_peer_decentraliz.Base.{
  ℕ, ◌≡◌, refl, [], ◌∷◌, ok, returns, Checked, panics, ◌⊎◌, inl, inr,
}
use peer_to_peer_decentraliz.Packet.{Bytes}
use peer_to_peer_decentraliz.Transport.{KeyOrder}
use peer_to_peer_decentraliz.Tun.{reader_round}
use peer_to_peer_decentraliz.Node.{Node, turn, host_packet}
use peer_to_peer_decentraliz.Host.{
  take_turn, reader_reads, take_packet, reader_turn, running, Host, round, rounds,
}

pub Checked-cases : {A : Type 0} (m : Checked A) → ((a : A) × (m ≡ returns a)) ⊎ (m ≡ panics)
Checked-cases (returns a) = inl (a, refl)
Checked-cases panics = inr refl

module _ {K C : Type 0} (keys : KeyOrder K) (remote_id : C → K) where
  -- What the reader has put on its empty channel is the coordinator's next packet.
  pub device_gives :
      (h : Host K C) (x : ℕ) (p : Bytes) (n : Node K C)
      → h.phase ≡ running
      → h.from_tun ≡ []
      → turn keys remote_id h.node (host_packet (x ∷ p)) ≡ returns n
      → rounds keys remote_id h (reader_reads (ok (x ∷ p)) ∷ take_packet ∷ [])
        ≡ returns (record h { node = n })
  unfolding rounds round reader_turn reader_round take_turn
  device_gives h x p n runs e t = rw (runs, e, t) refl
