-- ===== src/CustomTransport.antt =====
-- custom_transport.rs: the congestion controller that the endpoint is given. The QUIC library calls
-- it back; `I` is its `Instant`.
use peer_to_peer_decentraliz.Base.{ℕ, Bool, List, [], ◌∷◌}

pub record CustomController : Type 0 where
  pub mtu : ℕ

unfoldable pub window : CustomController → ℕ
window c = 1_000_000_000

unfoldable pub initial_window : CustomController → ℕ
initial_window c = 1_000_000_000

unfoldable pub on_mtu_update : CustomController → ℕ → CustomController
on_mtu_update c new_mtu = record c { mtu = new_mtu }

unfoldable pub clone_box : CustomController → CustomController
clone_box c = c

module _ {I : Type 0} where
  unfoldable pub on_congestion_event : CustomController → I → I → Bool → Bool → ℕ → CustomController
  on_congestion_event c now sent is_persistent_congestion is_ecn lost_bytes = c

  -- `CustomControllerFactory::build`
  unfoldable pub build : I → ℕ → CustomController
  build now current_mtu = record { mtu = 1200 }

-- The callbacks that may change a controller.
pub data Callback (I : Type 0) : Type 0 where
  congestion :
      (now sent : I) → (is_persistent_congestion is_ecn : Bool) → (lost_bytes : ℕ) → Callback I
  mtu_update : ℕ → Callback I
  cloned : Callback I

module _ {I : Type 0} where
  unfoldable pub called : CustomController → Callback I → CustomController
  unfolding on_congestion_event on_mtu_update clone_box
  called c (congestion now sent persistent ecn lost) =
      on_congestion_event c now sent persistent ecn lost
  called c (mtu_update new_mtu) = on_mtu_update c new_mtu
  called c cloned = clone_box c

  unfoldable pub called_all : CustomController → List (Callback I) → CustomController
  unfolding called
  called_all c [] = c
  called_all c (b ∷ bs) = called_all (called c b) bs
