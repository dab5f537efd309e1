-- ===== src/Node/Rounds.antt =====
-- The coordinator's loop over a node's channels, against the router that it feeds.
use peer_to_peer_decentraliz.Base.{
  ◌≡◌, refl, sym, ap, ◌∙◌, List, map, All, returns, ◌>>=◌, ltb, length, Bool-cases, inl, inr,
}
use peer_to_peer_decentraliz.Vpn.{
  VpnCore, Action, connect_to_peer, disconnect_from_peer, send_packet_to, write_to_tun, no_action,
}
use peer_to_peer_decentraliz.Vpn.Run
use peer_to_peer_decentraliz.Coordinator.{
  Carried, channel_was_closed, handle_action, handle_actions,
}
use peer_to_peer_decentraliz.Coordinator
use peer_to_peer_decentraliz.Coordinator.Rounds.{
  Arrival, input_of, event_of, IsOpen, world, run-carried_out,
}
use peer_to_peer_decentraliz.Node.{Queues, queues, carried, intermod_channel_capacity}
use peer_to_peer_decentraliz.Node.Views.{IsPlain}
use peer_to_peer_decentraliz.Node.Channels.{IsBounded, Filled, handle_actions-Filled}

queues-IsOpen : {K : Type 0} → IsOpen (queues {K = K})
unfolding handle_action
queues-IsOpen q (connect_to_peer k) = (q, refl)
queues-IsOpen q (disconnect_from_peer k) = (_, refl)
queues-IsOpen q (send_packet_to p k) =
    elim (Bool-cases (ltb (length q.to_iroh) intermod_channel_capacity)) [
      | inl l ↦ rw l (_, refl)
      | inr l ↦ rw l (_, refl)
    ]
queues-IsOpen q (write_to_tun p) =
    elim (Bool-cases (ltb (length q.to_tun) intermod_channel_capacity)) [
      | inl l ↦ rw l (_, refl)
      | inr l ↦ rw l (_, refl)
    ]
queues-IsOpen q (no_action l) = (q, refl)

world-carried : {K : Type 0} (c : Carried (Queues K)) → carried c ≡ world c
world-carried (Carried.ok q) = refl
world-carried (channel_was_closed q) = refl

-- The coordinator does what the router says. Let the router answer a history of the manager's events
-- and the host's packets with actions for packets and for the log alone, and let neither channel hold
-- more than its capacity. Then the coordinator's run over that history takes the router where the
-- history takes it, and puts each packet of these actions, in their order, behind what its channel
-- holds, those for peers on the channel to the manager and those for the host on that to the device,
-- as far as the 8192 places go.
pub run-Filled :
    {K : Type 0} (key_eq : Discrete K) (core last : VpnCore K) (q : Queues K)
    (arrivals : List (Arrival K)) (actions : List (Action K))
    → Run.run key_eq core (map event_of arrivals) ≡ returns (last, actions)
    → All IsPlain actions
    → IsBounded q
    → (r : Queues K) × (Coordinator.run key_eq queues core q (map input_of arrivals)
        ≡ returns (last, r))
      × Filled q actions r
run-Filled key_eq core last q arrivals actions e plain b = (
  carried (handle_actions queues q actions),
  run-carried_out key_eq queues core q arrivals queues-IsOpen
      ∙ ap (λ m. m >>= λ r. returns (r.0, world (handle_actions queues q r.1))) e
      ∙ ap (λ w. returns (last, w)) (sym (world-carried (handle_actions queues q actions))),
  handle_actions-Filled actions q plain b,
)
