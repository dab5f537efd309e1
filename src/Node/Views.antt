-- ===== src/Node/Views.antt =====
-- The router and the coordinator's actions as the rest of the node needs them.
use mathlib.Core.Path.{fun_ext}
use peer_to_peer_decentraliz.Base.{
  ◌≡◌, refl, Bool, true, false, Option, some, List, [], ◌∷◌, ◌++◌, map, ltb, length, if◌then◌else◌,
  inl, inr, arith, All,
}
use peer_to_peer_decentraliz.Packet.{Bytes}
use peer_to_peer_decentraliz.Packet.Header.{IsBytes}
use peer_to_peer_decentraliz.Vpn.{
  VpnCore, packet_from_tun, Action, connect_to_peer, disconnect_from_peer, send_packet_to,
  write_to_tun, no_action,
}
use peer_to_peer_decentraliz.Vpn.Refinement.{Link, up, Links, on_link}
use peer_to_peer_decentraliz.Vpn.Delivery.{Link-cases}
use peer_to_peer_decentraliz.Vpn.Whitelist.{known}
use peer_to_peer_decentraliz.Transport.{
  IrohEvent, connected_to_peer, disconnected_from_peer, recv_packet_from, CoreAction,
}
use peer_to_peer_decentraliz.Transport.Announcements.{hear}
use peer_to_peer_decentraliz.Coordinator.{
  Carried, accepted, full, offered, map_iroh_event_to_core_event, handle_action, handle_actions,
}
use peer_to_peer_decentraliz.Node.{Queues, queues, carried, intermod_channel_capacity}

-- Which peers the router takes for connected.
abbrev pub link_up : Option Link → Bool
link_up (some up) = true
link_up _ = false

abbrev pub ups : {K : Type 0} → Links K → K → Bool
ups v k = link_up (v k)

-- An action for a packet or for the log, which asks nothing of the connections.
abbrev pub IsPlain : {K : Type 0} → Action K → Type 0
IsPlain (connect_to_peer k) = ⊥
IsPlain (disconnect_from_peer k) = ⊥
IsPlain _ = Unit {0}

abbrev pub IsSend : {K : Type 0} → CoreAction K → Type 0
IsSend (CoreAction.send_packet_to p k) = Unit {0}
IsSend _ = ⊥

-- An event of the manager that concerns a known peer, or a packet.
abbrev pub Concerned : {K : Type 0} → (K → Bool) → IrohEvent K → Type 0
Concerned f (connected_to_peer k) = f k ≡ true
Concerned f (disconnected_from_peer k) = f k ≡ true
Concerned f (recv_packet_from p k) = IsBytes p

-- An event of the manager itself, about a known peer.
abbrev pub Reported : {K : Type 0} → (K → Bool) → IrohEvent K → Type 0
Reported f (connected_to_peer k) = f k ≡ true
Reported f (disconnected_from_peer k) = f k ≡ true
Reported f (recv_packet_from p k) = ⊥

pub Reported-Concerned :
    {K : Type 0} (f : K → Bool) (es : List (IrohEvent K))
    → All (Reported f) es
    → All (Concerned f) es
Reported-Concerned f [] h = tt
Reported-Concerned f (connected_to_peer k ∷ es) h = (h.0, Reported-Concerned f es h.1)
Reported-Concerned f (disconnected_from_peer k ∷ es) h = (h.0, Reported-Concerned f es h.1)
Reported-Concerned f (recv_packet_from p k ∷ es) h = absurd h.0

module _ {K : Type 0} (key_eq : Discrete K) where
  IsPlain-flush : (k : K) (ps : List Bytes) → All IsPlain (map (λ p. send_packet_to p k) ps)
  IsPlain-flush k [] = tt
  IsPlain-flush k (p ∷ ps) = (tt, IsPlain-flush k ps)

  pub on_link-IsPlain :
      (c : VpnCore K) (v : Links K) (e : IrohEvent K)
      → Concerned (known key_eq v) e
      → All IsPlain (on_link key_eq c v (map_iroh_event_to_core_event e)).1
  unfolding map_iroh_event_to_core_event
  on_link-IsPlain c v (connected_to_peer k) h = elim (Link-cases (v k)) [
    | inl e ↦ ground arith
    | inr (inl e) ↦ ground arith
    | inr (inr (queue, e)) ↦ ground (arith, IsPlain-flush k queue)
  ]
  on_link-IsPlain c v (disconnected_from_peer k) h = ground arith
  on_link-IsPlain c v (recv_packet_from p k) h = ground arith

  pub tun-IsPlain :
      (c : VpnCore K) (v : Links K) (p : Bytes)
      → All IsPlain (on_link key_eq c v (packet_from_tun p)).1
  tun-IsPlain c v p = ground arith

  -- The router follows the manager's events about peers that it knows.
  pub on_link-hear :
      (c : VpnCore K) (v : Links K) (e : IrohEvent K)
      → Concerned (known key_eq v) e
      → ups (on_link key_eq c v (map_iroh_event_to_core_event e)).0 ≡ hear key_eq (ups v) (e ∷ [])
  unfolding map_iroh_event_to_core_event
  on_link-hear c v (connected_to_peer k) h = fun_ext λ j. ground arith
  on_link-hear c v (disconnected_from_peer k) h = fun_ext λ j. ground arith
  on_link-hear c v (recv_packet_from p k) h = ground arith

  pub tun-ups :
      (c : VpnCore K) (v : Links K) (p : Bytes)
      → ups (on_link key_eq c v (packet_from_tun p)).0 ≡ ups v
  tun-ups c v p = fun_ext λ j. ground arith

pub All-snoc {ℓ} :
    {A : Type ℓ} (P : A → Type 0) (xs : List A) (x : A) → All P xs → P x → All P (xs ++ (x ∷ []))
All-snoc P [] x h p = (p, tt)
All-snoc P (y ∷ xs) x h p = (h.0, All-snoc P xs x h.1 p)

-- A send that does not find its channel closed leaves queues of packets.
SendsOk : {K : Type 0} → Carried (Queues K) → Type 0
SendsOk {K} r = (q : Queues K) × (r ≡ Carried.ok q) × All IsSend q.to_iroh

offered-SendsOk :
    {K : Type 0} (b : Bool) (q next : Queues K)
    → All IsSend q.to_iroh
    → All IsSend next.to_iroh
    → SendsOk (offered queues q (if b then accepted next else full))
unfolding SendsOk
offered-SendsOk true q next h k = (next, refl, k)
offered-SendsOk false q next h k = (q, refl, h)

handle_action-SendsOk :
    {K : Type 0} (a : Action K) (q : Queues K)
    → IsPlain a
    → All IsSend q.to_iroh
    → SendsOk (handle_action queues q a)
unfolding handle_action SendsOk
handle_action-SendsOk (send_packet_to p k) q h s =
    unfold SendsOk in
    offered-SendsOk (ltb (length q.to_iroh) intermod_channel_capacity) q
      (record q { to_iroh = q.to_iroh ++ (CoreAction.send_packet_to p k ∷ []) }) s
      (All-snoc IsSend q.to_iroh (CoreAction.send_packet_to p k) s tt)
handle_action-SendsOk (write_to_tun p) q h s =
    unfold SendsOk in
    offered-SendsOk (ltb (length q.to_tun) intermod_channel_capacity) q
      (record q { to_tun = q.to_tun ++ (p ∷ []) }) s s
handle_action-SendsOk (no_action l) q h s = (q, refl, s)
handle_action-SendsOk (connect_to_peer k) q h s = absurd h
handle_action-SendsOk (disconnect_from_peer k) q h s = absurd h

-- Plain actions put nothing but packets on the channel to the manager.
pub carried-IsSend :
    {K : Type 0} (acts : List (Action K)) (q : Queues K)
    → All IsPlain acts
    → All IsSend q.to_iroh
    → All IsSend (carried (handle_actions queues q acts)).to_iroh
unfolding handle_actions SendsOk
carried-IsSend [] q h s = s
carried-IsSend (a ∷ acts) q h s =
    let (next, e, sends) = handle_action-SendsOk a q h.0 s in
    rw (e, handle_actions) (carried-IsSend acts next h.1 sends)
