-- ===== src/Node/Channels.antt =====
-- The bounded channels of a node: what they hold, and what is dropped at their end.
use mathlib.Core.List.{append_assoc, append-nil}
use peer_to_peer_decentraliz.Base.{
  ℕ, ◌≤◌, ◌≡◌, refl, sym, ap, ◌∙◌, Bool-cases, inl, inr, ltb, List, [], ◌∷◌, ◌++◌, length,
  length-append, take, length-take, take-append_full, take-fits, if◌then◌else◌, arith, All,
}
use peer_to_peer_decentraliz.Packet.{Bytes}
use peer_to_peer_decentraliz.Vpn.{
  Action, connect_to_peer, disconnect_from_peer, send_packet_to, write_to_tun, no_action,
}
use peer_to_peer_decentraliz.Transport.{CoreAction}
use peer_to_peer_decentraliz.Coordinator.{Carried, handle_action, handle_actions}
use peer_to_peer_decentraliz.Node.{Queues, queues, carried, intermod_channel_capacity}
use peer_to_peer_decentraliz.Node.Views.{IsPlain}

-- The packets that a list of actions has for the host, and those that it has for the peers.
abbrev pub written : {K : Type 0} → List (Action K) → List Bytes
written [] = []
written (write_to_tun p ∷ acts) = p ∷ written acts
written (_ ∷ acts) = written acts

abbrev pub forwarded : {K : Type 0} → List (Action K) → List (CoreAction K)
forwarded [] = []
forwarded (send_packet_to p k ∷ acts) = CoreAction.send_packet_to p k ∷ forwarded acts
forwarded (_ ∷ acts) = forwarded acts

-- A channel of `n` places when `x` is offered.
abbrev place : {A : Type 0} → ℕ → List A → A → List A
place n xs x = if ltb (length xs) n then xs ++ (x ∷ []) else xs

length-place :
    {A : Type 0} (n : ℕ) (xs : List A) (x : A) → length xs ≤ n → length (place n xs x) ≤ n
length-place n xs x h = ground (arith, length-append xs (x ∷ []))

take-place :
    {A : Type 0} (n : ℕ) (xs ys : List A) (x : A)
    → length xs ≤ n
    → take n (place n xs x ++ ys) ≡ take n (xs ++ (x ∷ ys))
take-place n xs ys x h = elim (Bool-cases (ltb (length xs) n)) [
  | inl l ↦ rw l (ap (take n) (append_assoc xs (x ∷ []) ys))
  | inr l ↦
      let is_full : length xs ≡ n = ground arith in
      rw l (take-append_full n xs ys is_full ∙ sym (take-append_full n xs (x ∷ ys) is_full))
]

-- Neither channel holds more than its capacity.
pub record IsBounded {K : Type 0} (q : Queues K) : Type 0 where
  pub iroh_fits : length q.to_iroh ≤ intermod_channel_capacity
  pub tun_fits : length q.to_tun ≤ intermod_channel_capacity

-- The two channels after some actions.
abbrev pub Filled : {K : Type 0} → Queues K → List (Action K) → Queues K → Type 0
Filled q acts r =
    (r.to_iroh ≡ take intermod_channel_capacity (q.to_iroh ++ forwarded acts))
    × (r.to_tun ≡ take intermod_channel_capacity (q.to_tun ++ written acts))

-- The channels behind one action for a packet or the log.
abbrev placed : {K : Type 0} → Queues K → Action K → Queues K
placed q (send_packet_to p k) = record q {
  to_iroh = place intermod_channel_capacity q.to_iroh (CoreAction.send_packet_to p k);
}
placed q (write_to_tun p) = record q { to_tun = place intermod_channel_capacity q.to_tun p }
placed q _ = q

handle_action-placed :
    {K : Type 0} (q : Queues K) (a : Action K)
    → IsPlain a
    → handle_action queues q a ≡ Carried.ok (placed q a)
unfolding handle_action
handle_action-placed q (send_packet_to p k) h = ground arith
handle_action-placed q (write_to_tun p) h = ground arith
handle_action-placed q (no_action l) h = refl
handle_action-placed q (connect_to_peer k) h = absurd h
handle_action-placed q (disconnect_from_peer k) h = absurd h

placed-IsBounded : {K : Type 0} (q : Queues K) (a : Action K) → IsBounded q → IsBounded (placed q a)
placed-IsBounded q (send_packet_to p k) b = record {
  iroh_fits = length-place _ q.to_iroh _ b.iroh_fits;
  tun_fits = b.tun_fits;
}
placed-IsBounded q (write_to_tun p) b = record {
  iroh_fits = b.iroh_fits;
  tun_fits = length-place _ q.to_tun p b.tun_fits;
}
placed-IsBounded q (no_action l) b = b
placed-IsBounded q (connect_to_peer k) b = b
placed-IsBounded q (disconnect_from_peer k) b = b

placed-Filled :
    {K : Type 0} (q r : Queues K) (a : Action K) (acts : List (Action K))
    → IsBounded q
    → Filled (placed q a) acts r
    → Filled q (a ∷ acts) r
placed-Filled q r (send_packet_to p k) acts b (i, t) =
    (i ∙ take-place _ q.to_iroh (forwarded acts) _ b.iroh_fits, t)
placed-Filled q r (write_to_tun p) acts b (i, t) =
    (i, t ∙ take-place _ q.to_tun (written acts) p b.tun_fits)
placed-Filled q r (no_action l) acts b f = f
placed-Filled q r (connect_to_peer k) acts b f = f
placed-Filled q r (disconnect_from_peer k) acts b f = f

-- A full channel drops the packets that come last, and nothing else: behind any actions for packets
-- and the log, each channel holds what it held and then the packets for it, in order, cut off at
-- its capacity.
pub handle_actions-Filled :
    {K : Type 0} (acts : List (Action K)) (q : Queues K)
    → All IsPlain acts
    → IsBounded q
    → Filled q acts (carried (handle_actions queues q acts))
unfolding handle_actions
handle_actions-Filled [] q h b = (
  sym (
      ap (take intermod_channel_capacity) (append-nil q.to_iroh)
      ∙ take-fits _ q.to_iroh b.iroh_fits),
  sym (ap (take intermod_channel_capacity) (append-nil q.to_tun) ∙ take-fits _ q.to_tun b.tun_fits),
)
handle_actions-Filled (a ∷ acts) q (h, hs) b =
    rw (handle_actions, handle_action-placed q a h)
      (placed-Filled q _ a acts b
        (handle_actions-Filled acts (placed q a) hs (placed-IsBounded q a b)))

pub handle_actions-IsBounded :
    {K : Type 0} (acts : List (Action K)) (q : Queues K)
    → All IsPlain acts
    → IsBounded q
    → IsBounded (carried (handle_actions queues q acts))
handle_actions-IsBounded acts q h b =
    let (i, t) = handle_actions-Filled acts q h b in
    record {
      iroh_fits = rw i (length-take intermod_channel_capacity (q.to_iroh ++ forwarded acts));
      tun_fits = rw t (length-take intermod_channel_capacity (q.to_tun ++ written acts));
    }
