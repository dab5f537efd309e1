-- ===== src/Coordinator/Rounds.antt =====
-- The coordinator against the router that it feeds: what it carries out, and where it stops.
use peer_to_peer_decentraliz.Base.{
  ◌≡◌, refl, sym, ap, ◌∙◌, ◌⊎◌, inl, inr, some, List, [], ◌∷◌, ◌++◌, map, Checked, returns, panics,
  ◌>>=◌,
}
use peer_to_peer_decentraliz.Packet.{Bytes}
use peer_to_peer_decentraliz.Vpn.{
  VpnCore, Event, packet_from_tun, packet_from_iroh, peer_connected, peer_disconnected, Action,
  process,
}
use peer_to_peer_decentraliz.Vpn.Run
use peer_to_peer_decentraliz.Transport.{
  IrohEvent, connected_to_peer, disconnected_from_peer, recv_packet_from,
}
use peer_to_peer_decentraliz.Coordinator.{
  Outbox, Carried, ok, channel_was_closed, handle_action, handle_actions, Input, from_iroh,
  from_tun, map_iroh_event_to_core_event, handle_event, handle_iroh_event, handle_packet_from_tun,
  run,
}

-- The world that is left, whether or not a channel was closed.
abbrev pub world : {W : Type 0} → Carried W → W
world (ok w) = w
world (channel_was_closed w) = w

abbrev then_carry : {K W : Type 0} → Outbox K W → Carried W → List (Action K) → Carried W
then_carry out (ok w) acts = handle_actions out w acts
then_carry out (channel_was_closed w) acts = channel_was_closed w

Carried-cases :
    {W : Type 0} (c : Carried W) → ((w : W) × (c ≡ ok w)) ⊎ ((w : W) × (c ≡ channel_was_closed w))
Carried-cases (ok w) = inl (w, refl)
Carried-cases (channel_was_closed w) = inr (w, refl)

pub handle_actions-append :
    {K W : Type 0} (out : Outbox K W) (w : W) (xs ys : List (Action K))
    → handle_actions out w (xs ++ ys) ≡ then_carry out (handle_actions out w xs) ys
unfolding handle_actions
handle_actions-append out w [] ys = refl
handle_actions-append out w (a ∷ xs) ys = elim (Carried-cases (handle_action out w a)) [
  | inl (next, e) ↦ rw (e, handle_actions) (handle_actions-append out next xs ys)
  | inr (last, e) ↦ rw (e, handle_actions)
]

-- An event of the manager or a packet of the host, neither of them the end of a channel; and what each
-- is to the router.
pub data Arrival (K : Type 0) : Type 0 where
  event : IrohEvent K → Arrival K
  packet : Bytes → Arrival K

abbrev pub input_of : {K : Type 0} → Arrival K → Input K
input_of (event e) = from_iroh (some e)
input_of (packet p) = from_tun (some p)

abbrev pub event_of : {K : Type 0} → Arrival K → Event K
event_of (event (connected_to_peer k)) = peer_connected k
event_of (event (disconnected_from_peer k)) = peer_disconnected k
event_of (event (recv_packet_from p k)) = packet_from_iroh p k
event_of (packet p) = packet_from_tun p

-- No channel of the coordinator closes.
abbrev pub IsOpen : {K W : Type 0} → Outbox K W → Type 0
IsOpen {K} {W} out = (w : W) (a : Action K) → (next : W) × (handle_action out w a ≡ ok next)

module _ {K W : Type 0} (key_eq : Discrete K) (out : Outbox K W) where
  IsOpen-handle_actions :
      IsOpen out
      → (acts : List (Action K)) (w : W) → (last : W) × (handle_actions out w acts ≡ ok last)
  unfolding handle_actions
  IsOpen-handle_actions op [] w = (w, refl)
  IsOpen-handle_actions op (a ∷ acts) w =
      let (next, e) = op w a in rw (e, handle_actions) (IsOpen-handle_actions op acts next)

  -- Where a round of the coordinator goes on.
  abbrev round : VpnCore K → W → Event K → List (Input K) → Checked (VpnCore K × W)
  round core w e is = handle_event key_eq out core w e >>= λ r. elim r.1 [
    | ok next ↦ run key_eq out r.0 next is
    | channel_was_closed last ↦ returns (r.0, last)
  ]

  run-round :
      (core : VpnCore K) (w : W) (a : Arrival K) (is : List (Input K))
      → run key_eq out core w (input_of a ∷ is) ≡ round core w (event_of a) is
  unfolding run handle_iroh_event handle_packet_from_tun map_iroh_event_to_core_event
  run-round core w (event (connected_to_peer k)) is = refl
  run-round core w (event (disconnected_from_peer k)) is = refl
  run-round core w (event (recv_packet_from p k)) is = refl
  run-round core w (packet p) is = refl

  abbrev carried_out : W → Checked (VpnCore K × List (Action K)) → Checked (VpnCore K × W)
  carried_out w m = m >>= λ r. returns (r.0, world (handle_actions out w r.1))

  -- The actions of a round, in front of those of the rounds behind it.
  carried_out-append :
      (w next : W) (acts : List (Action K)) (m : Checked (VpnCore K × List (Action K)))
      → handle_actions out w acts ≡ ok next
      → carried_out w (m >>= λ r. returns (r.0, acts ++ r.1)) ≡ carried_out next m
  carried_out-append w next acts panics e = refl
  carried_out-append w next acts (returns (last, later)) e =
      ap (λ c. returns (last, world c))
        (handle_actions-append out w acts later ∙ ap (λ c. then_carry out c later) e)

  -- While no channel closes, the coordinator is the router with its actions carried out: over any
  -- arrivals it takes the router through their events, and the world through all the actions that
  -- the router gives, in their order, each of them once.
  pub run-carried_out :
      (core : VpnCore K) (w : W) (arrivals : List (Arrival K))
      → IsOpen out
      → run key_eq out core w (map input_of arrivals) ≡ (
          Run.run key_eq core (map event_of arrivals) >>= λ r.
          returns (r.0, world (handle_actions out w r.1)))
  unfolding run Run.run handle_actions handle_event
  run-carried_out core w [] op = refl
  run-carried_out core w (a ∷ arrivals) op =
      run-round core w a (map input_of arrivals)
      ∙ stepped (λ d next. run-carried_out d next arrivals op) (process key_eq core (event_of a))
          refl
    where
      stepped :
          ((d : VpnCore K) (next : W)
            → run key_eq out d next (map input_of arrivals)
              ≡ carried_out next (Run.run key_eq d (map event_of arrivals)))
          → (m : Checked (VpnCore K × List (Action K))) → process key_eq core (event_of a) ≡ m
          → round core w (event_of a) (map input_of arrivals)
            ≡ carried_out w (Run.run key_eq core (event_of a ∷ map event_of arrivals))
      stepped ih panics e = rw (handle_event, Run.run, e) refl
      stepped ih (returns (d, acts)) e =
          let (next, sent) = IsOpen-handle_actions op acts w in
          rw (handle_event, Run.run, e)
            (rw sent (
              ih d next
              ∙ sym
                  (carried_out-append w next acts (Run.run key_eq d (map event_of arrivals)) sent)))

module _ {K W : Type 0} (out : Outbox K W) where
  -- Where `handle_actions` gives up, in terms of the actions.
  pub record StopsAt (w last : W) (acts : List (Action K)) : Type 0 where
    pub before : List (Action K)
    pub refused : Action K
    pub behind : List (Action K)
    pub split : acts ≡ before ++ (refused ∷ behind)
    pub carried : handle_actions out w before ≡ ok last
    pub closed : handle_action out last refused ≡ channel_was_closed last
