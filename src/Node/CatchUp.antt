-- ===== src/Node/CatchUp.antt =====
-- How a router comes to know what its manager has told it.
use peer_to_peer_decentraliz.Base.{
  ℕ, zero, suc, ◌≡◌, refl, sym, subst, List, [], ◌∷◌, length, All, Checked, returns, panics, ◌>>=◌,
  Returns, Returns-bind, Returns-both,
}
use peer_to_peer_decentraliz.Packet.{Ipv4Addr}
use peer_to_peer_decentraliz.Vpn.Refinement.{view}
use peer_to_peer_decentraliz.Transport.{KeyOrder, IrohEvent}
use peer_to_peer_decentraliz.Transport.Announcements.{hear, linked}
use peer_to_peer_decentraliz.Coordinator.{handle_iroh_event}
use peer_to_peer_decentraliz.Node.{Node, queues, Turn, coord_event, coord_turn, turn, start, play}
use peer_to_peer_decentraliz.Node.Views.{ups}
use peer_to_peer_decentraliz.Node.Invariant.{IsTurn, IsSynced, turn-IsSynced}
use peer_to_peer_decentraliz.Node.Schedules.{start-IsSynced, play-IsSynced}

-- The coordinator alone runs, for so many events.
abbrev pub coord_turns : {K C : Type 0} → ℕ → List (Turn K C)
coord_turns zero = []
coord_turns (suc n) = coord_event ∷ coord_turns n

Returns-of :
    {A B : Type 0} (P Q : B → Type 0) (f : A → B) (m : Checked A)
    → Returns P (m >>= λ a. returns (f a))
    → ((a : A) → Q (f a))
    → Returns Q (m >>= λ a. returns (f a))
Returns-of P Q f (returns a) h q = q a
Returns-of P Q f panics h q = h

module _ {K C : Type 0} (keys : KeyOrder K) (remote_id : C → K) where
  -- The router knows of exactly the connections that the manager holds.
  pub record IsCaughtUp (n : Node K C) : Type 0 where
    pub heard : n.to_coord ≡ []
    pub agrees : ups (view keys.eq n.core) ≡ linked keys remote_id n.iroh

  coord_turn-rest :
      (n : Node K C) (ev : IrohEvent K) (rest : List (IrohEvent K))
      → Returns (IsSynced keys remote_id) (coord_turn keys remote_id n (ev ∷ rest))
      → Returns (λ m. m.to_coord ≡ rest) (coord_turn keys remote_id n (ev ∷ rest))
  unfolding coord_turn
  coord_turn-rest n ev rest h =
      Returns-of (IsSynced keys remote_id) (λ m. m.to_coord ≡ rest) _
        (handle_iroh_event keys.eq queues n.core n.out ev) h (λ r. refl)

  next_event :
      (n : Node K C) (ev : IrohEvent K) (rest : List (IrohEvent K))
      → n.to_coord ≡ ev ∷ rest
      → IsSynced keys remote_id n
      → Returns
          (λ m. IsSynced keys remote_id m × (m.to_coord ≡ rest))
          (turn keys remote_id n coord_event)
  unfolding turn
  next_event n ev rest e s =
      let synced = turn-IsSynced keys remote_id n coord_event tt s in
      Returns-both _ _ (coord_turn keys remote_id n n.to_coord) synced (
        subst (λ es. Returns (λ m. m.to_coord ≡ rest) (coord_turn keys remote_id n es)) (sym e)
          (coord_turn-rest n ev rest (
            subst (λ es. Returns (IsSynced keys remote_id) (coord_turn keys remote_id n es)) e
              synced)))

  coord_turns-IsCaughtUp :
      (n : Node K C) (events : List (IrohEvent K))
      → n.to_coord ≡ events
      → IsSynced keys remote_id n
      → Returns IsCaughtUp (play keys remote_id n (coord_turns (length events)))
  unfolding play
  coord_turns-IsCaughtUp n [] e s = record {
    heard = e;
    agrees =
        subst (λ es. hear keys.eq (ups (view keys.eq n.core)) es ≡ linked keys remote_id n.iroh) e
          s.links_agree;
  }
  coord_turns-IsCaughtUp n (ev ∷ rest) e s =
      Returns-bind _ _ (turn keys remote_id n coord_event) _ (next_event n ev rest e s)
        λ m (s', e'). coord_turns-IsCaughtUp m rest e' s'

  -- Whatever has happened in a started node, as many turns of the coordinator as there are events
  -- on its channel from the manager bring the router up to date: the channel is empty, and the
  -- router takes for connected exactly the peers whose connections the manager holds.
  pub play-IsCaughtUp :
      (id : K) (ip : Ipv4Addr) (table : List (Ipv4Addr × K)) (ts : List (Turn K C))
      → All IsTurn ts
      → Returns IsCaughtUp (
          play keys remote_id (start keys remote_id id ip table) ts >>= λ n.
          play keys remote_id n (coord_turns (length n.to_coord)))
  play-IsCaughtUp id ip table ts h =
      Returns-bind _ _ (play keys remote_id (start keys remote_id id ip table) ts) _
        (play-IsSynced keys remote_id (start keys remote_id id ip table) ts h
          (start-IsSynced keys remote_id id ip table))
        λ n s. coord_turns-IsCaughtUp n n.to_coord refl s
