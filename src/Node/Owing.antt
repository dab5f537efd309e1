-- ===== src/Node/Owing.antt =====
-- The packets under way in a node, each accounted for by where it came from.
use peer_to_peer_decentraliz.Base.{
  ℕ, zero, suc, sym, subst, Bool, List, [], ◌∷◌, ◌++◌, take, All, ap, Returns, Returns-bind,
}
use peer_to_peer_decentraliz.Packet.{Bytes}
use peer_to_peer_decentraliz.Vpn.{
  VpnCore, Action, connect_to_peer, disconnect_from_peer, send_packet_to, write_to_tun, no_action,
  Event, process,
}
use peer_to_peer_decentraliz.Vpn.Invariant.{SameConfig, IsValid, IsEvent}
use peer_to_peer_decentraliz.Vpn.Refinement.{view, Links, on_link, process-both}
use peer_to_peer_decentraliz.Vpn.Origins.{
  ForPeer, ForHost, IsOwed, QueuesFor, All-append, IsSourced, on_link-IsOwed,
}
use peer_to_peer_decentraliz.Transport.{
  KeyOrder, IrohEvent, connected_to_peer, disconnected_from_peer, recv_packet_from, CoreAction,
}
use peer_to_peer_decentraliz.Coordinator.{handle_actions, handle_event}
use peer_to_peer_decentraliz.Node.{
  Queues, queues, carried, Node, Turn, host_packet, session_packet, intermod_channel_capacity,
}
use peer_to_peer_decentraliz.Node.Views.{IsPlain, Reported}
use peer_to_peer_decentraliz.Node.Channels.{IsBounded, written, forwarded, handle_actions-Filled}
use peer_to_peer_decentraliz.Vpn.Run.{same_trans}

All-take : {A : Type 0} (P : A → Type 0) (n : ℕ) (xs : List A) → All P xs → All P (take n xs)
All-take P zero xs h = tt
All-take P (suc n) [] h = h
All-take P (suc n) (x ∷ xs) h = (h.0, All-take P n xs h.1)

-- `Given` is any property of the host's packets, `Read` one of datagrams with their sessions' peers.
module _ {K C : Type 0} (keys : KeyOrder K) (remote_id : C → K) (Given : Bytes → Type 0)
    (Read : Bytes → K → Type 0) where
  -- What a turn brings into the node has the property.
  abbrev pub Brings : Turn K C → Type 0
  Brings (host_packet p) = Given p
  Brings (session_packet p k) = Read p k
  Brings _ = Unit {0}

  abbrev pub Arrived : IrohEvent K → Type 0
  Arrived (recv_packet_from p k) = Read p k
  Arrived _ = Unit {0}

  pub Arrived-Reported :
      (f : K → Bool) (es : List (IrohEvent K)) → All (Reported f) es → All Arrived es
  Arrived-Reported f [] h = tt
  Arrived-Reported f (connected_to_peer k ∷ es) h = (tt, Arrived-Reported f es h.1)
  Arrived-Reported f (disconnected_from_peer k ∷ es) h = (tt, Arrived-Reported f es h.1)
  Arrived-Reported f (recv_packet_from p k ∷ es) h = absurd h.0

  module _ (c : VpnCore K) where
    abbrev pub IsOutgoing : CoreAction K → Type 0
    IsOutgoing (CoreAction.send_packet_to p k) = ForPeer keys.eq Given Read c p k
    IsOutgoing _ = ⊥

    forwarded-IsOutgoing :
        (acts : List (Action K))
        → All (IsOwed keys.eq Given Read c) acts
        → All IsOutgoing (forwarded acts)
    forwarded-IsOutgoing [] h = tt
    forwarded-IsOutgoing (send_packet_to p k ∷ acts) h = (h.0, forwarded-IsOutgoing acts h.1)
    forwarded-IsOutgoing (write_to_tun p ∷ acts) h = forwarded-IsOutgoing acts h.1
    forwarded-IsOutgoing (no_action l ∷ acts) h = forwarded-IsOutgoing acts h.1
    forwarded-IsOutgoing (connect_to_peer k ∷ acts) h = forwarded-IsOutgoing acts h.1
    forwarded-IsOutgoing (disconnect_from_peer k ∷ acts) h = forwarded-IsOutgoing acts h.1

    written-ForHost :
        (acts : List (Action K))
        → All (IsOwed keys.eq Given Read c) acts
        → All (ForHost keys.eq Given Read c) (written acts)
    written-ForHost [] h = tt
    written-ForHost (write_to_tun p ∷ acts) h = (h.0, written-ForHost acts h.1)
    written-ForHost (send_packet_to p k ∷ acts) h = written-ForHost acts h.1
    written-ForHost (no_action l ∷ acts) h = written-ForHost acts h.1
    written-ForHost (connect_to_peer k ∷ acts) h = written-ForHost acts h.1
    written-ForHost (disconnect_from_peer k ∷ acts) h = written-ForHost acts h.1

    abbrev pub IsOwing : Queues K → Type 0
    IsOwing q = All IsOutgoing q.to_iroh × All (ForHost keys.eq Given Read c) q.to_tun

    pub handle_actions-IsOwing :
        (acts : List (Action K)) (q : Queues K)
        → All IsPlain acts
        → IsBounded q
        → All (IsOwed keys.eq Given Read c) acts
        → IsOwing q
        → IsOwing (carried (handle_actions queues q acts))
    handle_actions-IsOwing acts q plain bounded owed (i, t) =
        let (iroh, tun) = handle_actions-Filled acts q plain bounded in
        (
          subst (All IsOutgoing) (sym iroh) (
              All-take _ intermod_channel_capacity (q.to_iroh ++ forwarded acts)
                (All-append _ q.to_iroh (forwarded acts) i (forwarded-IsOutgoing acts owed))),
          subst (All (ForHost keys.eq Given Read c)) (sym tun) (
              All-take _ intermod_channel_capacity (q.to_tun ++ written acts)
                (All-append _ q.to_tun (written acts) t (written-ForHost acts owed))),
        )

    -- What an event of the coordinator leaves of the router and the queues.
    abbrev pub Tracks : VpnCore K → Queues K → Type 0
    Tracks d q =
        SameConfig keys.eq c d × QueuesFor keys.eq Given Read c (view keys.eq d) × IsOwing q

    pub handle_event-Tracks :
        (d : VpnCore K) (q : Queues K) (ev : Event K)
        → IsEvent keys.eq ev
        → IsValid keys.eq d
        → IsSourced keys.eq Given Read c ev
        → All IsPlain (on_link keys.eq d (view keys.eq d) ev).1
        → IsBounded q
        → Tracks d q
        → Returns (λ r. Tracks r.0 (carried r.1)) (handle_event keys.eq queues d q ev)
    unfolding handle_event
    handle_event-Tracks d q ev b v src plain bounded (s, waiting, owing) =
        Returns-bind _ _ (process keys.eq d ev) _ (process-both keys.eq d ev b v)
          λ r ((_, s'), now).
            let (left, owed) =
              on_link-IsOwed keys.eq Given Read c d (view keys.eq d) ev s src waiting in
            (
              same_trans keys.eq c d r.0 s s',
              subst (QueuesFor keys.eq Given Read c)
                  (sym (ap (λ (x : Links K × List (Action K)). x.0) now)) left,
              handle_actions-IsOwing r.1 q
                  (subst (λ (x : Links K × List (Action K)). All IsPlain x.1) (sym now) plain)
                  bounded
                  (subst (λ (x : Links K × List (Action K)). All (IsOwed keys.eq Given Read c) x.1)
                    (sym now) owed)
                  owing,
            )

    -- Everything under way in the node is accounted for.
    pub record IsTraced (n : Node K C) : Type 0 where
      pub config : SameConfig keys.eq c n.core
      pub arrived : All Arrived n.to_coord
      pub queues_for : QueuesFor keys.eq Given Read c (view keys.eq n.core)
      pub owing : IsOwing n.out
