-- ===== src/Network/Genuine.antt =====
-- Every packet that a device is handed was given by the device of the node that owns its source.
use mathlib.Core.List.{Memᴰ}
use peer_to_peer_decentraliz.Base.{
  ℕ, Option, ◌≡◌, refl, sym, subst, List, [], ◌∷◌, ite, some, get, All, returns, panics, Returns,
  Returns-bind, ok, err,
}
use peer_to_peer_decentraliz.Host.{
  Host, Round, inner, take_packet, create, reader_reads, writer_writes, stop_seen, round,
}
use peer_to_peer_decentraliz.Host.Served.{IsRound, IsServed, round-IsServed, beside-IsServed}
use peer_to_peer_decentraliz.Packet.{Bytes, Ipv4Addr, Ipv4Addr-discrete}
use peer_to_peer_decentraliz.Packet.Header.{addr_of}
use peer_to_peer_decentraliz.Vpn.{VpnCore}
use peer_to_peer_decentraliz.Vpn
use peer_to_peer_decentraliz.Vpn.Admission.{MayLeave, MayEnter}
use peer_to_peer_decentraliz.Vpn.Origins.{All-append}
use peer_to_peer_decentraliz.Transport.{KeyOrder}
use peer_to_peer_decentraliz.Node.{
  coord_event, host_packet, tun_packet, manager_action, manager_event, session_packet, final_mtu,
}
use peer_to_peer_decentraliz.Node.Owing.{IsOutgoing}
use peer_to_peer_decentraliz.Transport.Accounts.{follow}
use peer_to_peer_decentraliz.Host.Rounds.{Returns-Wherever}
use peer_to_peer_decentraliz.Network.Sessions.{ordered-letters, event-letters}
use peer_to_peer_decentraliz.Network.Accounts.{Accounted, round-Accounted, started-Keeps}
use peer_to_peer_decentraliz.Network.{
  Letter, Network, place, performed, letters, move, opened, Allowed, Reaches, begins, moves,
}

All-Memᴰ : {A : Type 0} (P : A → Type 0) (x : A) (xs : List A) → Memᴰ x xs → All P xs → P x
All-Memᴰ P x [] m h = elim m [ ]
All-Memᴰ P x (y ∷ ys) (Memᴰ.head e) h = subst P (sym e) h.0
All-Memᴰ P x (y ∷ ys) (Memᴰ.tail m) h = All-Memᴰ P x ys m h.1

module _ {K C : Type 0} (keys : KeyOrder K) (remote_id : C → K) (Given : K → Bytes → Type 0)
    (ip : K → Ipv4Addr) (table : K → List (Ipv4Addr × K)) where
  abbrev pub router : K → VpnCore K
  router k = Vpn.new keys.eq (ip k) (table k) final_mtu

  -- A packet that the host of `j` gave, that may leave there, and whose route leads to `k`.
  abbrev pub Sent : K → Bytes → K → Type 0
  Sent k p j =
      Given j p
      × MayLeave keys.eq (router j) p
      × (get Ipv4Addr-discrete (addr_of p 16) (router j).route_table ≡ some k)

  abbrev pub IsSent : Letter K → Type 0
  IsSent l = Sent l.to l.content l.from

  -- A packet that a node has sent here, and that may enter from that node.
  abbrev pub IsGenuine : K → Bytes → Type 0
  IsGenuine k p = (j : K) × Sent k p j × MayEnter keys.eq (router k) p j

  abbrev pub Served : K → Host K C → Type 0
  Served k = IsServed keys remote_id (Given k) (Sent k) (router k)

  pub record IsAccounted (w : Network K C) : Type 0 where
    pub hosts : (k : K) → Served k (w.hosts k)
    pub sessions : (k : K) → Accounted keys remote_id (w.sessions k) (w.hosts k)
    pub wire : All IsSent w.wire

  Allowed-IsRound :
      (w : Network K C) (k : K) (r : Round K C)
      → All IsSent w.wire
      → Allowed keys remote_id Given w k r
      → IsRound keys remote_id (Given k) (Sent k) r
  Allowed-IsRound w k (inner coord_event) s h = (tt, tt)
  Allowed-IsRound w k (inner (host_packet p)) s h = h
  Allowed-IsRound w k (inner tun_packet) s h = h
  Allowed-IsRound w k (inner manager_action) s h = (tt, tt)
  Allowed-IsRound w k (inner (manager_event e)) s h = (tt, tt)
  Allowed-IsRound w k (inner (session_packet p j)) s h = (h.0, All-Memᴰ IsSent _ w.wire h.1 s)
  Allowed-IsRound w k take_packet s h = tt
  Allowed-IsRound w k (create a) s h = tt
  Allowed-IsRound w k (reader_reads (ok p)) s h = h
  Allowed-IsRound w k (reader_reads (err e)) s h = tt
  Allowed-IsRound w k (writer_writes a) s h = tt
  Allowed-IsRound w k stop_seen s h = tt

  letters-IsSent :
      (k : K) (live : ℕ → Option K) (h : Host K C) (r : Round K C)
      → Accounted keys remote_id live h
      → Served k h
      → All IsSent (letters keys remote_id k live (performed keys remote_id h.node r))
  letters-IsSent k live h (inner coord_event) a s = tt
  letters-IsSent k live h (inner (host_packet p)) a s = tt
  letters-IsSent k live h (inner tun_packet) a s = tt
  letters-IsSent k live h (inner manager_action) a s =
      ordered-letters keys remote_id IsSent
        (IsOutgoing keys remote_id (Given k) (Sent k) (router k)) k live h.node h.node.out.to_iroh a
        (λ p j q. q) s.kept.traced.owing.0
  letters-IsSent k live h (inner (manager_event e)) a s =
      subst (All IsSent) (sym (event-letters keys remote_id k live h.node e)) tt
  letters-IsSent k live h (inner (session_packet p j)) a s = tt
  letters-IsSent k live h take_packet a s = tt
  letters-IsSent k live h (create x) a s = tt
  letters-IsSent k live h (reader_reads x) a s = tt
  letters-IsSent k live h (writer_writes x) a s = tt
  letters-IsSent k live h stop_seen a s = tt

  -- What holds of what one host has, and of what every other has, holds of all.
  pub place-all :
      {A : Type 0} (P : K → A → Type 0) (k : K) (h : A) (hosts : K → A)
      → P k h
      → ((j : K) → P j (hosts j))
      → (j : K) → P j (place keys remote_id k h hosts j)
  place-all P k h hosts s others j = elim (keys.eq k j) as (λ b. P j (ite b h (hosts j))) [
    | yes e ↦ subst (λ i. P i h) e s
    | no _ ↦ others j
  ]

  place-Accounted :
      (k : K) (w : Network K C) (h : Host K C) (live : ℕ → Option K)
      → Accounted keys remote_id live h
      → ((j : K) → Accounted keys remote_id (w.sessions j) (w.hosts j))
      → (j : K)
      → Accounted keys remote_id
          (place keys remote_id k live w.sessions j)
          (place keys remote_id k h w.hosts j)
  place-Accounted k w h live s others j =
      elim (keys.eq k j)
        as (λ b. Accounted keys remote_id (ite b live (w.sessions j)) (ite b h (w.hosts j))) [
          | yes e ↦ s
          | no _ ↦ others j
        ]

  move-IsAccounted :
      (w : Network K C) (k : K) (r : Round K C)
      → Allowed keys remote_id Given w k r
      → IsAccounted w
      → Returns IsAccounted (move keys remote_id w k r)
  unfolding move
  move-IsAccounted w k r a s =
      let h = w.hosts k in
      let effects = performed keys remote_id h.node r in
      let live = w.sessions k in
      Returns-bind _ _ (round keys remote_id h r) _
        (Returns-Wherever _ _ (round keys remote_id h r)
          (round-IsServed keys remote_id (Given k) (Sent k) (router k) h r
            (Allowed-IsRound w k r s.wire a) (s.hosts k))
          (round-Accounted keys remote_id live h r (s.sessions k)))
        λ next (served, accounted). record {
          hosts = place-all Served k next w.hosts served s.hosts;
          sessions =
              place-Accounted k w next (follow keys remote_id live effects) accounted s.sessions;
          wire =
              All-append IsSent (letters keys remote_id k live effects) w.wire
                (letters-IsSent k live h r (s.sessions k) (s.hosts k)) s.wire;
        }

  pub Reaches-IsAccounted :
      (w : Network K C) → Reaches keys remote_id Given ip table w → IsAccounted w
  unfolding opened
  Reaches-IsAccounted w begins = record {
    hosts = λ k. beside-IsServed keys remote_id (Given k) (Sent k) k (ip k) (table k);
    sessions = λ k. started-Keeps keys remote_id k (ip k) (table k);
    wire = tt;
  }
  Reaches-IsAccounted next (moves {w} reached k r a e) =
      subst (Returns IsAccounted) e (move-IsAccounted w k r a (Reaches-IsAccounted w reached))

  -- Let what each device gives have a property of that node's packets. In every network that rounds
  -- reach from started nodes, every packet that a session has sent to its peer, because the manager
  -- put it on the session's channel, has the property of the session's node, where it may leave, so
  -- that its source is the address of that node, and its route there leads to that peer. And each
  -- packet that the device of `k` was handed, or that is on its way there, is such a packet for `k` of
  -- some node `j`, and may enter at `k` from `j`, so that `k` is its destination and holds `j` for the
  -- owner of its source.
  pub Reaches-IsGenuine :
      (w : Network K C)
      → Reaches keys remote_id Given ip table w
      → All IsSent w.wire
        × ((k : K)
            → All (IsGenuine k) (w.hosts k).written × All (IsGenuine k) (w.hosts k).node.out.to_tun)
  Reaches-IsGenuine w reached =
      let s = Reaches-IsAccounted w reached in
      (s.wire, λ k. ((s.hosts k).written, (s.hosts k).kept.traced.owing.1))

  -- In such a network no task panics: every round that is allowed leads on to a network of the kind.
  pub move-Reaches :
      (w : Network K C) (k : K) (r : Round K C)
      → Reaches keys remote_id Given ip table w
      → Allowed keys remote_id Given w k r
      → Returns (Reaches keys remote_id Given ip table) (move keys remote_id w k r)
  move-Reaches w k r reached a =
      elim (move keys remote_id w k r)
          as (λ m.
            move keys remote_id w k r ≡ m
            → Returns IsAccounted m
            → Returns (Reaches keys remote_id Given ip table) m) [
              | returns next ↦ λ e _. moves reached k r a e
              | panics ↦ λ _ h. h
            ]
        refl (move-IsAccounted w k r a (Reaches-IsAccounted w reached))
