-- ===== src/Network/Runs.antt =====
-- The rounds of one host, as moves of the network.
use mathlib.Core.List.{Memᴰ}
use peer_to_peer_decentraliz.Base.{
  ℕ, some, ◌≡◌, ◌≢◌, refl, sym, ap, subst, ◌∙◌, List, [], ◌∷◌, ◌++◌, All, ite, returns, Returns,
  ◌>>=◌, inl, inr, ok, err,
}
use peer_to_peer_decentraliz.Packet.{Bytes, Ipv4Addr}
use peer_to_peer_decentraliz.Transport.{connected, state_of, KeyOrder, send_packet_to}
use peer_to_peer_decentraliz.Transport.Accounts.{follow}
use peer_to_peer_decentraliz.Network.Sessions.{on_send-letter}
use peer_to_peer_decentraliz.Network.Genuine.{Reaches-IsAccounted}
use peer_to_peer_decentraliz.Network.{
  performed, ordered, Letter, Network, place, letters, move, Allowed, Reaches, moves,
}
use peer_to_peer_decentraliz.Node.{
  coord_event, host_packet, tun_packet, manager_action, manager_event, session_packet, manager_turn,
  turn,
}
use peer_to_peer_decentraliz.Host.{
  Host, Round, inner, take_packet, create, reader_reads, writer_writes, stop_seen, round, rounds,
}
use peer_to_peer_decentraliz.Host.Crossing.{Checked-cases}

Memᴰ-append : {A : Type 0} (xs ys : List A) (x : A) → Memᴰ x ys → Memᴰ x (xs ++ ys)
Memᴰ-append [] ys x m = m
Memᴰ-append (z ∷ xs) ys x m = Memᴰ.tail (Memᴰ-append xs ys x m)

module _ {K C : Type 0} (keys : KeyOrder K) (remote_id : C → K) (Given : K → Bytes → Type 0)
    (ip : K → Ipv4Addr) (table : K → List (Ipv4Addr × K)) where
  -- What `k` alone has done leaves the other hosts, and every letter on the wire.
  pub record IsAfter (w : Network K C) (k : K) (next : Network K C) : Type 0 where
    pub reached : Reaches keys remote_id Given ip table next
    pub others : (j : K) → k ≢ j → next.hosts j ≡ w.hosts j
    pub letters : (l : Letter K) → Memᴰ l w.wire → Memᴰ l next.wire

  place-here : (k : K) (h : Host K C) (hosts : K → Host K C) → place keys remote_id k h hosts k ≡ h
  place-here k h hosts = elim (keys.eq k k) as (λ b. ite b h (hosts k) ≡ h) [
    | yes _ ↦ refl
    | no n ↦ absurd (n refl)
  ]

  place-there :
      (k j : K) (h : Host K C) (hosts : K → Host K C)
      → k ≢ j
      → place keys remote_id k h hosts j ≡ hosts j
  place-there k j h hosts d = elim (keys.eq k j) as (λ b. ite b h (hosts j) ≡ hosts j) [
    | yes e ↦ absurd (d e)
    | no _ ↦ refl
  ]

  Allowed-later :
      (w next : Network K C) (k : K) (r : Round K C)
      → ((l : Letter K) → Memᴰ l w.wire → Memᴰ l next.wire)
      → Allowed keys remote_id Given w k r
      → Allowed keys remote_id Given next k r
  Allowed-later w next k (inner coord_event) m a = tt
  Allowed-later w next k (inner (host_packet p)) m a = a
  Allowed-later w next k (inner tun_packet) m a = a
  Allowed-later w next k (inner manager_action) m a = tt
  Allowed-later w next k (inner (manager_event e)) m a = tt
  Allowed-later w next k (inner (session_packet p j)) m a = (a.0, m _ a.1)
  Allowed-later w next k take_packet m a = tt
  Allowed-later w next k (create a') m a = tt
  Allowed-later w next k (reader_reads (ok p)) m a = a
  Allowed-later w next k (reader_reads (err e)) m a = tt
  Allowed-later w next k (writer_writes a') m a = tt
  Allowed-later w next k stop_seen m a = tt

  All-later :
      (w next : Network K C) (k : K) (rs : List (Round K C))
      → ((l : Letter K) → Memᴰ l w.wire → Memᴰ l next.wire)
      → All (Allowed keys remote_id Given w k) rs
      → All (Allowed keys remote_id Given next k) rs
  All-later w next k [] m a = tt
  All-later w next k (r ∷ rs) m a = (Allowed-later w next k r m a.0, All-later w next k rs m a.1)

  abbrev pub moved : Network K C → K → Round K C → Host K C → Network K C
  moved w k r g = record {
    hosts = place keys remote_id k g w.hosts;
    sessions =
        place keys remote_id k
          (follow keys remote_id (w.sessions k) (performed keys remote_id (w.hosts k).node r))
          w.sessions;
    wire =
        letters keys remote_id k (w.sessions k) (performed keys remote_id (w.hosts k).node r)
        ++ w.wire;
  }

  moved-IsAfter :
      (w : Network K C) (k : K) (r : Round K C) (g : Host K C)
      → Reaches keys remote_id Given ip table w
      → Allowed keys remote_id Given w k r
      → round keys remote_id (w.hosts k) r ≡ returns g
      → IsAfter w k (moved w k r g)
  unfolding move
  moved-IsAfter w k r g reached a e = record {
    reached = moves reached k r a (ap (λ m. m >>= λ h. returns (moved w k r h)) e);
    others = λ j d. place-there k j g w.hosts d;
    letters = λ l m.
        Memᴰ-append
          (letters keys remote_id k (w.sessions k) (performed keys remote_id (w.hosts k).node r))
          w.wire l m;
  }

  -- Rounds that are allowed now and that return lead to a network that is reached.
  pub rounds-Reaches :
      (P : Host K C → Type 0) (w : Network K C) (k : K) (rs : List (Round K C))
      → Reaches keys remote_id Given ip table w
      → All (Allowed keys remote_id Given w k) rs
      → Returns P (rounds keys remote_id (w.hosts k) rs)
      → (next : Network K C) × IsAfter w k next × P (next.hosts k)
  unfolding rounds
  rounds-Reaches P w k [] reached a p =
      (w, record { reached = reached; others = λ j d. refl; letters = λ l m. m }, p)
  rounds-Reaches P w k (r ∷ rs) reached a p =
      elim (Checked-cases (round keys remote_id (w.hosts k) r)) [
        | inl (g, e) ↦
            let now = moved-IsAfter w k r g reached a.0 e in
            let rest : Returns P (rounds keys remote_id g rs) =
              subst (λ m. Returns P (m >>= λ h. rounds keys remote_id h rs)) e p in
            let (next, later, q) =
              rounds-Reaches P (moved w k r g) k rs now.reached
                (All-later w (moved w k r g) k rs now.letters a.1)
                (subst (λ h. Returns P (rounds keys remote_id h rs)) (sym (place-here k g w.hosts))
                  rest) in
            (
              next,
              record {
                reached = later.reached;
                others = λ j d. later.others j d ∙ now.others j d;
                letters = λ l m. later.letters l (now.letters l m);
              },
              q,
            )
        | inr e ↦ absurd (subst (λ m. Returns P (m >>= λ h. rounds keys remote_id h rs)) e p)
      ]

  -- The manager takes a packet for a peer that it is connected to, and the session sends it.
  pub manager_action-posts :
      (w : Network K C) (a b : K) (p : Bytes) (task channel : ℕ) (conn : C)
      → Reaches keys remote_id Given ip table w
      → (w.hosts a).node.out.to_iroh ≡ send_packet_to p b ∷ []
      → state_of keys remote_id (w.hosts a).node.iroh b ≡ some (connected task conn channel)
      → (next : Network K C) × IsAfter w a next
        × Memᴰ (record { from = a; to = b; content = p }) next.wire
        × (next.hosts a ≡ record (w.hosts a) {
          node = manager_turn keys remote_id (w.hosts a).node (send_packet_to p b ∷ []);
        })
  unfolding round turn
  manager_action-posts w a b p task channel conn reached e held =
      let g : Host K C = record (w.hosts a) {
        node = manager_turn keys remote_id (w.hosts a).node (w.hosts a).node.out.to_iroh;
      } in
      let sent =
        ap
          (λ acts.
            letters keys remote_id a (w.sessions a) (ordered keys remote_id (w.hosts a).node acts))
          e
        ∙ on_send-letter keys remote_id a b (w.sessions a) (w.hosts a).node.iroh p task channel conn
            ((Reaches-IsAccounted keys remote_id Given ip table w reached).sessions a) held in
      (
        moved w a (inner manager_action) g,
        moved-IsAfter w a (inner manager_action) g reached tt refl,
        subst (λ ls. Memᴰ (record { from = a; to = b; content = p }) (ls ++ w.wire)) (sym sent)
            (Memᴰ.head refl),
        place-here a g w.hosts
            ∙ ap
                (λ acts. record (w.hosts a) {
                  node = manager_turn keys remote_id (w.hosts a).node acts;
                })
                e,
      )
