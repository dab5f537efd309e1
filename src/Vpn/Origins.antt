-- ===== src/Vpn/Origins.antt =====
-- Where the packets come from that a router sends and writes.
use peer_to_peer_decentraliz.Base.{
  ℕ, zero, suc, true, is_some, Option-cases, ◌≡◌, ap, subst, ◌∙◌, some, List, [], ◌∷◌, ◌++◌, map,
  drop, get, ok, arith, All, ite, Result-cases, inl, inr,
}
use peer_to_peer_decentraliz.Packet.{Bytes, Ipv4Addr, Ipv4Addr-discrete}
use peer_to_peer_decentraliz.Packet.Header.{addr_of}
use peer_to_peer_decentraliz.Vpn.Verdict.{send_verdict, recv_verdict}
use peer_to_peer_decentraliz.Vpn.Invariant.{SameConfig}
use peer_to_peer_decentraliz.Vpn.Admission.{
  IsWellFormed, MayLeave, MayEnter, send_verdict-MayLeave, recv_verdict-MayEnter,
}
use peer_to_peer_decentraliz.Vpn.Refinement.{
  Link, up, down, Links, next_hop, on_link, update, buffer_log,
}
use peer_to_peer_decentraliz.Vpn.Delivery.{Link-cases}
use peer_to_peer_decentraliz.Vpn.{
  VpnCore, Event, peer_connected, peer_disconnected, packet_from_tun, packet_from_iroh, Action,
  send_packet_to, write_to_tun, check_send,
}

pub All-drop : {A : Type 0} (P : A → Type 0) (n : ℕ) (xs : List A) → All P xs → All P (drop n xs)
All-drop P zero xs h = h
All-drop P (suc n) [] h = h
All-drop P (suc n) (x ∷ xs) h = All-drop P n xs h.1

pub All-append :
    {A : Type 0} (P : A → Type 0) (xs ys : List A) → All P xs → All P ys → All P (xs ++ ys)
All-append P [] ys h k = k
All-append P (x ∷ xs) ys h k = (h.0, All-append P xs ys h.1 k)

-- `Given` is any property of packets of the host, `Read` any property of packets with the peer
-- whose session read them.
module _ {K : Type 0} (key_eq : Discrete K) (Given : Bytes → Type 0) (Read : Bytes → K → Type 0)
    (c : VpnCore K) where
  -- A packet for the peer `k`: the host gave it, it may leave, and its route leads to that peer.
  abbrev pub ForPeer : Bytes → K → Type 0
  ForPeer p k =
      Given p × MayLeave key_eq c p × (get Ipv4Addr-discrete (addr_of p 16) c.route_table ≡ some k)

  -- A packet for the host: a session read it, and it may enter from that session's peer.
  abbrev pub ForHost : Bytes → Type 0
  ForHost p = (k : K) × Read p k × MayEnter key_eq c p k

  abbrev pub IsSourced : Event K → Type 0
  IsSourced (packet_from_tun p) = Given p
  IsSourced (packet_from_iroh p k) = Read p k
  IsSourced _ = Unit {0}

  abbrev pub IsOwed : Action K → Type 0
  IsOwed (send_packet_to p k) = ForPeer p k
  IsOwed (write_to_tun p) = ForHost p
  IsOwed _ = Unit {0}

  -- What waits for a peer is for that peer.
  abbrev pub QueuesFor : Links K → Type 0
  QueuesFor v =
      (k : K) (queue : List Bytes) → v k ≡ some (down queue) → All (λ p. ForPeer p k) queue

  send_verdict-addr :
      (d : VpnCore K) (p : Bytes) (ip : Ipv4Addr)
      → send_verdict key_eq d p ≡ ok ip
      → ip ≡ addr_of p 16
  unfolding send_verdict check_send
  send_verdict-addr d p ip e = ground arith

  pub MayLeave-SameConfig :
      (d : VpnCore K) (p : Bytes)
      → SameConfig key_eq c d
      → MayLeave key_eq d p
      → MayLeave key_eq c p
  MayLeave-SameConfig d p s m = record {
    formed = subst (λ n. IsWellFormed n p) s.same_size m.formed;
    alive = m.alive;
    own_source = m.own_source ∙ s.same_addr;
    routed =
        subst (λ t. is_some (get Ipv4Addr-discrete (addr_of p 16) t) ≡ true) s.same_routes m.routed;
  }

  MayEnter-SameConfig :
      (d : VpnCore K) (p : Bytes) (k : K)
      → SameConfig key_eq c d
      → MayEnter key_eq d p k
      → MayEnter key_eq c p k
  MayEnter-SameConfig d p k s m = record {
    formed = subst (λ n. IsWellFormed n p) s.same_size m.formed;
    own_dest = m.own_dest ∙ s.same_addr;
    owned = subst (λ t. get Ipv4Addr-discrete (addr_of p 12) t ≡ some k) s.same_routes m.owned;
  }

  next_hop-ForPeer :
      (d : VpnCore K) (p : Bytes) (k : K)
      → SameConfig key_eq c d
      → Given p
      → next_hop key_eq d p ≡ ok k
      → ForPeer p k
  next_hop-ForPeer d p k s g = elim (Result-cases (send_verdict key_eq d p)) [
    | inr (x, e) ↦ rw (e, next_hop) λ h. cc
    | inl (ip, e) ↦ elim (Option-cases (get Ipv4Addr-discrete ip d.route_table)) [
      | inl none_there ↦ rw (e, none_there, next_hop) λ h. cc
      | inr (j, found) ↦
          rw (e, found, next_hop)
            λ h.
              let to = send_verdict-addr d p ip e in
              let same : j ≡ k = cc in
              (
                g,
                MayLeave-SameConfig d p s (
                    send_verdict-MayLeave key_eq d p
                      (subst (λ i. send_verdict key_eq d p ≡ ok i) to e)),
                subst (λ i. get Ipv4Addr-discrete i c.route_table ≡ some k) to
                    (subst (λ t. get Ipv4Addr-discrete ip t ≡ some k) s.same_routes
                      (found ∙ ap some same)),
              )
    ]
  ]

  flush-IsOwed :
      (k : K) (ps : List Bytes)
      → All (λ p. ForPeer p k) ps
      → All IsOwed (map (λ p. send_packet_to p k) ps)
  flush-IsOwed k [] h = tt
  flush-IsOwed k (p ∷ ps) h = (h.0, flush-IsOwed k ps h.1)

  own_queue :
      (k : K) (ps queue : List Bytes)
      → All (λ p. ForPeer p k) ps
      → down ps ≡ down queue
      → All (λ p. ForPeer p k) queue
  own_queue k ps queue h e = let same : ps ≡ queue = cc in subst (All (λ p. ForPeer p k)) same h

  update-QueuesFor :
      (v : Links K) (k : K) (l : Link)
      → QueuesFor v
      → ((queue : List Bytes) → l ≡ down queue → All (λ p. ForPeer p k) queue)
      → QueuesFor (update key_eq k l v)
  update-QueuesFor v k l h own j queue =
      elim (key_eq k j)
        as (λ b. ite b (some l) (v j) ≡ some (down queue) → All (λ p. ForPeer p j) queue) [
          | yes e ↦ λ w. subst (λ i. All (λ p. ForPeer p i) queue) e (own queue cc)
          | no _ ↦ λ w. h j queue w
        ]

  log-IsOwed : (queue : List Bytes) → All IsOwed (buffer_log queue)
  log-IsOwed queue = ground arith

  -- One event, over the links: what waits stays what is owed to its peer, and every action is owed.
  pub on_link-IsOwed :
      (d : VpnCore K) (v : Links K) (e : Event K)
      → SameConfig key_eq c d
      → IsSourced e
      → QueuesFor v
      → QueuesFor (on_link key_eq d v e).0 × All IsOwed (on_link key_eq d v e).1
  on_link-IsOwed d v (peer_connected k) s src q = elim (Link-cases (v k)) [
    | inl e ↦ rw (e, on_link) (q, (tt, tt))
    | inr (inl e) ↦ rw (e, on_link) (q, (tt, tt))
    | inr (inr (queue, e)) ↦
        rw (e, on_link) (update-QueuesFor v k up q (λ l h. cc), flush-IsOwed k queue (q k queue e))
  ]
  on_link-IsOwed d v (peer_disconnected k) s src q = elim (Link-cases (v k)) [
    | inl e ↦ rw (e, on_link) (q, (tt, tt))
    | inr (inl e) ↦
        rw (e, on_link) (update-QueuesFor v k (down []) q (λ l h. own_queue k [] l tt h), tt)
    | inr (inr (queue, e)) ↦ rw (e, on_link) (q, (tt, tt))
  ]
  on_link-IsOwed d v (packet_from_tun p) s src q = elim (Result-cases (next_hop key_eq d p)) [
    | inr (x, e) ↦ rw (e, on_link) (q, (tt, tt))
    | inl (k, e) ↦
        let owed = next_hop-ForPeer d p k s src e in
        elim (Link-cases (v k)) [
          | inl l ↦ rw (e, l, on_link) ((q, (tt, tt)))
          | inr (inl l) ↦ rw (e, l, on_link) ((q, (owed, tt)))
          | inr (inr (queue, l)) ↦
              rw (e, l, on_link)
                ((
                  update-QueuesFor v k _ q (λ l' h.
                      own_queue k _ l'
                        (All-drop _ _ (queue ++ (p ∷ []))
                          (All-append _ queue (p ∷ []) (q k queue l) (owed, tt)))
                        h),
                  log-IsOwed queue,
                ))
        ]
  ]
  on_link-IsOwed d v (packet_from_iroh p from) s src q =
      elim (Result-cases (recv_verdict key_eq d p from)) [
        | inl (_, e) ↦
            rw (e, on_link)
              (
                q,
                (
                  (
                    from,
                    src,
                    MayEnter-SameConfig d p from s (recv_verdict-MayEnter key_eq d p from e),
                  ),
                  tt,
                ),
              )
        | inr (x, e) ↦ rw (e, on_link) (q, (tt, tt))
      ]
