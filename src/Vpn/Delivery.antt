-- ===== src/Vpn/Delivery.antt =====
-- What a peer is sent over a history of events, against what the host gave the router for it.
use mathlib.Core.List.{Sublist, sublist-append_left, append-nil, append_assoc}
use mathlib.Core.List.Sublist
use mathlib.Core.Path.{ap₂}
use peer_to_peer_decentraliz.Vpn.Verdict.{send_verdict_same}
use peer_to_peer_decentraliz.Base.{
  ℕ, zero, suc, ◌≡◌, refl, sym, ap, ite, Option, some, none, List, [], ◌∷◌, ◌++◌, map, arith, drop,
  ok, err, All, Returns, Returns-bind, ◌⊎◌, inl, inr, Result-cases, subst,
}
use peer_to_peer_decentraliz.Packet.{Bytes}
use peer_to_peer_decentraliz.Vpn.Queue.{keep_last}
use peer_to_peer_decentraliz.Vpn.Invariant.{IsValid, IsEvent, SameConfig}
use peer_to_peer_decentraliz.Vpn.Refinement.{
  Link, up, down, Links, view, next_hop, on_link, process-both,
}
use peer_to_peer_decentraliz.Vpn.Run.{run}
use peer_to_peer_decentraliz.Vpn.{
  VpnCore, Event, peer_connected, peer_disconnected, packet_from_tun, packet_from_iroh, Action,
  max_packets_in_queue, send_packet_to, process,
}

abbrev pub waiting : Option Link → List Bytes
waiting none = []
waiting (some up) = []
waiting (some (down queue)) = queue

drop-sublist : (m : ℕ) (ys : List Bytes) → Sublist (drop m ys) ys
drop-sublist zero ys = Sublist.refl ys
drop-sublist (suc m) [] = Sublist.refl []
drop-sublist (suc m) (y ∷ ys) = Sublist.cons y (drop-sublist m ys)

sublist_of_eq : {xs ys : List Bytes} → xs ≡ ys → Sublist xs ys
sublist_of_eq {ys} e = rw e (Sublist.refl ys)

by_prefix : {xs ys : List Bytes} (zs : List Bytes) → xs ≡ ys → Sublist xs (ys ++ zs)
by_prefix {ys} zs e = rw e (sublist-append_left ys zs)

by_keep_last : (n : ℕ) {xs ys : List Bytes} → xs ≡ keep_last n ys → Sublist xs ys
by_keep_last n {ys} e = rw e (drop-sublist _ ys)

pub Link-cases :
    (o : Option Link)
    → (o ≡ none) ⊎ ((o ≡ some up) ⊎ ((queue : List Bytes) × (o ≡ some (down queue))))
Link-cases none = inl refl
Link-cases (some up) = inr (inl refl)
Link-cases (some (down queue)) = inr (inr (queue, refl))

module _ {K : Type 0} (key_eq : Discrete K) where
  -- The packets that a list of actions sends to the peer `k`, in order.
  abbrev pub sent_to : K → List (Action K) → List Bytes
  sent_to k [] = []
  sent_to k (send_packet_to p j ∷ acts) = ite (key_eq j k) (p ∷ sent_to k acts) (sent_to k acts)
  sent_to k (_ ∷ acts) = sent_to k acts

  -- The packet of an event, if it is one of the host's that is admitted and routed to `k`.
  abbrev pub accepted : VpnCore K → K → Event K → List Bytes
  accepted c k (packet_from_tun p) = elim (next_hop key_eq c p) [
    | ok j ↦ ite (key_eq j k) (p ∷ []) []
    | err _ ↦ []
  ]
  accepted c k _ = []

  abbrev pub all_accepted : VpnCore K → K → List (Event K) → List Bytes
  all_accepted c k [] = []
  all_accepted c k (e ∷ es) = accepted c k e ++ all_accepted c k es

  sent_to-append :
      (k : K) (xs ys : List (Action K)) → sent_to k (xs ++ ys) ≡ sent_to k xs ++ sent_to k ys
  sent_to-append k [] ys = refl
  sent_to-append k (x ∷ xs) ys = ground (arith, sent_to-append k xs ys)

  sent_to-flush_self : (k : K) (ps : List Bytes) → sent_to k (map (λ p. send_packet_to p k) ps) ≡ ps
  sent_to-flush_self k [] = refl
  sent_to-flush_self k (p ∷ ps) = ground (arith, sent_to-flush_self k ps)

  sent_to-flush_ne :
      (j k : K) (ps : List Bytes) → ¬ (j ≡ k) → sent_to k (map (λ p. send_packet_to p j) ps) ≡ []
  sent_to-flush_ne j k [] h = refl
  sent_to-flush_ne j k (p ∷ ps) h = ground (arith, sent_to-flush_ne j k ps h)

  abbrev Flows : VpnCore K → Links K → K → Event K → Type 0
  Flows c v k e =
      let r = on_link key_eq c v e in
      Sublist (sent_to k r.1 ++ waiting (r.0 k)) (waiting (v k) ++ accepted c k e)

  on_link-connected : (c : VpnCore K) (v : Links K) (j k : K) → Flows c v k (peer_connected j)
  on_link-connected c v j k = sublist_of_eq (elim (Link-cases (v j)) [
    | inl e ↦ ground (arith, append-nil (waiting (v k)))
    | inr (inl e) ↦ ground (arith, append-nil (waiting (v k)))
    | inr (inr (queue, e)) ↦ elim (key_eq j k) [
      | yes same ↦ ground (arith, same, append-nil queue, sent_to-flush_self k queue)
      | no h ↦ ground (arith, append-nil (waiting (v k)), sent_to-flush_ne j k queue h)
    ]
  ])

  on_link-disconnected : (c : VpnCore K) (v : Links K) (j k : K) → Flows c v k (peer_disconnected j)
  on_link-disconnected c v j k = sublist_of_eq (elim (Link-cases (v j)) [
    | inl e ↦ ground (arith, append-nil (waiting (v k)))
    | inr (inl e) ↦ ground (arith, append-nil (waiting (v k)), append-nil {A = Bytes} [])
    | inr (inr (queue, e)) ↦ ground (arith, append-nil (waiting (v k)))
  ])

  on_link-tun : (c : VpnCore K) (v : Links K) (p : Bytes) (k : K) → Flows c v k (packet_from_tun p)
  on_link-tun c v p k = elim (Result-cases (next_hop key_eq c p)) [
    | inr (x, e) ↦ sublist_of_eq (ground (arith, append-nil (waiting (v k))))
    | inl (j, e) ↦ elim (Link-cases (v j)) [
      | inl f ↦ by_prefix (accepted c k (packet_from_tun p)) (ground arith)
      | inr (inl f) ↦ sublist_of_eq (ground (arith, append-nil (waiting (v k))))
      | inr (inr (queue, f)) ↦ elim (key_eq j k) [
        | yes same ↦ by_keep_last max_packets_in_queue (ground (arith, same, ap v same))
        | no h ↦ by_prefix (accepted c k (packet_from_tun p)) (ground arith)
      ]
    ]
  ]

  on_link-Sublist : (c : VpnCore K) (v : Links K) (k : K) (e : Event K) → Flows c v k e
  on_link-Sublist c v k (peer_connected j) = on_link-connected c v j k
  on_link-Sublist c v k (peer_disconnected j) = on_link-disconnected c v j k
  on_link-Sublist c v k (packet_from_tun p) = on_link-tun c v p k
  on_link-Sublist c v k (packet_from_iroh p from) =
      sublist_of_eq (ground (arith, append-nil (waiting (v k))))

  -- The routes do not change, so neither does the hop of a packet.
  accepted_same :
      (c d : VpnCore K) (k : K) (e : Event K)
      → SameConfig key_eq c d
      → accepted d k e ≡ accepted c k e
  accepted_same c d k (packet_from_tun p) s =
      ground (arith, send_verdict_same key_eq c d p s.same_size s.same_addr s.same_routes)
  accepted_same c d k _ s = refl

  all_accepted_same :
      (c d : VpnCore K) (k : K) (es : List (Event K))
      → SameConfig key_eq c d
      → all_accepted d k es ≡ all_accepted c k es
  all_accepted_same c d k [] s = refl
  all_accepted_same c d k (e ∷ es) s =
      ap₂ ◌++◌ (accepted_same c d k e s) (all_accepted_same c d k es s)

  -- Two stretches of a flow, one after the other.
  flow_append :
      (s₁ s₂ w₀ w₁ w₂ a₁ a₂ : List Bytes)
      → Sublist (s₁ ++ w₁) (w₀ ++ a₁)
      → Sublist (s₂ ++ w₂) (w₁ ++ a₂)
      → Sublist ((s₁ ++ s₂) ++ w₂) (w₀ ++ (a₁ ++ a₂))
  flow_append s₁ s₂ w₀ w₁ w₂ a₁ a₂ first second =
      let outer = Sublist.append (Sublist.refl s₁) second in
      let inner = Sublist.append first (Sublist.refl a₂) in
      rw (append_assoc s₁ s₂ w₂, sym (append_assoc w₀ a₁ a₂))
        (Sublist.trans outer (rw (append_assoc s₁ w₁ a₂) at inner))

  -- Over any history from a valid router, what a peer has been sent, followed by what still waits
  -- for it, is a part, in the same order, of what waited at first, followed by the packets that
  -- were admitted for it: nothing is made up, sent twice, sent to another peer or reordered.
  pub run-Sublist :
      (c : VpnCore K) (es : List (Event K)) (k : K)
      → All (IsEvent key_eq) es
      → IsValid key_eq c
      → Returns
          (λ r.
            Sublist
              (sent_to k r.1 ++ waiting (view key_eq r.0 k))
              (waiting (view key_eq c k) ++ all_accepted c k es))
          (run key_eq c es)
  unfolding run
  run-Sublist c [] k b v = sublist_of_eq (ground (arith, append-nil (waiting (view key_eq c k))))
  run-Sublist c (e ∷ es) k b v =
      Returns-bind _ _ (process key_eq c e) _ (process-both key_eq c e b.0 v) λ r ((w, s), now).
        Returns-bind _ _ (run key_eq r.0 es) _ (run-Sublist r.0 es k b.1 w) λ r' later.
          let first =
            subst
              (λ (q : Links K × List (Action K)).
                Sublist (sent_to k q.1 ++ waiting (q.0 k))
                  (waiting (view key_eq c k) ++ accepted c k e))
              (sym now) (on_link-Sublist c (view key_eq c) k e) in
          rw (sent_to-append k r.1 r'.1, sym (all_accepted_same c r.0 k es s))
            (flow_append (sent_to k r.1) (sent_to k r'.1) _ _ _ _ _ first later)
