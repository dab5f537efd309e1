-- ===== src/Vpn/Offline.antt =====
-- Packets for a peer that is not connected: they wait, and go out when it connects.
use mathlib.Core.List.{append_assoc, append-nil}
use peer_to_peer_decentraliz.Base.{
  ◌≤◌, ◌≡◌, ap, ◌∙◌, Option-cases, get, inl, inr, some, List, [], ◌∷◌, ◌++◌, map, arith, length, ok,
  All, Returns, Returns-bind, Returns-mono, ◌>>=◌,
}
use peer_to_peer_decentraliz.Packet.{Bytes}
use peer_to_peer_decentraliz.Packet.Header.{IsBytes}
use peer_to_peer_decentraliz.Vpn.Queue.{
  keep_last, length-keep_last, keep_last_short, keep_last-append,
}
use peer_to_peer_decentraliz.Vpn.Verdict.{send_verdict_same}
use peer_to_peer_decentraliz.Vpn.Invariant.{IsValid, SameConfig}
use peer_to_peer_decentraliz.Vpn.Refinement.{
  Link, down, up, Links, view, next_hop, on_link, update, process-both, process-on_link,
}
use peer_to_peer_decentraliz.Vpn.Run.{run}
use peer_to_peer_decentraliz.Vpn.{
  VpnCore, peer_connected, packet_from_tun, Action, send_packet_to, max_packets_in_queue, process,
}

module _ {K : Type 0} (key_eq : Discrete K) where
  next_hop_same :
      (c d : VpnCore K) (p : Bytes)
      → SameConfig key_eq c d
      → next_hop key_eq d p ≡ next_hop key_eq c p
  next_hop_same c d p s =
      ground (arith, send_verdict_same key_eq c d p s.same_size s.same_addr s.same_routes)

  abbrev pub Hops : VpnCore K → K → List Bytes → Type 0
  Hops c k = All λ p. IsBytes p × (next_hop key_eq c p ≡ ok k)

  Hops-same :
      (c d : VpnCore K) (k : K) (ps : List Bytes)
      → SameConfig key_eq c d
      → Hops c k ps
      → Hops d k ps
  Hops-same c d k [] s h = tt
  Hops-same c d k (p ∷ ps) s h = ((h.0.0, next_hop_same c d p s ∙ h.0.1), Hops-same c d k ps s h.1)

  on_link-queues :
      (c : VpnCore K) (v : Links K) (k : K) (queue : List Bytes) (p : Bytes)
      → next_hop key_eq c p ≡ ok k
      → v k ≡ some (down queue)
      → (on_link key_eq c v (packet_from_tun p)).0 k
        ≡ some (down (keep_last max_packets_in_queue (queue ++ (p ∷ []))))
  on_link-queues c v k queue p e h = ground arith

  on_link-connects :
      (c : VpnCore K) (v : Links K) (k : K) (queue : List Bytes)
      → v k ≡ some (down queue)
      → ◌≡◌ {A = Links K × List (Action K)}
          (on_link key_eq c v (peer_connected k))
          (update key_eq k up v, map (λ p. send_packet_to p k) queue)
  on_link-connects c v k queue h = ground arith

  update_self : (k : K) (l : Link) (v : Links K) → update key_eq k l v k ≡ some l
  update_self k l v = ground arith

  down-bounded :
      (c : VpnCore K) (k : K) (queue : List Bytes)
      → IsValid key_eq c
      → view key_eq c k ≡ some (down queue)
      → length queue ≤ max_packets_in_queue
  down-bounded c k queue v h = elim (Option-cases (get key_eq k c.peers)) [
    | inl e ↦ ground arith
    | inr (p, e) ↦ ground (arith, v.queued k p e)
  ]

  -- While its peer is not connected, each admitted packet joins the queue.
  run-queues :
      (c : VpnCore K) (k : K) (queue ps : List Bytes)
      → Hops c k ps
      → IsValid key_eq c
      → view key_eq c k ≡ some (down queue)
      → length queue ≤ max_packets_in_queue
      → Returns
          (λ r.
            IsValid key_eq r.0
            × (view key_eq r.0 k ≡ some (down (keep_last max_packets_in_queue (queue ++ ps)))))
          (run key_eq c (map packet_from_tun ps))
  unfolding run
  run-queues c k queue [] b v h short =
      (v, rw (append-nil queue, keep_last_short max_packets_in_queue queue short) h)
  run-queues c k queue (p ∷ ps) b v h short =
      Returns-bind _ _ (process key_eq c (packet_from_tun p)) _
        (process-both key_eq c (packet_from_tun p) b.0.0 v)
        λ r ((w, s), now).
          Returns-bind _ _ (run key_eq r.0 (map packet_from_tun ps)) _
            (run-queues r.0 k (keep_last max_packets_in_queue (queue ++ (p ∷ []))) ps
              (Hops-same c r.0 k ps s b.1) w
              (ap (λ (q : Links K × List (Action K)). q.0 k) now
                ∙ on_link-queues c (view key_eq c) k queue p b.0.1 h)
              (length-keep_last max_packets_in_queue (queue ++ (p ∷ []))))
            λ r' rest. (
              rest.0,
              rest.1
                  ∙ ap (λ q. some (down q))
                      (keep_last-append max_packets_in_queue (queue ++ (p ∷ [])) ps
                        ∙ ap (keep_last max_packets_in_queue) (append_assoc queue (p ∷ []) ps)),
            )

  -- Packets admitted for a peer whose link is down wait for it: when the peer connects, the actions
  -- of that event send it the last 1000 of what waited before and of these packets, in order.
  pub connect-run :
      (c : VpnCore K) (k : K) (queue ps : List Bytes)
      → Hops c k ps
      → IsValid key_eq c
      → view key_eq c k ≡ some (down queue)
      → Returns
          (λ r.
            (r.1 ≡ map (λ p. send_packet_to p k) (keep_last max_packets_in_queue (queue ++ ps)))
            × (view key_eq r.0 k ≡ some up))
          (run key_eq c (map packet_from_tun ps) >>= λ r. process key_eq r.0 (peer_connected k))
  connect-run c k queue ps b v h =
      Returns-bind _ _ (run key_eq c (map packet_from_tun ps)) _
        (run-queues c k queue ps b v h (down-bounded c k queue v h))
        λ r (w, waits).
          Returns-mono _ _ (process key_eq r.0 (peer_connected k))
            (λ q e.
              let sent = e ∙ on_link-connects r.0 (view key_eq r.0) k _ waits in
              (
                ap (λ (x : Links K × List (Action K)). x.1) sent,
                ap (λ (x : Links K × List (Action K)). x.0 k) sent
                    ∙ update_self k up (view key_eq r.0),
              ))
            (process-on_link key_eq r.0 (peer_connected k) tt w)
