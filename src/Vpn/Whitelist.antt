-- ===== src/Vpn/Whitelist.antt =====
-- The whitelist: whom the router knows, and whom its actions concern.
use mathlib.Core.Path.{fun_ext}
use peer_to_peer_decentraliz.Base.{
  ℕ, ◌≡◌, refl, ap, ◌∙◌, sym, subst, Bool, true, false, ◌||◌, is_yes, is_some, List, [], ◌∷◌, ◌++◌,
  map, arith, get, insert, get-insert, All, Returns, Returns-bind, Returns-mono, inl, inr,
}
use peer_to_peer_decentraliz.Packet.{Bytes, Ipv4Addr}
use peer_to_peer_decentraliz.Vpn.Invariant.{IsValid, IsEvent, new-IsValid}
use peer_to_peer_decentraliz.Vpn.Refinement.{Links, view, on_link, process-both}
use peer_to_peer_decentraliz.Vpn.Delivery.{Link-cases}
use peer_to_peer_decentraliz.Vpn.Run.{run}
use peer_to_peer_decentraliz.Vpn.{
  VpnCore, PeerState, Event, peer_connected, peer_disconnected, packet_from_tun, packet_from_iroh,
  Action, connect_to_peer, disconnect_from_peer, send_packet_to, fresh_peer, new_peers, new,
  verify_connection, process,
}

-- Packets go to known keys, a disconnect goes to unknown ones, and no connection is asked for.
abbrev pub Concerns : {K : Type 0} → (K → Bool) → Action K → Type 0
Concerns known (connect_to_peer k) = ⊥
Concerns known (disconnect_from_peer k) = known k ≡ false
Concerns known (send_packet_to p k) = known k ≡ true
Concerns known _ = Unit {0}

module _ {K : Type 0} (key_eq : Discrete K) where
  -- The key stands in the route table.
  abbrev pub listed : List (Ipv4Addr × K) → K → Bool
  listed [] k = false
  listed ((ip, j) ∷ table) k = is_yes (key_eq j k) || listed table k

  -- The keys that the router knows.
  abbrev pub known : Links K → K → Bool
  known v k = is_some (v k)

  All-flush :
      (P : K → Bool) (k : K) (ps : List Bytes)
      → P k ≡ true
      → All (Concerns P) (map (λ p. send_packet_to p k) ps)
  All-flush P k [] h = tt
  All-flush P k (p ∷ ps) h = (h, All-flush P k ps h)

  All-append :
      (P : K → Bool) (xs ys : List (Action K))
      → All (Concerns P) xs
      → All (Concerns P) ys
      → All (Concerns P) (xs ++ ys)
  All-append P [] ys h k = k
  All-append P (x ∷ xs) ys h k = (h.0, All-append P xs ys h.1 k)

  on_link-Concerns :
      (c : VpnCore K) (v : Links K) (e : Event K)
      → All (Concerns (known v)) (on_link key_eq c v e).1
  on_link-Concerns c v (peer_connected k) = elim (Link-cases (v k)) [
    | inl e ↦ ground arith
    | inr (inl e) ↦ ground arith
    | inr (inr (queue, e)) ↦ ground (arith, All-flush (known v) k queue (ground arith))
  ]
  on_link-Concerns c v (peer_disconnected k) = ground arith
  on_link-Concerns c v (packet_from_tun packet) = ground arith
  on_link-Concerns c v (packet_from_iroh packet from) = ground arith

  pub known-on_link :
      (c : VpnCore K) (v : Links K) (e : Event K) → known (on_link key_eq c v e).0 ≡ known v
  known-on_link c v e = fun_ext λ k. at e k
    where
      at : (e : Event K) (k : K) → known (on_link key_eq c v e).0 k ≡ known v k
      at (peer_connected j) k = ground arith
      at (peer_disconnected j) k = ground arith
      at (packet_from_tun packet) k = ground arith
      at (packet_from_iroh packet from) k = ground arith

  run-known :
      (c : VpnCore K) (es : List (Event K))
      → All (IsEvent key_eq) es
      → IsValid key_eq c
      → Returns
          (λ r.
            (known (view key_eq r.0) ≡ known (view key_eq c))
            × All (Concerns (known (view key_eq c))) r.1)
          (run key_eq c es)
  unfolding run
  run-known c [] b v = (refl, tt)
  run-known c (e ∷ es) b v =
      Returns-bind _ _ (process key_eq c e) _ (process-both key_eq c e b.0 v) λ r ((w, s), now).
        Returns-bind _ _ (run key_eq r.0 es) _ (run-known r.0 es b.1 w) λ r' (same_known, later).
          let kept : known (view key_eq r.0) ≡ known (view key_eq c) =
            ap (λ (q : Links K × List (Action K)). known q.0) now ∙ known-on_link c _ e in
          let first : All (Concerns (known (view key_eq c))) r.1 =
            subst (λ (q : Links K × List (Action K)). All (Concerns (known (view key_eq c))) q.1)
              (sym now) (on_link-Concerns c (view key_eq c) e) in
          (
            same_known ∙ kept,
            All-append _ r.1 r'.1 first (subst (λ f. All (Concerns f) r'.1) kept later),
          )

  known-new_peers :
      (table : List (Ipv4Addr × K)) (peers : List (K × PeerState)) (k : K)
      → is_some (get key_eq k (new_peers key_eq table peers))
        ≡ (listed table k || is_some (get key_eq k peers))
  unfolding new_peers
  known-new_peers [] peers k = refl
  known-new_peers ((ip, j) ∷ table) peers k = ground (
    arith,
    get-insert key_eq k j (fresh_peer ip) peers,
    known-new_peers table (insert key_eq j (fresh_peer ip) peers) k,
  )

  pub known-new :
      (ip : Ipv4Addr) (table : List (Ipv4Addr × K)) (size : ℕ)
      → known (view key_eq (new key_eq ip table size)) ≡ listed table
  unfolding new get
  known-new ip table size = fun_ext λ k. ground (arith, known-new_peers table [] k)

  verify_connection-known :
      (c : VpnCore K) (k : K) → verify_connection key_eq c k ≡ known (view key_eq c) k
  unfolding verify_connection
  verify_connection-known c k = ground arith

  -- From its start the router admits the keys of its route table and no others, whatever events it
  -- has seen; it sends packets to such keys only, disconnects other keys only, and never asks for a
  -- connection.
  pub run-whitelist :
      (ip : Ipv4Addr) (table : List (Ipv4Addr × K)) (size : ℕ) (es : List (Event K))
      → All (IsEvent key_eq) es
      → Returns
          (λ r.
            ((k : K) → verify_connection key_eq r.0 k ≡ listed table k)
            × All (Concerns (listed table)) r.1)
          (run key_eq (new key_eq ip table size) es)
  run-whitelist ip table size es b =
      Returns-mono _ _ (run key_eq (new key_eq ip table size) es)
        (λ r (same_known, acts). (
          λ k.
              verify_connection-known r.0 k
              ∙ ap (λ (f : K → Bool). f k) (same_known ∙ known-new ip table size),
          subst (λ f. All (Concerns f) r.1) (known-new ip table size) acts,
        ))
        (run-known _ es b (new-IsValid key_eq ip table size))
