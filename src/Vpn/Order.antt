-- ===== src/Vpn/Order.antt =====
-- The route table is a hash map, and `VpnCore::new` goes through it in the order that the map picks.
-- What a router does does not depend on that order.
use mathlib.Core.Path.{fun_ext}
use mathlib.Core.List.{Permᴰ}
use mathlib.Core.HLevel.{hedberg}
use mathlib.Core.Quot
use mathlib.Core.Quot.{Quot}
use peer_to_peer_decentraliz.Base.{
  ℕ, ℕ_discrete, ◌≡◌, refl, sym, ap, ◌∙◌, none, some, List, [], ◌∷◌, ◌++◌, if◌then◌else◌, get,
  IsMap, get-Perm, All, Checked, returns, panics, ◌>>=◌, Returns, Option-cases, Result-cases, inl,
  inr, arith,
}
use peer_to_peer_decentraliz.Packet.{Bytes, Ipv4Addr, Ipv4Addr-discrete}
use peer_to_peer_decentraliz.Packet.Header.{parsed_of}
use peer_to_peer_decentraliz.Vpn.Verdict.{send_verdict, recv_verdict}
use peer_to_peer_decentraliz.Vpn.Invariant.{
  IsValid, IsEvent, SameConfig, new-IsValid, new_peers-fresh,
}
use peer_to_peer_decentraliz.Vpn.Refinement.{Links, down, view, next_hop, on_link, process-both}
use peer_to_peer_decentraliz.Vpn.Whitelist.{listed, known-new}
use peer_to_peer_decentraliz.Vpn.Run.{run}
use peer_to_peer_decentraliz.Vpn.{
  VpnCore, Event, peer_connected, peer_disconnected, packet_from_tun, packet_from_iroh, Action,
  Handled, new_peers, new, process, check_send,
}

-- The actions of a computation.
abbrev pub actions_of : {K : Type 0} → Handled K → Checked (List (Action K))
actions_of m = m >>= λ r. returns r.1

actions_later :
    {K : Type 0} (m : Handled K) (now : List (Action K))
    → actions_of (m >>= λ r. returns (r.0, now ++ r.1))
      ≡ (actions_of m >>= λ later. returns (now ++ later))
actions_later (returns r) now = refl
actions_later panics now = refl

pub Returns-value :
    {A : Type 0} (P : A → Type 0) (m : Checked A) → Returns P m → (a : A) × (m ≡ returns a) × P a
Returns-value P (returns a) h = (a, refl, h)
Returns-value P panics h = absurd h

module _ {K : Type 0} (key_eq : Discrete K) where
  listed-Perm :
      (t u : List (Ipv4Addr × K)) → Permᴰ t u → (k : K) → listed key_eq t k ≡ listed key_eq u k
  listed-Perm _ _ Permᴰ.nil k = refl
  listed-Perm ((a, i) ∷ t) ((b, j) ∷ u) (Permᴰ.cons e p) k =
      let key : i ≡ j = ap (λ (x : Ipv4Addr × K). x.1) e in ground (arith, listed-Perm t u p k)
  listed-Perm ((a, i) ∷ (b, j) ∷ t) ((b', j') ∷ (a', i') ∷ _) (Permᴰ.swap e f) k =
      let key : i ≡ i' = ap (λ (x : Ipv4Addr × K). x.1) e in
      let key' : j ≡ j' = ap (λ (x : Ipv4Addr × K). x.1) f in ground arith
  listed-Perm t u (Permᴰ.trans {l₂ = m} p q) k = listed-Perm t m p k ∙ listed-Perm m u q k

  -- Routers that differ in the order of their tables at most.
  record IsAlike (c d : VpnCore K) : Type 0 where
    size : d.max_packet_size ≡ c.max_packet_size
    addr : d.ipv4_addr ≡ c.ipv4_addr
    routes :
        (a : Ipv4Addr)
        → get Ipv4Addr-discrete a d.route_table ≡ get Ipv4Addr-discrete a c.route_table
    links : view key_eq d ≡ view key_eq c

  send_verdict-IsAlike :
      (c d : VpnCore K) (p : Bytes)
      → IsAlike c d
      → send_verdict key_eq d p ≡ send_verdict key_eq c p
  unfolding send_verdict check_send
  send_verdict-IsAlike c d p s = elim (Result-cases (parsed_of p)) [
    | inr (x, e) ↦ rw (e, send_verdict) refl
    | inl (h, e) ↦ rw (e, send_verdict) (ground (arith, s.size, s.addr, s.routes h.dest_ip))
  ]

  recv_verdict-IsAlike :
      (c d : VpnCore K) (p : Bytes) (k : K)
      → IsAlike c d
      → recv_verdict key_eq d p k ≡ recv_verdict key_eq c p k
  unfolding recv_verdict
  recv_verdict-IsAlike c d p k s = elim (Result-cases (parsed_of p)) [
    | inr (x, e) ↦ rw (e, recv_verdict) refl
    | inl (h, e) ↦ rw (e, recv_verdict) (ground (arith, s.size, s.addr, s.routes h.src_ip))
  ]

  next_hop-IsAlike :
      (c d : VpnCore K) (p : Bytes) → IsAlike c d → next_hop key_eq d p ≡ next_hop key_eq c p
  next_hop-IsAlike c d p s =
      let same = send_verdict-IsAlike c d p s in
      elim (Result-cases (send_verdict key_eq c p)) [
        | inr (x, e) ↦ rw (same ∙ e, e, next_hop) refl
        | inl (ip, e) ↦ rw (same ∙ e, e, s.routes ip, next_hop) refl
      ]

  on_link-IsAlike :
      (c d : VpnCore K) (v : Links K) (e : Event K)
      → IsAlike c d
      → on_link key_eq d v e ≡ on_link key_eq c v e
  on_link-IsAlike c d v (peer_connected k) s = refl
  on_link-IsAlike c d v (peer_disconnected k) s = refl
  on_link-IsAlike c d v (packet_from_tun p) s =
      let same = next_hop-IsAlike c d p s in
      elim (Result-cases (next_hop key_eq c p)) [
        | inr (x, e) ↦ rw (same ∙ e, e, on_link) refl
        | inl (k, e) ↦ rw (same ∙ e, e, on_link) refl
      ]
  on_link-IsAlike c d v (packet_from_iroh p k) s = rw (recv_verdict-IsAlike c d p k s, on_link) refl

  pub view-new :
      (ip : Ipv4Addr) (t : List (Ipv4Addr × K)) (size : ℕ) (k : K)
      → view key_eq (new key_eq ip t size) k ≡ (if listed key_eq t k then some (down []) else none)
  unfolding new get
  view-new ip t size k =
      let listed_here = ap (λ f. f k) (known-new key_eq ip t size) in
      elim (Option-cases (get key_eq k (new_peers key_eq t []))) [
        | inl e ↦ ground (arith, listed_here)
        | inr (p, e) ↦ ground (arith, listed_here, new_peers-fresh key_eq t [] (λ j q x. cc) k p e)
      ]

  new-IsAlike :
      (ip : Ipv4Addr) (t u : List (Ipv4Addr × K)) (size : ℕ)
      → IsMap Ipv4Addr-discrete t
      → Permᴰ t u
      → IsAlike (new key_eq ip t size) (new key_eq ip u size)
  unfolding new
  new-IsAlike ip t u size m p = record {
    size = refl;
    addr = refl;
    routes = λ a. sym ((get-Perm Ipv4Addr-discrete t u p m).1 a);
    links = fun_ext λ k.
        view-new ip u size k
        ∙ ap (λ b. if b then some (down []) else none) (sym (listed-Perm t u p k))
        ∙ sym (view-new ip t size k);
  }

  -- The step of two routers that are alike.
  process-IsAlike :
      (c d : VpnCore K) (r r' : VpnCore K × List (Action K)) (e : Event K)
      → IsAlike c d
      → SameConfig key_eq c r.0
      → SameConfig key_eq d r'.0
      → ◌≡◌ {A = Links K × List (Action K)}
          (view key_eq r.0, r.1)
          (on_link key_eq c (view key_eq c) e)
      → ◌≡◌ {A = Links K × List (Action K)}
          (view key_eq r'.0, r'.1)
          (on_link key_eq d (view key_eq d) e)
      → IsAlike r.0 r'.0 × (r'.1 ≡ r.1)
  process-IsAlike c d r r' e s k k' h h' =
      let spec = ap (λ v. on_link key_eq d v e) s.links ∙ on_link-IsAlike c d (view key_eq c) e s in
      let both : ◌≡◌ {A = Links K × List (Action K)} (view key_eq r'.0, r'.1)
          (view key_eq r.0, r.1) =
        h' ∙ spec ∙ sym h in
      (
        record {
          size = k'.same_size ∙ s.size ∙ sym k.same_size;
          addr = k'.same_addr ∙ s.addr ∙ sym k.same_addr;
          routes = λ a.
              ap (get Ipv4Addr-discrete a) k'.same_routes
              ∙ s.routes a
              ∙ ap (get Ipv4Addr-discrete a) (sym k.same_routes);
          links = ap (λ x. x.0) both;
        },
        ap (λ x. x.1) both,
      )

  run-IsAlike :
      (c d : VpnCore K) (es : List (Event K))
      → All (IsEvent key_eq) es
      → IsValid key_eq c
      → IsValid key_eq d
      → IsAlike c d
      → actions_of (run key_eq d es) ≡ actions_of (run key_eq c es)
  unfolding run
  run-IsAlike c d [] b v w s = refl
  run-IsAlike c d (e ∷ es) b v w s =
      let (r, now, ((v', k), h)) =
        Returns-value _ (process key_eq c e) (process-both key_eq c e b.0 v) in
      let (r', now', ((w', k'), h')) =
        Returns-value _ (process key_eq d e) (process-both key_eq d e b.0 w) in
      let (s', same) = process-IsAlike c d r r' e s k k' h h' in
      let rest = run-IsAlike r.0 r'.0 es b.1 v' w' s' in
      rw (now, now', run)
        (actions_later (run key_eq r'.0 es) r'.1
          ∙ ap (λ acts. actions_of (run key_eq r'.0 es) >>= λ later. returns (acts ++ later)) same
          ∙ ap (λ m. m >>= λ later. returns (r.1 ++ later)) rest
          ∙ sym (actions_later (run key_eq r.0 es) r.1))

  -- However the map orders the entries of a route table, no address of which stands twice, the
  -- router that is made from it answers every history of events with the same actions.
  pub run-Perm :
      (ip : Ipv4Addr) (t u : List (Ipv4Addr × K)) (size : ℕ) (es : List (Event K))
      → IsMap Ipv4Addr-discrete t
      → Permᴰ t u
      → All (IsEvent key_eq) es
      → actions_of (run key_eq (new key_eq ip u size) es)
        ≡ actions_of (run key_eq (new key_eq ip t size) es)
  run-Perm ip t u size es m p b =
      run-IsAlike (new key_eq ip t size) (new key_eq ip u size) es b (new-IsValid key_eq ip t size)
        (new-IsValid key_eq ip u size) (new-IsAlike ip t u size m p)

  -- The route table without its order.
  abbrev RouteTable : Type 0
  RouteTable = (t : List (Ipv4Addr × K)) × IsMap Ipv4Addr-discrete t

  abbrev pub RouteMap : Type 0
  RouteMap = Quot {α = RouteTable} (λ t u. Permᴰ t.0 u.0)

  Answers-discrete : Discrete (Checked (List (Action K)))
  Answers-discrete = hlevel (key_eq, ℕ_discrete)

  -- The answers to a history of events, from the map alone.
  answers :
      Ipv4Addr
      → ℕ
      → (es : List (Event K)) → All (IsEvent key_eq) es
      → RouteMap
      → Checked (List (Action K))
  answers ip size es b =
      Quot.lift (hedberg Answers-discrete)
        (λ t. actions_of (run key_eq (new key_eq ip t.0 size) es))
        (λ t u p. sym (run-Perm ip t.0 u.0 size es t.1 p b))
