-- ===== src/Vpn/Run.antt =====
-- A history of events, as the coordinator feeds them to the router one after the other (`coord.rs`,
-- `handle_iroh_event` and `handle_packet_from_tun`), with all the actions in the order given.
use peer_to_peer_decentraliz.Base.{
  List, [], ◌∷◌, ◌++◌, All, returns, Returns, Returns-bind, ◌>>=◌, ◌∙◌,
}
use peer_to_peer_decentraliz.Vpn.Invariant.{IsValid, IsEvent, SameConfig, same, process-IsValid}
use peer_to_peer_decentraliz.Vpn.{VpnCore, Event, Handled, process}

module _ {K : Type 0} (key_eq : Discrete K) where
  unfoldable pub run : VpnCore K → List (Event K) → Handled K
  run c [] = returns (c, [])
  run c (e ∷ es) = do
    (d, now) ← process key_eq c e
    (last, later) ← run d es
    returns (last, now ++ later)

  pub same_trans :
      (a b c : VpnCore K) → SameConfig key_eq a b → SameConfig key_eq b c → SameConfig key_eq a c
  same_trans a b c s t = record {
    same_size = t.same_size ∙ s.same_size;
    same_addr = t.same_addr ∙ s.same_addr;
    same_routes = t.same_routes ∙ s.same_routes;
  }

  -- No history of events panics a valid router, leaves it invalid or changes its settings.
  pub run-IsValid :
      (c : VpnCore K) (es : List (Event K))
      → All (IsEvent key_eq) es
      → IsValid key_eq c
      → Returns (λ r. IsValid key_eq r.0 × SameConfig key_eq c r.0) (run c es)
  unfolding run
  run-IsValid c [] b v = (v, same key_eq c)
  run-IsValid c (e ∷ es) b v =
      Returns-bind _ _ (process key_eq c e) _ (process-IsValid key_eq c e b.0 v) λ r (w, s).
        Returns-bind _ _ (run r.0 es) _ (run-IsValid r.0 es b.1 w)
          λ r' (w', s'). (w', same_trans c r.0 r'.0 s s')
