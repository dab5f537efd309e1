-- ===== src/Base/Maps.antt =====
-- Association lists as maps: no key twice, and orders of the same entries.
use mathlib.Core.Path.{◌≡◌, refl, ap, ◌∙◌}
use mathlib.Core.List.{List, [], ◌∷◌}
use mathlib.Core.List.{Permᴰ}
use mathlib.Core.Option.{none}
use native.Mathlib.Omega.{arith}
use peer_to_peer_decentraliz.Base.Assoc.{get}

module _ {K V : Type 0} (eq : Discrete K) where
  -- No key stands twice, as in a `HashMap`.
  abbrev pub IsMap : List (K × V) → Type 0
  IsMap [] = Unit {0}
  IsMap ((k, v) ∷ m) = (get eq k m ≡ none) × IsMap m

  -- Another order of iteration is the same map.
  pub get-Perm :
      (m n : List (K × V)) → Permᴰ m n → IsMap m → IsMap n × ((k : K) → get eq k m ≡ get eq k n)
  unfolding get
  get-Perm _ _ Permᴰ.nil h = (tt, λ k. refl)
  get-Perm ((i, v) ∷ m) ((j, w) ∷ n) (Permᴰ.cons e p) h =
      let (fresh, same) = get-Perm m n p h.1 in
      let key : i ≡ j = ap (λ (x : K × V). x.0) e in
      let value : v ≡ w = ap (λ (x : K × V). x.1) e in
      ((ground (arith, same j, h.0), fresh), λ k. ground (arith, same k))
  get-Perm ((i, v) ∷ (j, w) ∷ m) ((j', w') ∷ (i', v') ∷ _) (Permᴰ.swap e f) h =
      let key : i ≡ i' = ap (λ (x : K × V). x.0) e in
      let value : v ≡ v' = ap (λ (x : K × V). x.1) e in
      let key' : j ≡ j' = ap (λ (x : K × V). x.0) f in
      let value' : w ≡ w' = ap (λ (x : K × V). x.1) f in
      ((ground arith, (ground arith, h.1.1)), λ k. ground arith)
  get-Perm m n (Permᴰ.trans {l₂ = l} p q) h =
      let (fresh, same) = get-Perm m l p h in
      let (last, again) = get-Perm l n q fresh in (last, λ k. same k ∙ again k)
