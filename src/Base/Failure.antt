-- ===== src/Base/Failure.antt =====
-- Results with an error value, and computations that may panic, as an index out of range does.
use mathlib.Core.Path.{◌≡◌, refl}
use mathlib.Core.Logic.{◌⊎◌, inl, inr}
use mathlib.Core.Bool.{Bool, true, false}
use peer_to_peer_decentraliz.Base.Tests.{if◌then◌else◌}
use mathlib.Core.Option.{Option, none, some}

pub data Result {ℓ} (A E : Type ℓ) : Type ℓ where
  ok : A → Result A E
  err : E → Result A E

pub data Checked {ℓ} (A : Type ℓ) : Type ℓ where
  returns : A → Checked A
  panics : Checked A

infixl 5 ◌>>=◌
abbrev pub ◌>>=◌ {ℓ κ} : {A : Type ℓ} {B : Type κ} → Checked A → (A → Checked B) → Checked B
returns a >>= f = f a
panics >>= f = panics

-- `table[key]` and `slice[i]`, from the lookup that does not panic.
abbrev pub index {ℓ} : {A : Type ℓ} → Option A → Checked A
index (some a) = returns a
index none = panics

-- The computation does not panic, and its value has the property.
abbrev pub Returns {ℓ} : {A : Type ℓ} → (A → Type 0) → Checked A → Type 0
Returns P (returns a) = P a
Returns P panics = ⊥

pub Returns-if {ℓ} :
    {A : Type ℓ} (P : A → Type 0) (b : Bool) (x y : Checked A)
    → (b ≡ true → Returns P x)
    → (b ≡ false → Returns P y)
    → Returns P (if b then x else y)
Returns-if P true x y h k = h refl
Returns-if P false x y h k = k refl

pub Result-cases {ℓ} :
    {A E : Type ℓ} (r : Result A E) → ((a : A) × (r ≡ ok a)) ⊎ ((e : E) × (r ≡ err e))
Result-cases (ok a) = inl (a, refl)
Result-cases (err e) = inr (e, refl)

-- The rule for a bind: a property of the first value is enough for the rest.
pub Returns-bind {ℓ κ} :
    {A : Type ℓ} {B : Type κ} (Q : A → Type 0) (P : B → Type 0) (m : Checked A) (f : A → Checked B)
    → Returns Q m
    → ((a : A) → Q a → Returns P (f a))
    → Returns P (m >>= f)
Returns-bind Q P (returns a) f q h = h a q
Returns-bind Q P panics f q h = absurd q

pub Returns-both {ℓ} :
    {A : Type ℓ} (Q P : A → Type 0) (m : Checked A)
    → Returns Q m
    → Returns P m
    → Returns (λ a. Q a × P a) m
Returns-both Q P (returns a) q p = (q, p)
Returns-both Q P panics q p = q

pub Returns-mono {ℓ} :
    {A : Type ℓ} (Q P : A → Type 0) (m : Checked A)
    → ((a : A) → Q a → P a)
    → Returns Q m
    → Returns P m
Returns-mono Q P (returns a) h q = h a q
Returns-mono Q P panics h q = q
