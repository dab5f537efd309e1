-- ===== src/Base/Text.antt =====
-- Texts as their bytes: literals, and numbers in decimal as `{}` of `format!` writes them.
use Prim.Native.Char.{code}
use Prim.Native.String.{String}
use Prim.Native.Nat.{ℕ, zero, suc, ◌+◌, ◌-◌, ◌*◌, ◌/◌, ◌%◌, ◌<◌}
use mathlib.Core.Path.{◌≡◌, sym, ap, ◌∙◌}
use mathlib.Core.Logic.{inl, inr}
use mathlib.Core.List.{List, [], ◌∷◌}
use native.Mathlib.Omega.{arith}
use peer_to_peer_decentraliz.Base.Tests.{ltb, if◌then◌else◌, Bool-cases}

-- The bytes of a literal, which is ASCII.
abbrev pub codes : String → List ℕ
codes String.[] = []
codes (String.◌∷◌ c s) = code c ∷ codes s

-- The digits of `n` in front of `digits`, on fuel.
decimal_onto : ℕ → ℕ → List ℕ → List ℕ
decimal_onto zero n digits = digits
decimal_onto (suc fuel) n digits =
    let now = (b'0' + n % 10) ∷ digits in
    let rest = decimal_onto fuel (n / 10) now in if ltb n 10 then now else rest

-- `format!("{}", n)`; `n + 1` rounds are enough.
unfoldable pub decimal : ℕ → List ℕ
unfolding decimal_onto
decimal n = decimal_onto (suc n) n []

-- What decimal digits stand for, behind those read before.
abbrev value_onto : ℕ → List ℕ → ℕ
value_onto v [] = v
value_onto v (x ∷ xs) = value_onto (v * 10 + (x - b'0')) xs

abbrev pub value : List ℕ → ℕ
value = value_onto 0

value_onto-decimal_onto :
    (fuel n : ℕ) (digits : List ℕ)
    → n < fuel
    → value (decimal_onto fuel n digits) ≡ value_onto n digits
unfolding decimal_onto
value_onto-decimal_onto zero n digits h = absurd (omega arith)
value_onto-decimal_onto (suc fuel) n digits h = elim (Bool-cases (ltb n 10)) [
  | inl l ↦ let small : n < 10 = ground arith in rw l (ap (λ v. value_onto v digits) (omega arith))
  | inr l ↦
      let large : 9 < n = ground arith in
      rw l (
        value_onto-decimal_onto fuel (n / 10) ((b'0' + n % 10) ∷ digits) (omega arith)
        ∙ ap (λ v. value_onto v digits) (omega arith))
]

pub value-decimal : (n : ℕ) → value (decimal n) ≡ n
unfolding decimal
value-decimal n = value_onto-decimal_onto (suc n) n [] (omega arith)

pub decimal-injective : (m n : ℕ) → decimal m ≡ decimal n → m ≡ n
decimal-injective m n e = sym (value-decimal m) ∙ ap value e ∙ value-decimal n
