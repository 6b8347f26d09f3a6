-- ===== src/Common/Decimal.antt =====
-- `str` of a natural number, and the number that decimal digits stand for.
use Prim.Native.Nat.{ℕ, zero, suc, ◌+◌, ◌-◌, ◌*◌, ◌/◌, ◌%◌, ◌<◌, ◌≤◌}
use mathlib.Core.List.{[], ◌∷◌, ◌++◌}
use mathlib.Core.Logic.{inl, inr}
use mathlib.Core.Path.{◌≡◌, refl, ap, ◌∙◌}
use native.Mathlib.Omega.{arith}
use native.Mathlib.Nat.{div-add-mod'}
use task_platform.Common.Tests.{ltb, if◌then◌else◌, Bool-cases}
use task_platform.Common.Texts.{Text}

-- The last digits of a number, as many as the fuel allows.
abbrev digits : ℕ → ℕ → Text
digits zero n = []
digits (suc fuel) n =
    let rest = digits fuel (n / 10) in
    if ltb n 10 then (48 + n) ∷ [] else rest ++ (48 + n % 10) ∷ []

-- A number has at most as many digits as one more than it.
unfoldable pub decimal : ℕ → Text
decimal n = digits (suc n) n

-- The value of a text of digits after a value that was read.
abbrev pub value_after : ℕ → Text → ℕ
value_after n [] = n
value_after n (c ∷ t) = value_after (n * 10 + (c - 48)) t

value_after-append : (n : ℕ) (s t : Text) → value_after n (s ++ t) ≡ value_after (value_after n s) t
value_after-append n [] t = refl
value_after-append n (c ∷ s) t = value_after-append (n * 10 + (c - 48)) s t

value-digits : (fuel n : ℕ) → n < fuel → value_after 0 (digits fuel n) ≡ n
value-digits zero n h = absurd (omega arith)
value-digits (suc fuel) n h = elim (Bool-cases (ltb n 10)) [
  | inl small ↦ rw small (omega arith)
  | inr large ↦
      let ten : 10 ≤ n = ground arith in
      rw large (
        value_after-append 0 (digits fuel (n / 10)) ((48 + n % 10) ∷ [])
        ∙ ap (λ v. v * 10 + (48 + n % 10 - 48)) (value-digits fuel (n / 10) (omega arith))
        ∙ omega (arith, div-add-mod' n 10))
]

-- The text of a number stands for that number, so that different numbers have different texts.
pub value-decimal : (n : ℕ) → value_after 0 (decimal n) ≡ n
unfolding decimal
value-decimal n = value-digits (suc n) n (omega arith)
