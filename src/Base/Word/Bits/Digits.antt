-- ===== src/Base/Word/Bits/Digits.antt =====
-- The lowest binary digit of what a native bitwise operation gives.
use Prim.Native.Nat.{
  ℕ, zero, suc, ◌+◌, ◌-◌, ◌*◌, ◌/◌, ◌%◌, ◌≤◌, min, max, bit_and, bit_or, digits, bitwise,
  bit_and-bitwise, bit_or-bitwise, bit_xor, bit_xor-bitwise, differ,
}
use mathlib.Core.Path.{◌≡◌, refl, ap, subst, ◌∙◌}
use native.Mathlib.Nat.{zero-add, suc-add}
use native.Mathlib.Omega.{arith}

-- `empty` is the operation on 0, `digit` the operation on digits.
module _ (empty : ℕ → ℕ) (digit : ℕ → ℕ → ℕ) where
  -- Fuel above the first operand makes no difference.
  spare_step :
      (fuel x y : ℕ) → x ≤ fuel → digits empty digit (suc fuel) x y ≡ digits empty digit fuel x y
  spare_step zero zero y fits = refl
  spare_step (suc fuel) zero y fits = refl
  spare_step zero (suc x) y fits = absurd (omega arith)
  spare_step (suc fuel) (suc x) y fits =
      ap (λ higher. higher * 2 + digit (suc x % 2) (y % 2))
        (spare_step fuel (suc x / 2) (y / 2) (omega arith))

  spare_fuel :
      (spare fuel x y : ℕ)
      → x ≤ fuel
      → digits empty digit (spare + fuel) x y ≡ digits empty digit fuel x y
  spare_fuel zero fuel x y fits = rw zero-add
  spare_fuel (suc spare) fuel x y fits =
      rw suc-add (spare_step (spare + fuel) x y (omega arith) ∙ spare_fuel spare fuel x y fits)

  lowest_digit :
      ((y : ℕ) → empty y ≡ empty (y / 2) * 2 + digit 0 (y % 2))
      → (x y : ℕ)
      → bitwise empty digit x y ≡ bitwise empty digit (x / 2) (y / 2) * 2 + digit (x % 2) (y % 2)
  lowest_digit at_zero zero y = at_zero y
  lowest_digit at_zero (suc x) y =
      let half = suc x / 2 in
      let rest : x - half + half ≡ x = omega arith in
      subst
        (λ fuel.
          digits empty digit fuel half (y / 2) * 2 + digit (suc x % 2) (y % 2)
          ≡ bitwise empty digit half (y / 2) * 2 + digit (suc x % 2) (y % 2))
        rest
        (ap (λ higher. higher * 2 + digit (suc x % 2) (y % 2))
          (spare_fuel (x - half) half half (y / 2) (omega arith)))

pub bit_and_step : (x y : ℕ) → bit_and x y ≡ bit_and (x / 2) (y / 2) * 2 + min (x % 2) (y % 2)
bit_and_step x y = simp bit_and-bitwise (lowest_digit (λ _. 0) min (λ y. omega arith) x y)

pub bit_xor_step : (x y : ℕ) → bit_xor x y ≡ bit_xor (x / 2) (y / 2) * 2 + differ (x % 2) (y % 2)
bit_xor_step x y = simp bit_xor-bitwise (lowest_digit (λ r. r) differ (λ y. omega arith) x y)

pub bit_or_step : (x y : ℕ) → bit_or x y ≡ bit_or (x / 2) (y / 2) * 2 + max (x % 2) (y % 2)
bit_or_step x y = simp bit_or-bitwise (lowest_digit (λ r. r) max (λ y. omega arith) x y)
