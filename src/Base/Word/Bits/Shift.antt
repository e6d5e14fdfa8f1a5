-- ===== src/Base/Word/Bits/Shift.antt =====
-- Bits of shifted and cut numbers, and of powers of two.
use Prim.Native.Nat.{ℕ, zero, suc, ◌+◌, ◌*◌, ◌/◌, ◌%◌, ◌^◌, ◌≤◌, ◌<◌, bit_and}
use mathlib.Core.Path.{◌≡◌, refl, ap, ◌∙◌}
use mathlib.Core.Logic.{◌≢◌, ◌⊎◌, inl, inr}
use native.Mathlib.Nat.{pow-suc, zero-add, suc-add}
use native.Mathlib.Omega.{arith}
use decada_embedded_example.Base.Tests.{le_or_lt}
use decada_embedded_example.Base.Word.Bits.{
  bit, bit-zero, bit-le-one, bit-bit_and, bit_ext, div-two-pow-suc, mod-two-pow-suc,
}

pub bit-div : (x c k : ℕ) → bit (x / 2 ^ c) k ≡ bit x (c + k)
bit-div x zero k = rw zero-add (ap (λ y. bit y k) (omega arith))
bit-div x (suc c) k = rw suc-add (ap (λ y. bit y k) (div-two-pow-suc x c) ∙ bit-div (x / 2) c k)

half_of_shifted : (x c : ℕ) → x * 2 ^ suc c / 2 ≡ x * 2 ^ c
half_of_shifted x c = omega (arith, ap (λ (t : ℕ). x * t) (pow-suc 2 c))

pub bit-mul : (x c k : ℕ) → bit (x * 2 ^ c) (c + k) ≡ bit x k
bit-mul x zero k = rw zero-add (ap (λ y. bit y k) (omega arith))
bit-mul x (suc c) k = rw suc-add (ap (λ y. bit y (c + k)) (half_of_shifted x c) ∙ bit-mul x c k)

pub bit-mul_low : (x c k : ℕ) → k < c → bit (x * 2 ^ c) k ≡ 0
bit-mul_low x zero k h = absurd (omega arith)
bit-mul_low x (suc c) zero h = omega (arith, ap (λ (t : ℕ). x * t) (pow-suc 2 c))
bit-mul_low x (suc c) (suc k) h =
    ap (λ y. bit y k) (half_of_shifted x c) ∙ bit-mul_low x c k (omega arith)

pub bit-mod : (x m k : ℕ) → k < m → bit (x % 2 ^ m) k ≡ bit x k
bit-mod x zero k h = absurd (omega arith)
bit-mod x (suc m) zero h = omega (arith, mod-two-pow-suc x m)
bit-mod x (suc m) (suc k) h =
    let half : x % 2 ^ suc m / 2 ≡ x / 2 % 2 ^ m = omega (arith, mod-two-pow-suc x m) in
    ap (λ y. bit y k) half ∙ bit-mod (x / 2) m k (omega arith)

pub bit-mod_high : (x m k : ℕ) → m ≤ k → bit (x % 2 ^ m) k ≡ 0
bit-mod_high x zero k h = ap (λ y. bit y k) (omega arith) ∙ bit-zero k
bit-mod_high x (suc m) zero h = absurd (omega arith)
bit-mod_high x (suc m) (suc k) h =
    let half : x % 2 ^ suc m / 2 ≡ x / 2 % 2 ^ m = omega (arith, mod-two-pow-suc x m) in
    ap (λ y. bit y k) half ∙ bit-mod_high (x / 2) m k (omega arith)

half_of_power : (n : ℕ) → 2 ^ suc n / 2 ≡ 2 ^ n
half_of_power n = omega (arith, pow-suc 2 n)

pub bit-two_pow_same : (n : ℕ) → bit (2 ^ n) n ≡ 1
bit-two_pow_same zero = omega arith
bit-two_pow_same (suc n) = ap (λ y. bit y n) (half_of_power n) ∙ bit-two_pow_same n

pub bit-two_pow_other : (n k : ℕ) → k ≢ n → bit (2 ^ n) k ≡ 0
bit-two_pow_other zero zero h = absurd (h refl)
bit-two_pow_other zero (suc k) h = bit-zero k
bit-two_pow_other (suc n) zero h = omega (arith, pow-suc 2 n)
bit-two_pow_other (suc n) (suc k) h =
    ap (λ y. bit y k) (half_of_power n) ∙ bit-two_pow_other n k (λ e. h (ap suc e))

-- A digit times a power of two has no bit elsewhere.
pub digit_elsewhere : (b n k : ℕ) → b ≤ 1 → k ≢ n → bit (b * 2 ^ n) k ≡ 0
digit_elsewhere zero n k small h = ap (λ y. bit y k) (omega arith) ∙ bit-zero k
digit_elsewhere (suc zero) n k small h = ap (λ y. bit y k) (omega arith) ∙ bit-two_pow_other n k h
digit_elsewhere (suc (suc b)) n k small h = absurd (omega arith)

pub digit_there : (b n : ℕ) → b ≤ 1 → bit (b * 2 ^ n) n ≡ b
digit_there zero n small = ap (λ y. bit y n) (omega arith) ∙ bit-zero n
digit_there (suc zero) n small = ap (λ y. bit y n) (omega arith) ∙ bit-two_pow_same n
digit_there (suc (suc b)) n small = absurd (omega arith)

pub same_or_other : (k n : ℕ) → (k ≡ n) ⊎ (k ≢ n)
same_or_other k n = elim (le_or_lt k n) [
  | inl low ↦ elim (le_or_lt n k) [
    | inl high ↦ inl (omega arith)
    | inr less ↦ inr (λ e. absurd (omega arith))
  ]
  | inr more ↦ inr (λ e. absurd (omega arith))
]

-- A mask of one bit leaves that bit.
pub bit_and-two_pow : (x n : ℕ) → bit_and x (2 ^ n) ≡ bit x n * 2 ^ n
bit_and-two_pow x n = bit_ext _ _ λ k. elim (same_or_other k n) [
  | inl same ↦ rw same (
      omega (
        arith,
        bit-bit_and x (2 ^ n) n,
        bit-two_pow_same n,
        digit_there (bit x n) n (bit-le-one x n),
        bit-le-one x n,
      ))
  | inr other ↦ omega (
    arith,
    bit-bit_and x (2 ^ n) k,
    bit-two_pow_other n k other,
    digit_elsewhere (bit x n) n k (bit-le-one x n) other,
  )
]
