-- ===== src/Base/Word/Bits.antt =====
-- Single bits of a number, and what `|`, `&`, shifts and casts do to each of them.
mod Digits
pub mod Shift
use Digits.{bit_or_step, bit_and_step, bit_xor_step}
use Prim.Native.Nat.{
  ℕ, zero, suc, ◌+◌, ◌-◌, ◌*◌, ◌/◌, ◌%◌, ◌^◌, ◌≤◌, ◌<◌, min, max, bit_or, bit_and, bit_xor, differ,
}
use mathlib.Core.Path.{◌≡◌, refl, ap, sym, ◌∙◌}
use native.Mathlib.Nat.{
  pow-succ', pow-suc, div-div-eq-div-mul, one-le-pow, mod_def, div-mul-le_self,
}
use native.Mathlib.Omega.{arith}

-- The bit of value 2 ^ k.
abbrev pub bit : ℕ → ℕ → ℕ
bit x zero = x % 2
bit x (suc k) = bit (x / 2) k

pub bit-le-one : (x k : ℕ) → bit x k ≤ 1
bit-le-one x zero = omega arith
bit-le-one x (suc k) = bit-le-one (x / 2) k

pub bit-zero : (k : ℕ) → bit 0 k ≡ 0
bit-zero zero = refl
bit-zero (suc k) = bit-zero k

bit_or_half :
    (a b : ℕ) → (bit_or a b / 2 ≡ bit_or (a / 2) (b / 2)) × (bit_or a b % 2 ≡ max (a % 2) (b % 2))
bit_or_half a b = (omega (arith, bit_or_step a b), omega (arith, bit_or_step a b))

pub bit-bit_or : (a b k : ℕ) → bit (bit_or a b) k ≡ max (bit a k) (bit b k)
bit-bit_or a b zero = (bit_or_half a b).1
bit-bit_or a b (suc k) = rw ((bit_or_half a b).0) (bit-bit_or (a / 2) (b / 2) k)

bit_and_half :
    (a b : ℕ)
    → (bit_and a b / 2 ≡ bit_and (a / 2) (b / 2)) × (bit_and a b % 2 ≡ min (a % 2) (b % 2))
bit_and_half a b = (omega (arith, bit_and_step a b), omega (arith, bit_and_step a b))

pub bit-bit_and : (a b k : ℕ) → bit (bit_and a b) k ≡ min (bit a k) (bit b k)
bit-bit_and a b zero = (bit_and_half a b).1
bit-bit_and a b (suc k) = rw ((bit_and_half a b).0) (bit-bit_and (a / 2) (b / 2) k)

differ_parity : (x y : ℕ) → x < 2 → y < 2 → differ x y ≡ (x + y) % 2
differ_parity zero y p q = omega arith
differ_parity (suc zero) zero p q = refl
differ_parity (suc zero) (suc zero) p q = refl
differ_parity (suc zero) (suc (suc y)) p q = absurd (omega arith)
differ_parity (suc (suc x)) y p q = absurd (omega arith)

pub bit_xor_half :
    (a b : ℕ)
    → (bit_xor a b / 2 ≡ bit_xor (a / 2) (b / 2)) × (bit_xor a b % 2 ≡ (a % 2 + b % 2) % 2)
bit_xor_half a b =
    let parity = differ_parity (a % 2) (b % 2) (omega arith) (omega arith) in
    (omega (arith, bit_xor_step a b), omega (arith, bit_xor_step a b))

pub bit-bit_xor : (a b k : ℕ) → bit (bit_xor a b) k ≡ (bit a k + bit b k) % 2
bit-bit_xor a b zero = (bit_xor_half a b).1
bit-bit_xor a b (suc k) = rw ((bit_xor_half a b).0) (bit-bit_xor (a / 2) (b / 2) k)

bit_ext_below : (n a b : ℕ) → a ≤ n → b ≤ n → ((k : ℕ) → bit a k ≡ bit b k) → a ≡ b
bit_ext_below zero a b p q h = omega arith
bit_ext_below (suc n) a b p q h =
    let parity = h 0 in
    let halves = bit_ext_below n (a / 2) (b / 2) (omega arith) (omega arith) (λ k. h (suc k)) in
    omega arith

-- A number is its bits.
pub bit_ext : (a b : ℕ) → ((k : ℕ) → bit a k ≡ bit b k) → a ≡ b
bit_ext a b h = bit_ext_below (max a b) a b (omega arith) (omega arith) h

-- One step of a division, and of a remainder, by a power of two.
pub div-two-pow-suc : (a k : ℕ) → a / 2 ^ suc k ≡ a / 2 / 2 ^ k
div-two-pow-suc a k = rw pow-succ' (sym (div-div-eq-div-mul a 2 (2 ^ k)))

pub mod-two-pow-suc : (a k : ℕ) → a % 2 ^ suc k ≡ a / 2 % 2 ^ k * 2 + a % 2
mod-two-pow-suc a k = omega (
  arith,
  mod_def a (2 ^ suc k),
  mod_def (a / 2) (2 ^ k),
  ap (λ (t : ℕ). 2 ^ suc k * t) (div-two-pow-suc a k),
  ap (λ (t : ℕ). t * (a / 2 / 2 ^ k)) (pow-suc 2 k),
  div-mul-le_self (a / 2) (2 ^ k),
)

bit_and-zero : (a : ℕ) → bit_and a 0 ≡ 0
bit_and-zero a = bit_ext _ _ λ k. omega (arith, bit-bit_and a 0 k, bit-zero k)

-- A mask of `k` low bits is the remainder by 2 ^ k.
pub bit_and_mask : (k a : ℕ) → bit_and a (2 ^ k - 1) ≡ a % 2 ^ k
bit_and_mask zero a = omega (arith, bit_and-zero a)
bit_and_mask (suc k) a =
    let mask : (2 ^ suc k - 1) / 2 ≡ 2 ^ k - 1 = omega (arith, pow-suc 2 k) in
    omega (
      arith,
      pow-suc 2 k,
      one-le-pow k 2,
      bit_and_half a (2 ^ suc k - 1),
      ap (bit_and (a / 2)) mask,
      bit_and_mask k (a / 2),
      mod-two-pow-suc a k,
    )

-- `(q << k) | r` is a sum when `r` fits `k` bits.
pub or_fields : (k q r : ℕ) → r < 2 ^ k → bit_or (q * 2 ^ k) r ≡ q * 2 ^ k + r
or_fields zero q r fits =
    let r0 : r ≡ 0 = omega arith in
    rw r0 (
      bit_ext _ _
        λ k. omega (arith, bit-bit_or (q * 1) 0 k, bit-zero k, ap (λ (t : ℕ). bit t k) (same q)))
  where
    same : (n : ℕ) → n * 1 + 0 ≡ n * 1
    same n = omega arith
or_fields (suc k) q r fits =
    let twice = ap (λ (t : ℕ). q * t) (pow-suc 2 k) in
    let half : q * 2 ^ suc k / 2 ≡ q * 2 ^ k = omega (arith, twice) in
    omega (
      arith,
      twice,
      bit_or_half (q * 2 ^ suc k) r,
      ap (λ (t : ℕ). bit_or t (r / 2)) half,
      or_fields k q (r / 2) (omega (arith, pow-suc 2 k)),
    )

-- The bits of two numbers together take no more bits than each.
pub bit_or-lt : (k a b : ℕ) → a < 2 ^ k → b < 2 ^ k → bit_or a b < 2 ^ k
bit_or-lt zero a b ha hb =
    let ea : a ≡ 0 = omega arith in let eb : b ≡ 0 = omega arith in rw (ea, eb) (omega arith)
bit_or-lt (suc k) a b ha hb =
    let ih = bit_or-lt k (a / 2) (b / 2) (omega arith) (omega arith) in
    omega (arith, bit_or_step a b, ih)
