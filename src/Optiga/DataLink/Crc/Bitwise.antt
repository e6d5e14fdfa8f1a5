-- ===== src/Optiga/DataLink/Crc/Bitwise.antt =====
-- The table-free CRC step is the bit-serial CRC-16 with the reflected polynomial 0x8408 (X.25).
use decada_embedded_example.Base.{
  ℕ, true, zero, suc, ◌+◌, ◌*◌, ◌/◌, ◌%◌, ◌^◌, ◌<◌, ◌≡◌, ◌⊎◌, inl, inr, refl, ap, ap₂, sym, ◌∙◌,
  bit_and, bit_xor, arith, ◌==◌, ==_iff, all_below, all_below_sound, if◌then◌else◌,
}
use decada_embedded_example.Base.Word.Bits.{bit_and_mask, bit_xor_half}
use decada_embedded_example.Base.Word.Xor.{xor_comm, xor-zero, xor_swap, xor_fields, xor-div}
use decada_embedded_example.Optiga.DataLink.Crc.{crc_low, calc_crc_byte}
use native.Mathlib.Nat.{div-eq_of_lt, pow-suc}

-- What the bit that is shifted out adds: the polynomial, or nothing.
abbrev pub feedback : ℕ → ℕ
feedback b = if b == 0 then 0 else 0x8408

unfoldable pub shift_out : ℕ → ℕ
shift_out c = bit_xor (c / 2) (feedback (c % 2))

abbrev pub shift_rounds : ℕ → ℕ → ℕ
shift_rounds zero c = c
shift_rounds (suc n) c = shift_rounds n (shift_out c)

parity : (p : ℕ) → (p % 2 ≡ 0) ⊎ (p % 2 ≡ 1)
parity p = ground arith

feedback-xor :
    (p q : ℕ) → feedback ((p % 2 + q % 2) % 2) ≡ bit_xor (feedback (p % 2)) (feedback (q % 2))
feedback-xor p q = elim (parity p) [
  | inl p0 ↦ elim (parity q) [ inl q0 ↦ rw (p0, q0) | inr q1 ↦ rw (p0, q1) ]
  | inr p1 ↦ elim (parity q) [ inl q0 ↦ rw (p1, q0) | inr q1 ↦ rw (p1, q1) ]
]

pub shift_out-xor : (a b : ℕ) → shift_out (bit_xor a b) ≡ bit_xor (shift_out a) (shift_out b)
unfolding shift_out
shift_out-xor a b =
    rw ((bit_xor_half a b).0, (bit_xor_half a b).1, feedback-xor a b)
      (xor_swap (a / 2) (b / 2) (feedback (a % 2)) (feedback (b % 2)))

pub shift_rounds-xor :
    (n a b : ℕ) → shift_rounds n (bit_xor a b) ≡ bit_xor (shift_rounds n a) (shift_rounds n b)
shift_rounds-xor zero a b = refl
shift_rounds-xor (suc n) a b =
    rw (shift_out-xor a b) (shift_rounds-xor n (shift_out a) (shift_out b))

-- Zeros shifted out add nothing.
pub shift_rounds-high : (n h : ℕ) → shift_rounds n (h * 2 ^ n) ≡ h
unfolding shift_out
shift_rounds-high zero h = omega arith
shift_rounds-high (suc n) h =
    let twice = ap (λ (t : ℕ). h * t) (pow-suc 2 n) in
    let half : h * 2 ^ suc n / 2 ≡ h * 2 ^ n = omega (arith, twice) in
    let even : h * 2 ^ suc n % 2 ≡ 0 = omega (arith, twice) in
    rw (half, even, xor-zero) (shift_rounds-high n h)

crc_low_table : all_below 256 (λ x. crc_low x == shift_rounds 8 x) ≡ true
unfolding all_below crc_low shift_out
crc_low_table = refl

pub crc_low-shift_rounds : (x : ℕ) → x < 256 → crc_low x ≡ shift_rounds 8 x
crc_low-shift_rounds x h =
    (==_iff _ (shift_rounds 8 x)).0
      (all_below_sound 256 (λ y. crc_low y == shift_rounds 8 y) x crc_low_table h)

-- Eight rounds act on the low byte, and bring the high one down.
pub shift_rounds_split :
    (x : ℕ) → shift_rounds 8 x ≡ bit_xor (shift_rounds 8 (x % 2 ^ 8)) (x / 2 ^ 8)
shift_rounds_split x =
    let split : x ≡ bit_xor (x / 2 ^ 8 * 2 ^ 8) (x % 2 ^ 8) =
      omega (arith, xor_fields 8 (x / 2 ^ 8) (x % 2 ^ 8) (omega arith)) in
    ap (shift_rounds 8) split
    ∙ shift_rounds-xor 8 (x / 2 ^ 8 * 2 ^ 8) (x % 2 ^ 8)
    ∙ ap (λ t. bit_xor t (shift_rounds 8 (x % 2 ^ 8))) (shift_rounds-high 8 (x / 2 ^ 8))
    ∙ xor_comm (x / 2 ^ 8) (shift_rounds 8 (x % 2 ^ 8))

-- On a byte, one step of the table-free computation is eight rounds of the shift register, fed
-- with the exclusive or of the seed and the byte.
pub calc_crc_byte-shift_rounds :
    (seed byte : ℕ) → byte < 256 → calc_crc_byte seed byte ≡ shift_rounds 8 (bit_xor seed byte)
unfolding calc_crc_byte
calc_crc_byte-shift_rounds seed byte h =
    let x = bit_xor seed byte in
    let low : crc_low (bit_and x 0xff) ≡ shift_rounds 8 (x % 2 ^ 8) =
      ap crc_low (bit_and_mask 8 x) ∙ crc_low-shift_rounds (x % 2 ^ 8) (omega arith) in
    let high : seed / 2 ^ 8 ≡ x / 2 ^ 8 = sym (
      xor-div 8 seed byte
      ∙ ap (bit_xor (seed / 2 ^ 8)) (div-eq_of_lt h)
      ∙ xor-zero (seed / 2 ^ 8)) in
    ap₂ bit_xor low high ∙ sym (shift_rounds_split x)
