-- ===== src/Base/Word/Xor.antt =====
-- Exclusive or as a group operation, and against disjoint bit fields.
use Prim.Native.Nat.{ℕ, zero, suc, ◌+◌, ◌*◌, ◌/◌, ◌%◌, ◌^◌, ◌<◌, bit_xor}
use mathlib.Core.Path.{◌≡◌, ap, ap₂, sym, ◌∙◌}
use native.Mathlib.Omega.{arith}
use decada_embedded_example.Base.Word.Bits.{
  bit-le-one, bit-zero, bit-bit_xor, bit_xor_half, bit_ext, div-two-pow-suc, mod-two-pow-suc,
}
use native.Mathlib.Nat.{
  pow-suc, div-one, one-le-pow, mul-div_left, mul-mod_left, div-eq_of_lt, mod-eq_of_lt,
  div-add-mod',
}

pub xor_comm : (a b : ℕ) → bit_xor a b ≡ bit_xor b a
xor_comm a b = bit_ext _ _ λ k. omega (arith, bit-bit_xor a b k, bit-bit_xor b a k)

pub xor_assoc : (a b c : ℕ) → bit_xor (bit_xor a b) c ≡ bit_xor a (bit_xor b c)
xor_assoc a b c = bit_ext _ _ λ k. omega (
  arith,
  bit-bit_xor (bit_xor a b) c k,
  bit-bit_xor a b k,
  bit-bit_xor a (bit_xor b c) k,
  bit-bit_xor b c k,
)

pub xor-zero : (a : ℕ) → bit_xor a 0 ≡ a
xor-zero a = bit_ext _ _ λ k. omega (arith, bit-bit_xor a 0 k, bit-zero k, bit-le-one a k)

-- A second exclusive or undoes the first.
pub xor_cancel : (a b : ℕ) → bit_xor (bit_xor a b) b ≡ a
xor_cancel a b =
    bit_ext _ _ λ k. omega (arith, bit-bit_xor (bit_xor a b) b k, bit-bit_xor a b k, bit-le-one a k)

pub xor_inj : (a b c : ℕ) → bit_xor a c ≡ bit_xor b c → a ≡ b
xor_inj a b c h = sym (xor_cancel a c) ∙ ap (λ t. bit_xor t c) h ∙ xor_cancel b c

-- Both operands are halved together.
pub xor-lt : (k a b : ℕ) → a < 2 ^ k → b < 2 ^ k → bit_xor a b < 2 ^ k
xor-lt zero a b p q =
    let a0 : a ≡ 0 = omega arith in let b0 : b ≡ 0 = omega arith in rw (a0, b0) (omega arith)
xor-lt (suc k) a b p q = omega (
  arith,
  pow-suc 2 k,
  bit_xor_half a b,
  xor-lt k (a / 2) (b / 2) (omega (arith, pow-suc 2 k)) (omega (arith, pow-suc 2 k)),
)

-- The low `k` bits, and those above them, of an exclusive or.
pub xor-mod : (k a b : ℕ) → bit_xor a b % 2 ^ k ≡ bit_xor (a % 2 ^ k) (b % 2 ^ k)
xor-mod zero a b =
    let a0 : a % 1 ≡ 0 = omega arith in
    let b0 : b % 1 ≡ 0 = omega arith in rw (a0, b0) (omega arith)
xor-mod (suc k) a b =
    let a2 : a % 2 ^ suc k / 2 ≡ a / 2 % 2 ^ k = omega (arith, mod-two-pow-suc a k) in
    let b2 : b % 2 ^ suc k / 2 ≡ b / 2 % 2 ^ k = omega (arith, mod-two-pow-suc b k) in
    omega (
      arith,
      mod-two-pow-suc (bit_xor a b) k,
      mod-two-pow-suc a k,
      mod-two-pow-suc b k,
      bit_xor_half a b,
      ap (λ (t : ℕ). t % 2 ^ k) (bit_xor_half a b).0,
      bit_xor_half (a % 2 ^ suc k) (b % 2 ^ suc k),
      xor-mod k (a / 2) (b / 2),
      ap₂ bit_xor a2 b2,
    )

pub xor-div : (k a b : ℕ) → bit_xor a b / 2 ^ k ≡ bit_xor (a / 2 ^ k) (b / 2 ^ k)
xor-div zero a b = rw (div-one, div-one, div-one)
xor-div (suc k) a b =
    rw (div-two-pow-suc, div-two-pow-suc, div-two-pow-suc, (bit_xor_half a b).0)
      (xor-div k (a / 2) (b / 2))

-- `(q << k) ^ r` is a sum when `r` fits `k` bits.
pub xor_fields : (k q r : ℕ) → r < 2 ^ k → bit_xor (q * 2 ^ k) r ≡ q * 2 ^ k + r
xor_fields k q r fits =
    let whole = bit_xor (q * 2 ^ k) r in
    let high : whole / 2 ^ k ≡ q =
      xor-div k (q * 2 ^ k) r
      ∙ ap₂ bit_xor (mul-div_left q (one-le-pow k 2 (omega arith))) (div-eq_of_lt fits)
      ∙ xor-zero q in
    let low : whole % 2 ^ k ≡ r =
      xor-mod k (q * 2 ^ k) r
      ∙ ap₂ bit_xor (mul-mod_left q (2 ^ k)) (mod-eq_of_lt fits)
      ∙ xor_comm 0 r
      ∙ xor-zero r in
    omega (arith, div-add-mod' whole (2 ^ k), ap (λ (t : ℕ). t * 2 ^ k) high)

-- Two exclusive ors side by side.
pub xor_swap :
    (a b c d : ℕ) → bit_xor (bit_xor a b) (bit_xor c d) ≡ bit_xor (bit_xor a c) (bit_xor b d)
xor_swap a b c d = simp xor_assoc (
    ap (bit_xor a) (sym (xor_assoc b c d) ∙ ap (λ t. bit_xor t d) (xor_comm b c) ∙ xor_assoc c b d))
