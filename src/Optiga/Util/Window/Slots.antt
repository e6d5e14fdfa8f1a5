-- ===== src/Optiga/Util/Window/Slots.antt =====
-- Where the bits of a window go when it is shifted.
use decada_embedded_example.Base.{
  ℕ, ◌+◌, ◌-◌, ◌*◌, ◌/◌, ◌^◌, ◌≤◌, ◌<◌, ◌≡◌, inl, inr, refl, sym, ap, ap₂, subst, ◌∙◌, max, bit_and,
  bit_or, true, ◌==◌, arith, all_below, all_below_sound, ==_iff, le_or_lt, Bool,
}
use decada_embedded_example.Base.Word.{u32, ◌<<<◌, ◌>>>◌}
use decada_embedded_example.Base.Word.Bits.{bit, bit-zero, bit-bit_or, bit_and_mask}
use decada_embedded_example.Base.Word.Bits.Shift.{
  bit-div, bit-mul, bit-mul_low, bit-mod, bit-mod_high,
}
use decada_embedded_example.Optiga.Util.Window.{mask_double_word, shift_left_uint64, slot}
use decada_embedded_example.Optiga.Util.Uint64.{Uint64, compare_uint64, value, Words}

-- A bit of a word that is shifted to the left.
shifted_in : (x c k : ℕ) → k < 32 → k < c → bit (u32 (x <<< c)) k ≡ 0
shifted_in x c k h low = bit-mod (x * 2 ^ c) 32 k h ∙ bit-mul_low x c k low

pub shifted : (x c k : ℕ) → k < 32 → c ≤ k → bit (u32 (x <<< c)) k ≡ bit x (k - c)
shifted x c k h low =
    let back : c + (k - c) ≡ k = omega arith in
    bit-mod (x * 2 ^ c) 32 k h ∙ ap (λ j. bit (x * 2 ^ c) j) (sym back) ∙ bit-mul x c (k - c)

mask_test : ℕ → Bool
mask_test m = mask_double_word / 2 ^ (32 - m) == 2 ^ m - 1

mask_table : all_below 33 mask_test ≡ true
unfolding all_below mask_test
mask_table = refl

mask_is : (m : ℕ) → m ≤ 32 → mask_double_word / 2 ^ (32 - m) ≡ 2 ^ m - 1
unfolding mask_test
mask_is m h =
    (==_iff (mask_double_word / 2 ^ (32 - m)) (2 ^ m - 1)).0
      (all_below_sound 33 mask_test m mask_table (omega arith))

-- The mask leaves the bits inside of the window.
pub masked :
    (y size k : ℕ)
    → 32 ≤ size
    → size ≤ 64
    → k + 32 < size
    → bit (bit_and y (mask_double_word >>> (64 - size))) k ≡ bit y k
masked y size k low high inside =
    let same : 64 - size ≡ 32 - (size - 32) = omega arith in
    let is = ap (λ s. mask_double_word / 2 ^ s) same ∙ mask_is (size - 32) (omega arith) in
    ap (λ m. bit (bit_and y m) k) is
    ∙ ap (λ z. bit z k) (bit_and_mask (size - 32) y)
    ∙ bit-mod y (size - 32) k (omega arith)

pub above : (x k : ℕ) → x < 2 ^ 32 → 32 ≤ k → bit x k ≡ 0
above x k small h = ap (λ y. bit y k) (omega arith) ∙ bit-mod_high x 32 k h

module _ (size : ℕ) (f : Uint64) (d : ℕ) where
  pub slot_narrow : size ≡ 32 → slot size f d ≡ bit f.higher d
  slot_narrow h = ground arith

  pub slot_low : 32 < size → d < 32 → slot size f d ≡ bit f.lower d
  slot_low h low = ground arith

  pub slot_high : 32 < size → 32 ≤ d → slot size f d ≡ bit f.higher (d - 32)
  slot_high h high = ground arith

module _ (f count : Uint64) (size : ℕ) (words : Words count) (low : 32 ≤ size)
    (high : size ≤ 64) where
  shifts_out :
      size ≤ value count → shift_left_uint64 f count size 64 ≡ record { higher = 0; lower = 0 }
  unfolding shift_left_uint64 compare_uint64
  shifts_out h = ground (arith, words.low_word)

-- The count as a number below the size.
abbrev times : ℕ → Uint64
times c = record { higher = 0; lower = c }

abbrev words_of : ℕ → ℕ → Uint64
words_of a b = record { higher = a; lower = b }

count_is : (count : Uint64) → value count < 64 → count ≡ times (value count)
count_is count h =
    let zero_there : count.higher ≡ 0 = omega arith in
    let low_is : count.lower ≡ value count = omega arith in ap₂ words_of zero_there low_is

module _ (f : Uint64) (c size : ℕ) (less : c < size) where
  shifts_narrow :
      size ≡ 32
      → shift_left_uint64 f (times c) size 64 ≡ record { higher = u32 (f.higher <<< c); lower = 0 }
  unfolding shift_left_uint64 compare_uint64
  shifts_narrow narrow = ground arith

  shifts_far :
      32 < size
      → 32 ≤ c
      → shift_left_uint64 f (times c) size 64 ≡ record {
        higher = bit_and (u32 (f.lower <<< (c - 32))) (mask_double_word >>> (64 - size));
        lower = 0;
      }
  unfolding shift_left_uint64 compare_uint64
  shifts_far wide far = ground arith

  shifts_near :
      32 < size
      → c < 32
      → shift_left_uint64 f (times c) size 64 ≡ record {
        higher =
            bit_and
              (bit_or (u32 (f.higher <<< c)) (f.lower >>> (32 - c)))
              (mask_double_word >>> (64 - size));
        lower = u32 (f.lower <<< c);
      }
  unfolding shift_left_uint64 compare_uint64
  shifts_near wide near = ground arith

empty : (size d : ℕ) → slot size (record { higher = 0; lower = 0 }) d ≡ 0
empty size d = ground (arith, bit-zero d, bit-zero (d - 32))

-- Where the bit for `d` comes from, when the window is shifted `c` times.
abbrev Moved : ℕ → Uint64 → Uint64 → ℕ → ℕ → Type 0
Moved size f after c d =
    (d < c → slot size after d ≡ 0) × (c ≤ d → slot size after d ≡ slot size f (d - c))

narrow_case :
    (f : Uint64) (c size d : ℕ)
    → size ≡ 32
    → c < size
    → d < size
    → Moved size f (shift_left_uint64 f (times c) size 64) c d
narrow_case f c size d narrow less inside =
    let after = shift_left_uint64 f (times c) size 64 in
    let here =
      slot_narrow size after d narrow
      ∙ ap (λ (w : Uint64). bit w.higher d) (shifts_narrow f c size less narrow) in
    (
      λ low. here ∙ shifted_in f.higher c d (omega arith) low,
      λ high.
          here ∙ shifted f.higher c d (omega arith) high ∙ sym (slot_narrow size f (d - c) narrow),
    )

far_case :
    (f : Uint64) (c size d : ℕ)
    → 32 < size
    → size ≤ 64
    → 32 ≤ c
    → c < size
    → d < size
    → Moved size f (shift_left_uint64 f (times c) size 64) c d
far_case f c size d wide large far less inside =
    let after = shift_left_uint64 f (times c) size 64 in
    let is = shifts_far f c size less wide far in
    elim (le_or_lt 32 d) [
      | inl high ↦
          let k = d - 32 in
          let here =
            slot_high size after d wide high
            ∙ ap (λ (w : Uint64). bit w.higher k) is
            ∙ masked (u32 (f.lower <<< (c - 32))) size k (omega arith) large (omega arith) in
          let same : k - (c - 32) ≡ d - c = omega arith in
          (
            λ low. here ∙ shifted_in f.lower (c - 32) k (omega arith) (omega arith),
            λ up.
                here
                ∙ shifted f.lower (c - 32) k (omega arith) (omega arith)
                ∙ ap (bit f.lower) same
                ∙ sym (slot_low size f (d - c) wide (omega arith)),
          )
      | inr low ↦
          let here =
            slot_low size after d wide low ∙ ap (λ (w : Uint64). bit w.lower d) is ∙ bit-zero d in
          (λ _. here, λ up. absurd (omega arith))
    ]

near_case :
    (f : Uint64) (c size d : ℕ)
    → Words f
    → 32 < size
    → size ≤ 64
    → c < 32
    → d < size
    → Moved size f (shift_left_uint64 f (times c) size 64) c d
near_case f c size d words wide large near inside =
    let after = shift_left_uint64 f (times c) size 64 in
    let is = shifts_near f c size (omega arith) wide near in
    elim (le_or_lt 32 d) [
      | inl high ↦
          let k = d - 32 in
          let from_high = u32 (f.higher <<< c) in
          let from_low = f.lower >>> (32 - c) in
          let here : slot size after d ≡ max (bit from_high k) (bit from_low k) =
            slot_high size after d wide high
            ∙ ap (λ (w : Uint64). bit w.higher k) is
            ∙ masked (bit_or from_high from_low) size k (omega arith) large (omega arith)
            ∙ bit-bit_or from_high from_low k in
          let over = bit-div f.lower (32 - c) k in
          (
            λ low. absurd (omega arith),
            λ up. elim (le_or_lt c k) [
              | inl past ↦
                  let same : k - c ≡ d - c - 32 = omega arith in
                  let a = shifted f.higher c k (omega arith) past in
                  let b = above f.lower (32 - c + k) words.low_word (omega arith) in
                  let there = slot_high size f (d - c) wide (omega arith) in
                  omega (arith, here, a, ap (bit f.higher) same, over, b, there)
              | inr before ↦
                  let same : 32 - c + k ≡ d - c = omega arith in
                  let a = shifted_in f.higher c k (omega arith) before in
                  let there = slot_low size f (d - c) wide (omega arith) in
                  omega (arith, here, a, over, ap (bit f.lower) same, there)
            ],
          )
      | inr low ↦
          let here = slot_low size after d wide low ∙ ap (λ (w : Uint64). bit w.lower d) is in
          (
            λ out. here ∙ shifted_in f.lower c d low out,
            λ up.
                here
                ∙ shifted f.lower c d low up
                ∙ sym (slot_low size f (d - c) wide (omega arith)),
          )
    ]

-- The shift moves every bit of the window up by the count: a place is empty when the count reaches
-- over it, and has what stood the count below it otherwise.
pub shift_left_uint64-slot :
    (f count : Uint64) (size d : ℕ)
    → Words f
    → Words count
    → 32 ≤ size
    → size ≤ 64
    → d < size
    → (d < value count → slot size (shift_left_uint64 f count size 64) d ≡ 0)
      × (value count ≤ d
          → slot size (shift_left_uint64 f count size 64) d ≡ slot size f (d - value count))
shift_left_uint64-slot f count size d words count_words low high inside =
    elim (le_or_lt size (value count)) [
      | inl big ↦ (
        λ out.
            ap (λ w. slot size w d) (shifts_out f count size count_words low high big)
            ∙ empty size d,
        λ up. absurd (omega arith),
      )
      | inr less ↦
          let c = value count in
          let moved : Moved size f (shift_left_uint64 f (times c) size 64) c d =
            elim (le_or_lt size 32) [
              | inl narrow ↦ narrow_case f c size d (omega arith) less inside
              | inr wide ↦ elim (le_or_lt 32 c) [
                | inl far ↦ far_case f c size d wide high far less inside
                | inr near ↦ near_case f c size d words wide high near inside
              ]
            ] in
          subst (λ w. Moved size f (shift_left_uint64 f w size 64) c d)
            (sym (count_is count (omega arith))) moved
    ]
