-- ===== src/Optiga/Util/Window/SetBit.antt =====
-- The bits of a window when one is set, and the size of its words.
use native.Mathlib.Nat.{div-le_self}
use decada_embedded_example.Base.{
  ℕ, ◌+◌, ◌-◌, ◌*◌, ◌%◌, ◌^◌, ◌≤◌, ◌<◌, ◌≡◌, ◌≢◌, inl, inr, refl, sym, ap, subst, ◌∙◌, bit_and,
  bit_or, some, true, not, ◌==◌, ltb, leb, arith, all_below, all_below_sound, le_or_lt, Bool,
  Bool-cases,
}
use decada_embedded_example.Base.Word.{u32, ◌<<<◌, ◌>>>◌}
use decada_embedded_example.Base.Word.Bits.{bit, bit-bit_and, bit_ext, bit-le-one, bit-bit_or}
use decada_embedded_example.Base.Word.Bits.Shift.{
  digit_there, digit_elsewhere, bit-mod, bit-mod_high, same_or_other,
}
use decada_embedded_example.Optiga.Util.Window.{
  mask_double_word, shift_left_uint64, set_bit_uint64, slot,
}
use decada_embedded_example.Optiga.Util.Window.Slots.{above, slot_narrow, slot_low, slot_high}
use decada_embedded_example.Optiga.Util.Uint64.{Uint64, compare_uint64, is_lesser, Words}

-- A word with one bit set.
with_bit : (x n : ℕ) → bit (bit_or x (1 <<< n)) n ≡ 1
with_bit x n =
    omega (arith, bit-bit_or x (1 * 2 ^ n) n, digit_there 1 n (omega arith), bit-le-one x n)

with_other : (x n k : ℕ) → k ≢ n → bit (bit_or x (1 <<< n)) k ≡ bit x k
with_other x n k h =
    omega (arith, bit-bit_or x (1 * 2 ^ n) k, digit_elsewhere 1 n k (omega arith) h)

-- What a set bit at `n` does to the place `d`.
abbrev Set : ℕ → Uint64 → Uint64 → ℕ → ℕ → Type 0
Set size f after n d = (d ≡ n → slot size after d ≡ 1) × (d ≢ n → slot size after d ≡ slot size f d)

set_narrow :
    (f : Uint64) (size n d : ℕ)
    → size ≡ 32
    → Set size f (record f { higher = bit_or f.higher (1 <<< n) }) n d
set_narrow f size n d narrow =
    let after : Uint64 = record f { higher = bit_or f.higher (1 <<< n) } in
    let here = slot_narrow size after d narrow in
    (
      λ same. here ∙ ap (bit after.higher) same ∙ with_bit f.higher n,
      λ other. here ∙ with_other f.higher n d other ∙ sym (slot_narrow size f d narrow),
    )

set_low :
    (f : Uint64) (size n d : ℕ)
    → 32 < size
    → n < 32
    → Set size f (record f { lower = bit_or f.lower (1 <<< n) }) n d
set_low f size n d wide small =
    let after : Uint64 = record f { lower = bit_or f.lower (1 <<< n) } in
    elim (le_or_lt 32 d) [
      | inl high ↦ (
        λ same. absurd (omega arith),
        λ other. slot_high size after d wide high ∙ sym (slot_high size f d wide high),
      )
      | inr low ↦
          let here = slot_low size after d wide low in
          (
            λ same. here ∙ ap (bit after.lower) same ∙ with_bit f.lower n,
            λ other. here ∙ with_other f.lower n d other ∙ sym (slot_low size f d wide low),
          )
    ]

set_high :
    (f : Uint64) (size n d : ℕ)
    → 32 < size
    → Set size f (record f { higher = bit_or f.higher (1 <<< n) }) (n + 32) d
set_high f size n d wide =
    let after : Uint64 = record f { higher = bit_or f.higher (1 <<< n) } in
    elim (le_or_lt 32 d) [
      | inl high ↦
          let here = slot_high size after d wide high in
          (
            λ same.
                let there : d - 32 ≡ n = omega arith in
                here ∙ ap (bit after.higher) there ∙ with_bit f.higher n,
            λ other.
                let elsewhere : d - 32 ≢ n = λ e. other (omega arith) in
                here
                ∙ with_other f.higher n (d - 32) elsewhere
                ∙ sym (slot_high size f d wide high),
          )
      | inr low ↦ (
        λ same. absurd (omega arith),
        λ other. slot_low size after d wide low ∙ sym (slot_low size f d wide low),
      )
    ]

bit_or_word : (a b : ℕ) → a < 2 ^ 32 → b < 2 ^ 32 → bit_or a b < 2 ^ 32
bit_or_word a b ha hb =
    let same : bit_or a b % 2 ^ 32 ≡ bit_or a b = bit_ext _ _ λ k. elim (le_or_lt 32 k) [
      | inl high ↦ omega (
        arith,
        bit-mod_high (bit_or a b) 32 k high,
        bit-bit_or a b k,
        above a k ha high,
        above b k hb high,
      )
      | inr low ↦ bit-mod (bit_or a b) 32 k low
    ] in
    omega (arith, same)

power_test : ℕ → Bool
power_test n = ltb (1 <<< n) (2 ^ 32)

power_table : all_below 32 power_test ≡ true
unfolding all_below power_test
power_table = refl

power_word : (n : ℕ) → n < 32 → 1 <<< n < 2 ^ 32
unfolding power_test
power_word n h = ground (arith, all_below_sound 32 power_test n power_table h)

module _ (f : Uint64) (size position : ℕ) (inside : position ≤ size) where
  abbrev place : ℕ
  place = size - position - 1

  sets_narrow :
      size ≡ 32
      → set_bit_uint64 f size position ≡ some (record f { higher = bit_or f.higher (1 <<< place) })
  unfolding set_bit_uint64
  sets_narrow narrow = elim (same_or_other position size) [
    | inl same ↦ let zero_place : place ≡ 0 = omega arith in rw zero_place (ground arith)
    | inr other ↦ ground arith
  ]

  sets_low :
      32 < size
      → place < 32
      → set_bit_uint64 f size position ≡ some (record f { lower = bit_or f.lower (1 <<< place) })
  unfolding set_bit_uint64
  sets_low wide near = elim (same_or_other position size) [
    | inl same ↦ let zero_place : place ≡ 0 = omega arith in rw zero_place (ground arith)
    | inr other ↦ ground arith
  ]

  sets_high :
      32 < size
      → 32 ≤ place
      → set_bit_uint64 f size position
        ≡ some (record f { higher = bit_or f.higher (1 <<< (place - 32)) })
  unfolding set_bit_uint64
  sets_high wide far =
      let same : place - 32 ≡ size - position - 32 - 1 = omega arith in rw same (ground arith)

pub bit_and_word : (a b : ℕ) → a < 2 ^ 32 → bit_and a b < 2 ^ 32
bit_and_word a b ha =
    let same : bit_and a b % 2 ^ 32 ≡ bit_and a b = bit_ext _ _ λ k. elim (le_or_lt 32 k) [
      | inl high ↦
          omega (arith, bit-mod_high (bit_and a b) 32 k high, bit-bit_and a b k, above a k ha high)
      | inr low ↦ bit-mod (bit_and a b) 32 k low
    ] in
    omega (arith, same)

-- A bit is set at a position up to the size of the window. Then the place that is as far below the
-- upper bound as the position is from it is set, where the size itself means the upper bound, and every
-- other place is as before; the words keep their size.
pub set_bit_uint64-slot :
    (f : Uint64) (size position : ℕ)
    → Words f
    → 32 ≤ size
    → size ≤ 64
    → position ≤ size
    → (after : Uint64) × (set_bit_uint64 f size position ≡ some after)
      × Words after
      × ((d : ℕ) → Set size f after (size - position - 1) d)
set_bit_uint64-slot f size position words low high inside =
    let n = size - position - 1 in
    elim (le_or_lt size 32) [
      | inl narrow ↦ (
        record f { higher = bit_or f.higher (1 <<< n) },
        sets_narrow f size position inside (omega arith),
        record {
          high_word = bit_or_word f.higher (1 <<< n) words.high_word (power_word n (omega arith));
          low_word = words.low_word;
        },
        λ d. set_narrow f size n d (omega arith),
      )
      | inr wide ↦ elim (le_or_lt 32 n) [
        | inl far ↦ (
          record f { higher = bit_or f.higher (1 <<< (n - 32)) },
          sets_high f size position inside wide far,
          record {
            high_word =
                bit_or_word f.higher (1 <<< (n - 32)) words.high_word
                  (power_word (n - 32) (omega arith));
            low_word = words.low_word;
          },
          λ d.
              subst (λ m. Set size f (record f { higher = bit_or f.higher (1 <<< (n - 32)) }) m d)
                (omega arith) (set_high f size (n - 32) d wide),
        )
        | inr near ↦ (
          record f { lower = bit_or f.lower (1 <<< n) },
          sets_low f size position inside wide near,
          record {
            high_word = words.high_word;
            low_word = bit_or_word f.lower (1 <<< n) words.low_word (power_word n near);
          },
          λ d. set_low f size n d wide near,
        )
      ]
    ]

-- The words of a shifted window keep their size.
pub shift_left_uint64-Words :
    (f count : Uint64) (size : ℕ) → Words f → Words (shift_left_uint64 f count size 64)
unfolding shift_left_uint64
shift_left_uint64-Words f count size words =
    let mask = mask_double_word >>> (64 - size) in
    let small = div-le_self f.lower (2 ^ (32 - count.lower)) in
    let far = bit_and_word (u32 (f.lower <<< (count.lower - 32))) mask (omega arith) in
    let joined =
      bit_or_word (u32 (f.higher <<< count.lower)) (f.lower >>> (32 - count.lower)) (omega arith)
        (omega (arith, small, words.low_word)) in
    let near =
      bit_and_word (bit_or (u32 (f.higher <<< count.lower)) (f.lower >>> (32 - count.lower))) mask
        joined in
    elim (Bool-cases
      (not (is_lesser (compare_uint64 count (record { higher = 0; lower = size }))))) [
        | inl big ↦ rw big (record { high_word = omega arith; low_word = omega arith })
        | inr less ↦ elim (Bool-cases (size == 32)) [
          | inl narrow ↦
              rw (less, narrow) (record { high_word = omega arith; low_word = omega arith })
          | inr wide ↦ elim (Bool-cases (leb 32 count.lower)) [
            | inl long ↦ rw (less, wide, long) (record { high_word = far; low_word = omega arith })
            | inr short ↦
                rw (less, wide, short) (record { high_word = near; low_word = omega arith })
          ]
        ]
      ]
