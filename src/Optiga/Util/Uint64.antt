-- ===== src/Optiga/Util/Uint64.antt =====
-- 64-bit numbers as two words, with their comparison, difference and sum.
use decada_embedded_example.Base.{
  ℕ, ◌+◌, ◌-◌, ◌*◌, ◌%◌, ◌^◌, ◌≤◌, ◌<◌, ◌≡◌, ◌⊎◌, inl, inr, Option, none, some, Bool, true, false,
  ◌==◌, ltb, le_or_lt, if◌then◌else◌, arith,
}
use decada_embedded_example.Base.Word.{u32, sub32}

-- `sUint64`
pub record Uint64 : Type 0 where
  pub higher : ℕ
  pub lower : ℕ

-- GREATER_THAN, LESSER_THAN and EQUAL.
pub data Comparison : Type 0 where
  greater_than lesser_than equal : Comparison

-- `CompareUint64`
unfoldable pub compare_uint64 : Uint64 → Uint64 → Comparison
compare_uint64 a b =
    if a.higher == b.higher
    then (if ltb b.lower a.lower
        then greater_than
        else if ltb a.lower b.lower
        then lesser_than
        else equal)
    else if ltb b.higher a.higher
    then greater_than
    else lesser_than

abbrev pub is_lesser : Comparison → Bool
is_lesser lesser_than = true
is_lesser _ = false

-- `SubtractUint64`; `none` is UTIL_ERROR.
unfoldable pub subtract_uint64 : Uint64 → Uint64 → Option Uint64
subtract_uint64 a b =
    let low = sub32 a.lower b.lower in
    let high = sub32 a.higher b.higher in
    if is_lesser (compare_uint64 a b)
    then none
    else some (record { higher = if ltb a.lower low then sub32 high 1 else high; lower = low })

-- `AddUint64`
unfoldable pub add_uint64 : Uint64 → Uint64 → Uint64
add_uint64 a b =
    let low = u32 (a.lower + b.lower) in
    let high = u32 (a.higher + b.higher) in
    record { higher = if ltb low a.lower then u32 (high + 1) else high; lower = low }

-- `IncrementUint64`
unfoldable pub increment_uint64 : Uint64 → Uint64
increment_uint64 a = add_uint64 a (record { higher = 0; lower = 1 })

-- The number that the words stand for.
abbrev pub value : Uint64 → ℕ
value a = a.higher * 2 ^ 32 + a.lower

-- Both words have 32 bits.
pub record Words (a : Uint64) : Type 0 where
  pub high_word : a.higher < 2 ^ 32
  pub low_word : a.lower < 2 ^ 32

-- On words of 32 bits the comparison is that of the numbers that the words stand for.
pub compare_uint64-value :
    (a b : Uint64)
    → Words a
    → Words b
    → ((compare_uint64 a b ≡ greater_than) × (value b < value a))
      ⊎ (((compare_uint64 a b ≡ lesser_than) × (value a < value b))
          ⊎ ((compare_uint64 a b ≡ equal) × (value a ≡ value b)))
unfolding compare_uint64
compare_uint64-value a b va vb = ground (arith, va.low_word, vb.low_word)

-- The words of a difference that does not go below 0.
abbrev difference : Uint64 → Uint64 → Uint64
difference a b =
    let low = sub32 a.lower b.lower in
    let high = sub32 a.higher b.higher in
    record { higher = if ltb a.lower low then sub32 high 1 else high; lower = low }

difference-value :
    (a b : Uint64)
    → Words a
    → Words b
    → value b ≤ value a
    → (value (difference a b) ≡ value a - value b) × Words (difference a b)
difference-value a b va vb h =
    (ground (arith, va.low_word, vb.low_word, va.high_word, vb.high_word, h), ground arith)

-- On words of 32 bits the difference is that of the numbers, again in words of 32 bits, where the
-- first is not the smaller one, and an error where it is.
pub subtract_uint64-value :
    (a b : Uint64)
    → Words a
    → Words b
    → ((d : Uint64) × (value b ≤ value a)
        × (subtract_uint64 a b ≡ some d)
        × (value d ≡ value a - value b)
        × Words d)
      ⊎ ((value a < value b) × (subtract_uint64 a b ≡ none))
unfolding subtract_uint64 compare_uint64
subtract_uint64-value a b va vb = elim (le_or_lt (value b) (value a)) [
  | inl small ↦
      let (same, words) = difference-value a b va vb small in
      inl (difference a b, small, ground (arith, va.low_word, vb.low_word), same, words)
  | inr large ↦ inr (large, ground (arith, va.low_word, vb.low_word))
]

-- On words of 32 bits the sum is that of the numbers modulo 2 ^ 64, in words of 32 bits.
pub add_uint64-value :
    (a b : Uint64)
    → Words a
    → Words b
    → (value (add_uint64 a b) ≡ (value a + value b) % 2 ^ 64) × Words (add_uint64 a b)
unfolding add_uint64
add_uint64-value a b va vb =
    (ground (arith, va.low_word, vb.low_word, va.high_word, vb.high_word), ground arith)
