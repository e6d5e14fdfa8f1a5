-- ===== src/Optiga/Util/Window.antt =====
-- `ShiftLeftUint64` and `Utility_SetBitUint64`: the 64-bit window of the anti-replay check. A window
-- of 32 places stands in the higher word alone.
pub mod Slots
pub mod SetBit
use decada_embedded_example.Base.{
  ℕ, zero, suc, ◌+◌, ◌-◌, ◌*◌, ◌/◌, ◌%◌, ◌^◌, ◌≤◌, ◌<◌, ◌≡◌, ◌≢◌, ◌⊎◌, inl, inr, refl, sym, ap, ◌∙◌,
  max, bit_and, bit_or, Option, none, some, true, false, not, ◌==◌, ltb, leb, if◌then◌else◌, arith,
  all_below, all_below_sound, Bool, Bool-cases,
}
use decada_embedded_example.Base.Word.{u32, ◌<<<◌, ◌>>>◌}
use decada_embedded_example.Base.Word.Bits.{bit, bit-bit_or, bit_and_mask}
use decada_embedded_example.Base.Word.Bits.Shift.{
  bit-div, bit-mul, bit-mul_low, bit-mod, bit-two_pow_same, bit-two_pow_other, same_or_other,
}
use decada_embedded_example.Optiga.Util.Uint64.{
  Uint64, Comparison, lesser_than, compare_uint64, is_lesser, value, Words, compare_uint64-value,
}

-- WORD_SIZE and MASK_DOUBLE_WORD
abbrev pub word_size : ℕ
word_size = 32

abbrev pub mask_double_word : ℕ
mask_double_word = 0xffffffff

-- `ShiftLeftUint64`, which always succeeds. A count of 0, for which the code shifts by 32, is never
-- given.
unfoldable pub shift_left_uint64 : Uint64 → Uint64 → ℕ → ℕ → Uint64
shift_left_uint64 window count window_size max_window_size =
    let inside = mask_double_word >>> (max_window_size - window_size) in
    if not (is_lesser (compare_uint64 count (record { higher = 0; lower = window_size })))
    then record { higher = 0; lower = 0 }
    else if window_size == word_size
    then record { higher = u32 (window.higher <<< count.lower); lower = 0 }
    else if leb word_size count.lower
    then record {
      higher = bit_and (u32 (window.lower <<< (count.lower - word_size))) inside;
      lower = 0;
    }
    else record {
      higher =
          bit_and
            (bit_or (u32 (window.higher <<< count.lower))
              (window.lower >>> (word_size - count.lower)))
            inside;
      lower = u32 (window.lower <<< count.lower);
    }

-- `Utility_SetBitUint64`; `none` is UTIL_ERROR. Positions count from the lower bound of the window.
unfoldable pub set_bit_uint64 : Uint64 → ℕ → ℕ → Option Uint64
set_bit_uint64 window window_size position =
    let shift = window_size - position in
    if ltb window_size position
    then none
    else if position == window_size
    then (if window_size == word_size
        then some (record window { higher = bit_or window.higher 1 })
        else some (record window { lower = bit_or window.lower 1 }))
    else if window_size == word_size
    then some (record window { higher = bit_or window.higher (1 <<< (shift - 1)) })
    else if ltb word_size shift
    then some (record window { higher = bit_or window.higher (1 <<< (shift - word_size - 1)) })
    else some (record window { lower = bit_or window.lower (1 <<< (shift - 1)) })

-- The bit for the number that is `d` below the upper bound.
abbrev pub slot : ℕ → Uint64 → ℕ → ℕ
slot window_size f d =
    if window_size == word_size
    then bit f.higher d
    else if ltb d word_size
    then bit f.lower d
    else bit f.higher (d - word_size)
