-- ===== src/Optiga/Dtls/Windowing/Marks.antt =====
-- The bits of the window, as the check reads and writes them.
use decada_embedded_example.Base.{
  ℕ, ◌+◌, ◌-◌, ◌≤◌, ◌<◌, ◌≡◌, ap, ◌∙◌, inl, inr, Bool, bit_and, ◌==◌, le_or_lt, arith,
}
use decada_embedded_example.Base.Word.{u32, ◌<<<◌}
use decada_embedded_example.Base.Word.Bits.{bit, bit-le-one}
use decada_embedded_example.Base.Word.Bits.Shift.{bit_and-two_pow}
use decada_embedded_example.Optiga.Util.Uint64.{Uint64, value, Words}
use decada_embedded_example.Optiga.Util.Window.{slot}
use decada_embedded_example.Optiga.Util.Window.Slots.{shifted, masked}
use decada_embedded_example.Optiga.Dtls.Windowing.{
  Window, is_marked, most_significant_bit_high, trim,
}

abbrev top_bit : ℕ → ℕ → Bool
top_bit x s = bit_and (u32 (x <<< s)) most_significant_bit_high == most_significant_bit_high

top_bit_is : (x s k : ℕ) → s + k ≡ 31 → top_bit x s ≡ (bit x k == 1)
top_bit_is x s k h =
    let there : 31 - s ≡ k = omega arith in
    let top = shifted x s 31 (omega arith) (omega arith) ∙ ap (bit x) there in
    let mask = bit_and-two_pow (u32 (x <<< s)) 31 in ground (arith, top, mask, bit-le-one x k)

-- The test reads the place of the number.
pub is_marked-slot :
    (w : Window) (d : Uint64)
    → Words d
    → 32 ≤ w.window_size
    → w.window_size ≤ 64
    → value d < w.window_size
    → is_marked w d ≡ (slot w.window_size w.window_frame (value d) == 1)
unfolding is_marked
is_marked-slot w d words low high inside =
    let size = w.window_size in
    let frame = w.window_frame in
    let zero_there : d.higher ≡ 0 = omega arith in
    let same : d.lower ≡ value d = omega arith in
    elim (le_or_lt size 32) [
      | inl narrow ↦
          ground (arith, top_bit_is frame.higher (32 - d.lower - 1) (value d) (omega arith))
      | inr wide ↦ elim (le_or_lt 32 (value d)) [
        | inl far ↦ ground (
          arith,
          zero_there,
          top_bit_is frame.higher (64 - d.lower - 1) (value d - 32) (omega arith),
        )
        | inr near ↦
            ground
              (arith, zero_there, top_bit_is frame.lower (32 - d.lower - 1) (value d) (omega arith))
      ]
    ]

-- The mask leaves the places of the window.
pub trim-slot :
    (size : ℕ) (f : Uint64) (d : ℕ)
    → 32 ≤ size
    → size ≤ 64
    → d < size
    → slot size (trim size f) d ≡ slot size f d
trim-slot size f d low high inside = elim (le_or_lt size 32) [
  | inl narrow ↦ ground arith
  | inr wide ↦ elim (le_or_lt 32 d) [
    | inl far ↦ ground (arith, masked f.higher size (d - 32) low high (omega arith))
    | inr near ↦ ground arith
  ]
]
