-- ===== src/Optiga/Dtls/Tests.antt =====
-- Runs of the anti-replay check at concrete inputs.
use decada_embedded_example.Base.{ℕ, ◌^◌, ◌≡◌, ◌<◌, refl, List, [], ◌∷◌, false, arith}
use decada_embedded_example.Optiga.Util.Uint64.{Uint64, Words, compare_uint64, subtract_uint64}
use decada_embedded_example.Optiga.Util.Window.{shift_left_uint64, set_bit_uint64}
use decada_embedded_example.Optiga.Dtls.Windowing.{
  validated, rejected, initial_window, check_replay, slide, mark, is_marked,
}
use decada_embedded_example.Optiga.Dtls.Windowing.Refine.{Checked}
use decada_embedded_example.Optiga.Dtls.Windowing.Check.{check_replay-Checked}
use decada_embedded_example.Optiga.Dtls.Windowing.Replay.{
  Arrival, accepted_of, initial-Sound, initial-Represents,
}

abbrev number : ℕ → Uint64
number n = record { higher = 0; lower = n }

number-Words : (n : ℕ) → n < 2 ^ 32 → Words (number n)
number-Words n h = record { high_word = omega arith; low_word = h }

abbrev arrivals : List Arrival
arrivals =
    (number 5, validated)
    ∷ (number 40, validated)
    ∷ (number 5, validated)
    ∷ (number 41, rejected)
    ∷ (number 40, validated)
    ∷ (number 9, validated)
    ∷ []

-- The second 5 is below the window, the second 40 is seen.
taken_numbers : accepted_of initial_window arrivals ≡ 5 ∷ 40 ∷ 9 ∷ []
unfolding check_replay slide mark is_marked compare_uint64 subtract_uint64 shift_left_uint64
    set_bit_uint64
taken_numbers = refl

check_replay-Checked_example :
    Checked validated initial_window
      (λ n. false)
      (check_replay validated initial_window).0
      (check_replay validated initial_window).1
check_replay-Checked_example =
    check_replay-Checked validated initial_window (λ n. false) initial-Sound initial-Represents
