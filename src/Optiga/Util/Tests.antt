-- ===== src/Optiga/Util/Tests.antt =====
-- Runs of the helpers at concrete inputs.
use decada_embedded_example.Base.{ℕ, List, [], ◌∷◌, arith}
use decada_embedded_example.Optiga.Util.Uint64.{Uint64, Words}
use decada_embedded_example.Optiga.Util.Memmove.{Moved, memmove, memmove-Moved}

abbrev one : Uint64
one = record { higher = 1; lower = 0 }

abbrev below_one : Uint64
below_one = record { higher = 0; lower = 0xffffffff }

one-Words : Words one
one-Words = record { high_word = omega arith; low_word = omega arith }

below_one-Words : Words below_one
below_one-Words = record { high_word = omega arith; low_word = omega arith }

abbrev bytes : List ℕ
bytes = 1 ∷ 2 ∷ 3 ∷ 4 ∷ 5 ∷ []

memmove-Moved_example : Moved bytes (memmove bytes 1 0 4) 1 0 0 4
memmove-Moved_example = memmove-Moved bytes 1 0 4 (omega arith)
