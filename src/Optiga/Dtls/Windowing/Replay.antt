-- ===== src/Optiga/Dtls/Windowing/Replay.antt =====
-- Runs of the check: no number is accepted twice.
use decada_embedded_example.Base.{
  ℕ, ◌≡◌, ◌≢◌, refl, ◌∙◌, inl, inr, List, [], ◌∷◌, Bool, false, if◌then◌else◌, Bool-cases, arith,
}
use decada_embedded_example.Base.Word.Bits.{bit-zero}
use decada_embedded_example.Optiga.Util.Uint64.{Uint64, value, Words}
use decada_embedded_example.Optiga.Dtls.Windowing.{
  Window, Verdict, Outcome, check_replay, initial_window,
}
use decada_embedded_example.Optiga.Dtls.Windowing.Refine.{
  Sound, Represents, with_number, is_accepted, accepts,
}
use decada_embedded_example.Optiga.Dtls.Windowing.Check.{check_replay-Checked}

-- A record that arrives: its number, and what its validation gives.
abbrev pub Arrival : Type 0
Arrival = Uint64 × Verdict

-- The caller puts the number into the window before the check.
abbrev pub checked : Arrival → Window → Outcome × Window
checked (number, verdict) w = check_replay verdict (record w { recv_seq_number = number })

-- The numbers that are accepted, in their order.
abbrev pub accepted_of : Window → List Arrival → List ℕ
accepted_of w [] = []
accepted_of w ((number, verdict) ∷ rest) =
    let r = checked (number, verdict) w in
    let later = accepted_of r.1 rest in if is_accepted (r.0) then value number ∷ later else later

abbrev pub AllWords : List Arrival → Type 0
AllWords [] = Unit
AllWords ((number, verdict) ∷ rest) = Words number × AllWords rest

-- None of the numbers is `n`, and no number stands twice.
abbrev pub Lacks : ℕ → List ℕ → Type 0
Lacks n [] = Unit
Lacks n (m ∷ ms) = (m ≢ n) × Lacks n ms

abbrev pub NoRepeat : List ℕ → Type 0
NoRepeat [] = Unit
NoRepeat (n ∷ ns) = Lacks n ns × NoRepeat ns

abbrev pub AllUnseen : (ℕ → Bool) → List ℕ → Type 0
AllUnseen seen [] = Unit
AllUnseen seen (n ∷ ns) = (seen n ≡ false) × AllUnseen seen ns

-- What has not been seen with `n` is not `n`, and has not been seen.
pub apart :
    (n : ℕ) (seen : ℕ → Bool) (ns : List ℕ)
    → AllUnseen (with_number n seen) ns
    → Lacks n ns × AllUnseen seen ns
apart n seen [] h = (tt, tt)
apart n seen (m ∷ ms) (h, rest) =
    let (lacks, unseen) = apart n seen ms rest in ((ground arith, lacks), (ground arith, unseen))

no_repeats :
    (arrivals : List Arrival) (w : Window) (seen : ℕ → Bool)
    → AllWords arrivals
    → Sound w
    → Represents w seen
    → AllUnseen seen (accepted_of w arrivals) × NoRepeat (accepted_of w arrivals)
no_repeats [] w seen words s r = (tt, tt)
no_repeats ((number, verdict) ∷ rest) w seen (number_words, words) s r =
    let arrived : Window = record w { recv_seq_number = number } in
    let step =
      check_replay-Checked verdict arrived seen
        (record {
          recv_words = number_words;
          high_words = s.high_words;
          low_words = s.low_words;
          frame_words = s.frame_words;
          least = s.least;
          most = s.most;
          width = s.width;
        })
        (record { inside = r.inside; beyond = r.beyond }) in
    let after = (check_replay verdict arrived).1 in
    elim (Bool-cases (accepts verdict arrived seen)) [
      | inl accepted ↦
          let (unseen, distinct) =
            no_repeats rest after (with_number (value number) seen) words step.sound
              (rw accepted at step.represents) in
          let (lacks, old) = apart (value number) seen (accepted_of after rest) unseen in
          let decided = step.decision ∙ accepted in
          let new : seen (value number) ≡ false = ground arith in
          rw decided ((new, old), (lacks, distinct))
      | inr refused ↦
          let kept = no_repeats rest after seen words step.sound (rw refused at step.represents) in
          let decided = step.decision ∙ refused in rw decided kept
    ]

pub initial-Sound : Sound initial_window
initial-Sound = record {
  recv_words = record { high_word = omega arith; low_word = omega arith };
  high_words = record { high_word = omega arith; low_word = omega arith };
  low_words = record { high_word = omega arith; low_word = omega arith };
  frame_words = record { high_word = omega arith; low_word = omega arith };
  least = omega arith;
  most = omega arith;
  width = refl;
}

pub initial-Represents : Represents initial_window (λ n. false)
initial-Represents = record { inside = λ d less. bit-zero d; beyond = λ n over. refl }

-- Whatever records arrive, in whatever order and with whatever result of their validation, no number
-- of 64 bits is accepted twice by the window as it is initialised.
pub no_number_twice :
    (arrivals : List Arrival) → AllWords arrivals → NoRepeat (accepted_of initial_window arrivals)
no_number_twice arrivals words =
    (no_repeats arrivals initial_window (λ n. false) words initial-Sound initial-Represents).1
