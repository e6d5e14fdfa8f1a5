-- ===== src/Optiga/Dtls/Windowing/Check.antt =====
-- That `DtlsCheckReplay` keeps what the window stands for.
use decada_embedded_example.Base.{
  ℕ, ◌-◌, ◌≤◌, ◌<◌, ◌≡◌, ◌≢◌, refl, sym, ap, subst, ◌∙◌, inl, inr, Bool, true, false, ◌||◌, some,
  ltb, le_or_lt, Bool-cases, arith,
}
use decada_embedded_example.Base.Word.{u8, ◌>>>◌}
use decada_embedded_example.Base.Word.Bits.Shift.{same_or_other}
use decada_embedded_example.Optiga.Util.Uint64.{
  Uint64, value, Words, compare_uint64, compare_uint64-value, subtract_uint64,
  subtract_uint64-value, is_lesser,
}
use decada_embedded_example.Optiga.Util.Window.{mask_double_word, set_bit_uint64}
use decada_embedded_example.Optiga.Util.Window.SetBit.{set_bit_uint64-slot, bit_and_word}
use decada_embedded_example.Optiga.Dtls.Windowing.{
  Window, Verdict, validated, decrypt_failure, malloc_failure, rejected, Outcome, ignored, updated,
  is_greater, on_invalid, or_zero, is_marked, slide, trim, mark, check_replay,
}
use decada_embedded_example.Optiga.Dtls.Windowing.Refine.{
  Sound, digit_of, Represents, is_valid, Checked, stays, taken, on_invalid-refuses, slides,
}
use decada_embedded_example.Optiga.Dtls.Windowing.Marks.{is_marked-slot, trim-slot}

trim-Words : (size : ℕ) (f : Uint64) → Words f → Words (trim size f)
trim-Words size f words =
    ground (arith, bit_and_word f.higher (mask_double_word >>> (64 - size)) words.high_word)

mark_is :
    (w : Window) (position marked : Uint64)
    → subtract_uint64 w.recv_seq_number w.lower_bound ≡ some position
    → set_bit_uint64 w.window_frame w.window_size (u8 position.lower) ≡ some marked
    → mark validated w ≡ (updated, record w { window_frame = trim w.window_size marked })
unfolding mark
mark_is w position marked e1 e2 = rw (mark, e1, e2) refl

marks :
    (w : Window) (seen : ℕ → Bool)
    → Sound w
    → Represents w seen
    → value w.lower_bound ≤ value w.recv_seq_number
    → value w.recv_seq_number ≤ value w.higher_bound
    → seen (value w.recv_seq_number) ≡ false
    → Checked validated w seen (mark validated w).0 (mark validated w).1
marks w seen s r low high unseen =
    let size = w.window_size in
    let n = value w.recv_seq_number in
    elim (subtract_uint64-value w.recv_seq_number w.lower_bound s.recv_words s.low_words) [
      | inl (position, _, e1, position_is, position_words) ↦
          let near : u8 position.lower ≡ n - value w.lower_bound =
            omega (arith, position_is, s.width, s.most) in
          let (marked, e2, marked_words, places) =
            set_bit_uint64-slot w.window_frame size (n - value w.lower_bound) s.frame_words s.least
              s.most (omega (arith, s.width)) in
          let after : Window = record w { window_frame = trim size marked } in
          let sound : Sound after = record {
            recv_words = s.recv_words;
            high_words = s.high_words;
            low_words = s.low_words;
            frame_words = trim-Words size marked marked_words;
            least = s.least;
            most = s.most;
            width = s.width;
          } in
          let is =
            mark_is w position marked e1 (ap (set_bit_uint64 w.window_frame size) near ∙ e2) in
          subst (λ (x : Outcome × Window). Checked validated w seen x.0 x.1) (sym is)
            (taken w after seen updated refl (ground (arith, unseen, low)) sound refl
              (record {
                inside = λ d less.
                    let kept = trim-slot size marked d s.least s.most less in
                    let before = r.inside d less in
                    elim (same_or_other d (size - (n - value w.lower_bound) - 1)) [
                      | inl here ↦
                          let same : value w.higher_bound - d ≡ n = omega (arith, s.width) in
                          ground (arith, kept ∙ (places d).0 here, same)
                      | inr other ↦
                          let another : value w.higher_bound - d ≢ n =
                            λ e. other (omega (arith, s.width, s.least)) in
                          ground (arith, kept ∙ (places d).1 other ∙ before, another)
                    ];
                beyond = λ m over. ground (arith, r.beyond m over);
              })
              (omega arith))
      | inr (less, _) ↦ absurd (omega arith)
    ]

-- A record that is not valid changes nothing, in either part.
invalid :
    (verdict : Verdict) (w : Window) (seen : ℕ → Bool)
    → Sound w
    → Represents w seen
    → is_valid verdict ≡ false
    → Checked verdict w seen (on_invalid verdict) w
invalid verdict w seen s r h =
    stays verdict w seen (on_invalid verdict) s r (on_invalid-refuses verdict h) (ground arith)

above_window :
    (verdict : Verdict) (w : Window) (seen : ℕ → Bool)
    → Sound w
    → Represents w seen
    → value w.higher_bound < value w.recv_seq_number
    → Checked verdict w seen (slide verdict w).0 (slide verdict w).1
unfolding slide
above_window validated w seen s r h = slides w seen s r h
above_window decrypt_failure w seen s r h = invalid decrypt_failure w seen s r refl
above_window malloc_failure w seen s r h = invalid malloc_failure w seen s r refl
above_window rejected w seen s r h = invalid rejected w seen s r refl

in_window :
    (verdict : Verdict) (w : Window) (seen : ℕ → Bool)
    → Sound w
    → Represents w seen
    → value w.lower_bound ≤ value w.recv_seq_number
    → value w.recv_seq_number ≤ value w.higher_bound
    → seen (value w.recv_seq_number) ≡ false
    → Checked verdict w seen (mark verdict w).0 (mark verdict w).1
unfolding mark
in_window validated w seen s r low high h = marks w seen s r low high h
in_window decrypt_failure w seen s r low high h = invalid decrypt_failure w seen s r refl
in_window malloc_failure w seen s r low high h = invalid malloc_failure w seen s r refl
in_window rejected w seen s r low high h = invalid rejected w seen s r refl

-- The bit that is tested tells whether the number has been seen.
marked_is_seen :
    (w : Window) (seen : ℕ → Bool)
    → Sound w
    → Represents w seen
    → value w.lower_bound ≤ value w.recv_seq_number
    → value w.recv_seq_number ≤ value w.higher_bound
    → is_marked w (or_zero (subtract_uint64 w.higher_bound w.recv_seq_number))
      ≡ seen (value w.recv_seq_number)
marked_is_seen w seen s r low high =
    elim (subtract_uint64-value w.higher_bound w.recv_seq_number s.high_words s.recv_words) [
      | inl (d, _, e, d_is, d_words) ↦
          let less : value d < w.window_size = omega (arith, d_is, s.width, s.least) in
          let there = is_marked-slot w d d_words s.least s.most less in
          let same : value w.higher_bound - value d ≡ value w.recv_seq_number =
            omega (arith, d_is) in
          let digit = r.inside (value d) less ∙ ap (λ m. digit_of (seen m)) same in
          ap (λ x. is_marked w (or_zero x)) e ∙ there ∙ ground (arith, digit)
      | inr (less, _) ↦ absurd (omega arith)
    ]

is_lesser-value :
    (a b : Uint64) → Words a → Words b → is_lesser (compare_uint64 a b) ≡ ltb (value a) (value b)
is_lesser-value a b va vb = ground (arith, compare_uint64-value a b va vb)

is_greater-value :
    (a b : Uint64) → Words a → Words b → is_greater (compare_uint64 a b) ≡ ltb (value b) (value a)
is_greater-value a b va vb = ground (arith, compare_uint64-value a b va vb)

test_holds : {a b : ℕ} → a < b → ltb a b ≡ true
test_holds h = ground arith

test_fails : {a b : ℕ} → b ≤ a → ltb a b ≡ false
test_fails h = ground arith

-- The check is a refinement of a set of numbers: if the window has a valid size, bounds as far apart
-- as the size says, and bits that are the numbers seen, then a record is accepted exactly if it is
-- valid, its number is not below the window, and its number has not been seen. The window is again
-- such a window, for the numbers seen and the accepted one, with the largest of them as its upper
-- bound; a record that is not accepted changes nothing that is seen.
pub check_replay-Checked :
    (verdict : Verdict) (w : Window) (seen : ℕ → Bool)
    → Sound w
    → Represents w seen
    → Checked verdict w seen (check_replay verdict w).0 (check_replay verdict w).1
unfolding check_replay
check_replay-Checked verdict w seen s r =
    let n = value w.recv_seq_number in
    let size_ok : (ltb 64 w.window_size || ltb w.window_size 32) ≡ false =
      ground (arith, s.least, s.most) in
    let lower = is_lesser-value w.recv_seq_number w.lower_bound s.recv_words s.low_words in
    let upper = is_greater-value w.recv_seq_number w.higher_bound s.recv_words s.high_words in
    elim (le_or_lt (value w.lower_bound) n) [
      | inr below ↦
          let is_below = lower ∙ test_holds below in
          rw (check_replay, size_ok, is_below)
            (stays verdict w seen ignored s r refl (ground (arith, below)))
      | inl low ↦
          let not_below = lower ∙ test_fails low in
          elim (le_or_lt n (value w.higher_bound)) [
            | inr above ↦
                let is_above = upper ∙ test_holds above in
                rw (check_replay, size_ok, not_below, is_above)
                  (above_window verdict w seen s r above)
            | inl high ↦
                let not_above = upper ∙ test_fails high in
                let marked = marked_is_seen w seen s r low high in
                elim (Bool-cases (seen n)) [
                  | inl known ↦
                      let is_known = marked ∙ known in
                      rw (check_replay, size_ok, not_below, not_above, is_known)
                        (stays verdict w seen ignored s r refl (ground (arith, known, low)))
                  | inr new ↦
                      let is_new = marked ∙ new in
                      rw (check_replay, size_ok, not_below, not_above, is_new)
                        (in_window verdict w seen s r low high new)
                ]
          ]
    ]
