-- ===== src/Optiga/Dtls/Windowing/Refine.antt =====
-- The window as a set of numbers: what the check accepts and what it remembers.
use decada_embedded_example.Base.{
  ℕ, ◌+◌, ◌-◌, ◌≤◌, ◌<◌, ◌≡◌, ◌≢◌, refl, sym, ap, subst, ◌∙◌, inl, inr, Bool, true, false, not,
  ◌&&◌, ◌||◌, some, max, leb, ◌==◌, if◌then◌else◌, le_or_lt, arith,
}
use decada_embedded_example.Base.Word.Bits.Shift.{same_or_other}
use decada_embedded_example.Optiga.Util.Uint64.{
  Uint64, value, Words, subtract_uint64, subtract_uint64-value,
}
use decada_embedded_example.Optiga.Util.Window.{slot, shift_left_uint64, set_bit_uint64}
use decada_embedded_example.Optiga.Util.Window.Slots.{shift_left_uint64-slot}
use decada_embedded_example.Optiga.Util.Window.SetBit.{set_bit_uint64-slot, shift_left_uint64-Words}
use decada_embedded_example.Optiga.Dtls.Windowing.{
  Window, Verdict, validated, Outcome, updated, moved, on_invalid, slide,
}

-- A window of a valid size whose bounds are as far apart as its size says.
pub record Sound (w : Window) : Type 0 where
  pub recv_words : Words w.recv_seq_number
  pub high_words : Words w.higher_bound
  pub low_words : Words w.lower_bound
  pub frame_words : Words w.window_frame
  pub least : 32 ≤ w.window_size
  pub most : w.window_size ≤ 64
  pub width : value w.higher_bound + 1 ≡ value w.lower_bound + w.window_size

abbrev pub digit_of : Bool → ℕ
digit_of true = 1
digit_of false = 0

-- The bits of the window are the numbers in `seen` that lie in it, and none lies above it.
pub record Represents (w : Window) (seen : ℕ → Bool) : Type 0 where
  pub inside :
      (d : ℕ)
      → d < w.window_size
      → slot w.window_size w.window_frame d ≡ digit_of (seen (value w.higher_bound - d))
  pub beyond : (n : ℕ) → value w.higher_bound < n → seen n ≡ false

abbrev pub with_number : ℕ → (ℕ → Bool) → ℕ → Bool
with_number n seen m = (m == n) || seen m

abbrev pub is_accepted : Outcome → Bool
is_accepted updated = true
is_accepted moved = true
is_accepted _ = false

abbrev pub is_valid : Verdict → Bool
is_valid validated = true
is_valid _ = false

-- What the check promises: a valid record whose number is not below the window and has not been
-- seen is accepted, and no other.
abbrev pub accepts : Verdict → Window → (ℕ → Bool) → Bool
accepts verdict w seen =
    is_valid verdict
    && (leb (value w.lower_bound) (value w.recv_seq_number) && not (seen (value w.recv_seq_number)))

pub record Checked (verdict : Verdict) (w : Window) (seen : ℕ → Bool) (out : Outcome)
    (after : Window) : Type 0 where
  pub decision : is_accepted out ≡ accepts verdict w seen
  pub sound : Sound after
  pub same_size : after.window_size ≡ w.window_size
  pub represents :
      Represents after
        (if accepts verdict w seen then with_number (value w.recv_seq_number) seen else seen)
  pub upper : value after.higher_bound ≡ (
      if accepts verdict w seen
      then max (value w.higher_bound) (value w.recv_seq_number)
      else value w.higher_bound)

-- The window stays as it is.
pub stays :
    (verdict : Verdict) (w : Window) (seen : ℕ → Bool) (out : Outcome)
    → Sound w
    → Represents w seen
    → is_accepted out ≡ false
    → accepts verdict w seen ≡ false
    → Checked verdict w seen out w
stays verdict w seen out s r no_out refused = record {
  decision = no_out ∙ sym refused;
  sound = s;
  same_size = refl;
  represents = rw refused r;
  upper = rw refused refl;
}

-- The number is taken into the window.
pub taken :
    (w after : Window) (seen : ℕ → Bool) (out : Outcome)
    → is_accepted out ≡ true
    → accepts validated w seen ≡ true
    → Sound after
    → after.window_size ≡ w.window_size
    → Represents after (with_number (value w.recv_seq_number) seen)
    → value after.higher_bound ≡ max (value w.higher_bound) (value w.recv_seq_number)
    → Checked validated w seen out after
taken w after seen out yes_out accepted s size r up = record {
  decision = yes_out ∙ sym accepted;
  sound = s;
  same_size = size;
  represents = rw accepted r;
  upper = rw accepted up;
}

pub on_invalid-refuses :
    (verdict : Verdict) → is_valid verdict ≡ false → is_accepted (on_invalid verdict) ≡ false
on_invalid-refuses verdict h = ground arith

-- The places of a window that has slid to `n` and taken it in, `c` numbers further.
slid-places :
    (w : Window) (seen : ℕ → Bool) (frame marked : Uint64) (n c d : ℕ)
    → Represents w seen
    → value w.higher_bound + c ≡ n
    → 0 < c
    → w.window_size ≤ value w.higher_bound + 1
    → d < w.window_size
    → (d < c → slot w.window_size frame d ≡ 0)
    → (c ≤ d → slot w.window_size frame d ≡ slot w.window_size w.window_frame (d - c))
    → (d ≡ 0 → slot w.window_size marked d ≡ 1)
    → (d ≢ 0 → slot w.window_size marked d ≡ slot w.window_size frame d)
    → slot w.window_size marked d ≡ digit_of (with_number n seen (n - d))
slid-places w seen frame marked n c d r sum positive deep less out up here elsewhere =
    elim (same_or_other d 0) [
      | inl top ↦ ground (arith, here top)
      | inr other ↦ elim (le_or_lt c d) [
        | inl old ↦
            let same : value w.higher_bound - (d - c) ≡ n - d = omega arith in
            let there = r.inside (d - c) (omega arith) ∙ ap (λ m. digit_of (seen m)) same in
            ground (arith, elsewhere other ∙ up old ∙ there)
        | inr new ↦ ground (arith, elsewhere other ∙ out new, r.beyond (n - d) (omega arith))
      ]
    ]

slide_is :
    (w : Window) (distance low marked : Uint64)
    → subtract_uint64 w.recv_seq_number w.higher_bound ≡ some distance
    → subtract_uint64 w.recv_seq_number (record { higher = 0; lower = w.window_size - 1 })
      ≡ some low
    → set_bit_uint64
        (shift_left_uint64 w.window_frame distance w.window_size 64)
        w.window_size
        w.window_size
      ≡ some marked
    → slide validated w ≡ (
      moved,
      record w { window_frame = marked; higher_bound = w.recv_seq_number; lower_bound = low },
    )
unfolding slide
slide_is w distance low marked e1 e2 e3 = rw (slide, e2, e1, e3) refl

pub slides :
    (w : Window) (seen : ℕ → Bool)
    → Sound w
    → Represents w seen
    → value w.higher_bound < value w.recv_seq_number
    → Checked validated w seen (slide validated w).0 (slide validated w).1
slides w seen s r above =
    let size = w.window_size in
    let n = value w.recv_seq_number in
    let high = value w.higher_bound in
    let width : Uint64 = record { higher = 0; lower = size - 1 } in
    let width_words : Words width = record {
      high_word = omega arith;
      low_word = omega (arith, s.most);
    } in
    let unseen = r.beyond n above in
    elim (subtract_uint64-value w.recv_seq_number w.higher_bound s.recv_words s.high_words) [
      | inl (distance, less, e1, far, distance_words) ↦
          elim (subtract_uint64-value w.recv_seq_number width s.recv_words width_words) [
            | inl (low, room, e2, low_is, low_words) ↦
                let frame = shift_left_uint64 w.window_frame distance size 64 in
                let frame_words =
                  shift_left_uint64-Words w.window_frame distance size s.frame_words in
                let (marked, e3, marked_words, places) =
                  set_bit_uint64-slot frame size size frame_words s.least s.most (omega arith) in
                let after : Window = record w {
                  window_frame = marked;
                  higher_bound = w.recv_seq_number;
                  lower_bound = low;
                } in
                let is : slide validated w ≡ (moved, after) =
                  slide_is w distance low marked e1 e2 e3 in
                let sound : Sound after = record {
                  recv_words = s.recv_words;
                  high_words = s.recv_words;
                  low_words = low_words;
                  frame_words = marked_words;
                  least = s.least;
                  most = s.most;
                  width = omega (arith, low_is, s.width, s.least);
                } in
                subst (λ (x : Outcome × Window). Checked validated w seen x.0 x.1) (sym is)
                  (taken w after seen moved refl (ground (arith, unseen, s.width, s.least, s.most))
                    sound refl
                    (record {
                      inside = λ d less_d.
                          let shift =
                            shift_left_uint64-slot w.window_frame distance size d s.frame_words
                              distance_words s.least s.most less_d in
                          slid-places w seen frame marked n (value distance) d r
                            (omega (arith, far)) (omega (arith, far)) (omega (arith, s.width))
                            less_d shift.0 shift.1 (λ top. (places d).0 (omega arith))
                            (λ other. (places d).1 (λ e. other (omega arith)));
                      beyond = λ m over. ground (arith, r.beyond m (omega arith));
                    })
                    (omega (arith, above)))
            | inr (short, _) ↦ absurd (omega (arith, s.width, s.least))
          ]
      | inr (less, _) ↦ absurd (omega arith)
    ]
