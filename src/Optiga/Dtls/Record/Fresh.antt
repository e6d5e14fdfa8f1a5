-- ===== src/Optiga/Dtls/Record/Fresh.antt =====
-- The numbers of the records that `DtlsRL_Recv` takes in.
use decada_embedded_example.Base.{
  ℕ, ◌-◌, ◌++◌, ◌≡◌, ◌⊎◌, inl, inr, refl, sym, subst, ◌∙◌, List, [], ◌∷◌, Bool, true, false, ◌&&◌,
  take, Bool-cases, if◌then◌else◌, arith,
}
use decada_embedded_example.Base.Word.{u16, u32, ◌<<<◌}
use decada_embedded_example.Base.Word.Bits.{bit_or-lt}
use decada_embedded_example.Optiga.Util.Uint64.{value, Words}
use decada_embedded_example.Optiga.Util.Bytes.{get_uint16, get_uint32, at}
use decada_embedded_example.Optiga.Dtls.Windowing.{
  initial_window, Window, Outcome, ignored, updated, moved, decrypt_failed, malloc_failed,
  check_replay,
}
use decada_embedded_example.Optiga.Dtls.Windowing.Refine.{
  Sound, Represents, with_number, is_accepted, accepts,
}
use decada_embedded_example.Optiga.Dtls.Windowing.Check.{check_replay-Checked}
use decada_embedded_example.Optiga.Dtls.Windowing.Replay.{
  AllUnseen, NoRepeat, apart, initial-Sound, initial-Represents,
}
use decada_embedded_example.Optiga.Dtls.Record.{RecordLayer, Ciphered, Processed, process_record}
use decada_embedded_example.Optiga.Dtls.Record.Receive.{
  Receiver, Incoming, RecvStatus, record_received, alert_received, appdata_received, verdict_of,
  Picked, no_record, picked, pick, epoch_of, number_in, Place, current, next_epoch, nowhere,
  place_of, received_as, reported, check_record, recv_at, recv_from, recv, first_len, advanced,
}

-- A number read from bytes has words of 32 bits.
number_in-Words : (bytes : List ℕ) → Words (number_in bytes)
unfolding get_uint16 get_uint32
number_in-Words bytes = record {
  high_word = bit_or-lt 32 (u16 (at bytes 5 <<< 8)) (u16 (at bytes 6)) (omega arith) (omega arith);
  low_word = bit_or-lt 32 (u32 (at bytes 7 <<< 24)) _ (omega arith) (
      bit_or-lt 32 _ _
        (bit_or-lt 32 (u32 (at bytes 8 <<< 16)) (u32 (at bytes 9 <<< 8)) (omega arith)
          (omega arith))
        (omega arith));
}

-- The window knows the numbers that were taken in.
abbrev pub Knows : Window → (ℕ → Bool) → Type 0
Knows w seen = Sound w × Represents w seen

abbrev pub is_received : RecvStatus → Bool
is_received record_received = true
is_received alert_received = true
is_received appdata_received = true
is_received other = false

received_as-is : (content : ℕ) → is_received (received_as content) ≡ true
received_as-is content = ground arith

reported-is : (out : Outcome) (p : Processed) → is_received ((reported out p).0) ≡ is_accepted out
reported-is ignored p = refl
reported-is updated p = received_as-is p.content
reported-is moved p = received_as-is p.content
reported-is decrypt_failed p = refl
reported-is malloc_failed p = refl

-- A call that refuses its record leaves what the window knows; one that takes the record in has found its
-- number to be new, and the window knows it then.
abbrev pub Step : RecvStatus → ℕ → (ℕ → Bool) → Window → Type 0
Step status n seen after =
    ((is_received status ≡ false) × Knows after seen)
    ⊎ ((is_received status ≡ true) × (seen n ≡ false) × Knows after (with_number n seen))

check_record-Step :
    (decrypt : List ℕ → Ciphered) (heap : Bool) (rl : RecordLayer) (expected room : ℕ)
    (bytes : List ℕ) (w : Window) (seen : ℕ → Bool)
    → Knows w seen
    → let r = check_record decrypt heap rl expected room bytes w in
      Step (r.0.0) (value (number_in bytes)) seen (r.2)
unfolding check_record
check_record-Step decrypt heap rl expected room bytes w seen (s, r) =
    let arrived : Window = record w { recv_seq_number = number_in bytes } in
    let p = process_record decrypt heap rl expected room bytes in
    let verdict = verdict_of p.status in
    let step =
      check_replay-Checked verdict arrived seen
        (record {
          recv_words = number_in-Words bytes;
          high_words = s.high_words;
          low_words = s.low_words;
          frame_words = s.frame_words;
          least = s.least;
          most = s.most;
          width = s.width;
        })
        (record { inside = r.inside; beyond = r.beyond }) in
    let status_is = reported-is ((check_replay verdict arrived).0) p in
    elim (Bool-cases (accepts verdict arrived seen)) [
      | inl accepted ↦
          let new : seen (value (number_in bytes)) ≡ false = ground arith in
          inr (
            status_is ∙ step.decision ∙ accepted,
            new,
            (step.sound, rw accepted at step.represents),
          )
      | inr refused ↦
          inl (status_is ∙ step.decision ∙ refused, (step.sound, rw refused at step.represents))
    ]

-- One of the two windows.
abbrev pub window_of : Bool → Receiver → Window
window_of false r = r.window
window_of true r = r.next_window

abbrev is_at : Bool → Place → Bool
is_at false current = true
is_at true next_epoch = true
is_at next other = false

-- The number that a call takes in by this window, if it does.
abbrev pub entry : Bool → Receiver → Picked → RecvStatus → List ℕ
entry next r (no_record s) status = []
entry next r (picked n bytes room) status =
    if is_received status && is_at next (place_of r.layer (epoch_of bytes))
    then value (number_in (take (first_len bytes) bytes)) ∷ []
    else []

-- A call takes nothing in by the window, or a number that is new to it.
abbrev Call : Bool → (ℕ → Bool) → List ℕ → Receiver → Type 0
Call next seen numbers after =
    ((numbers ≡ []) × Knows (window_of next after) seen)
    ⊎ ((n : ℕ) × (numbers ≡ n ∷ [])
        × (seen n ≡ false)
        × Knows (window_of next after) (with_number n seen))

-- The step of one window is the call's entry.
entered :
    (next : Bool) (seen : ℕ → Bool) (n : ℕ) (status : RecvStatus) (after : Receiver)
    → Step status n seen (window_of next after)
    → Call next seen (if is_received status && true then n ∷ [] else []) after
entered next seen n status after (inl (refused, knows)) = inl (rw refused refl, knows)
entered next seen n status after (inr (received, new, knows)) =
    inr (n, rw received refl, new, knows)

not_entered : (b : Bool) (n : ℕ) → (if b && false then n ∷ [] else []) ≡ []
not_entered b n = ground arith

recv_at-Call :
    (next : Bool) (decrypt : List ℕ → Ciphered) (heap : Bool) (r : Receiver) (bytes : List ℕ)
    (room : ℕ) (place : Place) (seen : ℕ → Bool)
    → Knows (window_of next r) seen
    → let result = recv_at decrypt heap r bytes room place in
      Call next seen
        (if is_received (result.0.0) && is_at next place then value (number_in bytes) ∷ [] else [])
        (result.1)
unfolding recv_at
recv_at-Call false decrypt heap r bytes room current seen knows =
    let result = recv_at decrypt heap r bytes room current in
    entered false seen (value (number_in bytes)) (result.0.0) (result.1)
      (check_record-Step decrypt heap r.layer r.expected room bytes r.window seen knows)
recv_at-Call true decrypt heap r bytes room next_epoch seen knows =
    let result = recv_at decrypt heap r bytes room next_epoch in
    entered true seen (value (number_in bytes)) (result.0.0) (result.1)
      (check_record-Step decrypt heap r.layer r.expected room bytes r.next_window seen knows)
recv_at-Call false decrypt heap r bytes room next_epoch seen knows = inl (not_entered _ _, knows)
recv_at-Call true decrypt heap r bytes room current seen knows = inl (not_entered _ _, knows)
recv_at-Call false decrypt heap r bytes room nowhere seen knows = inl (refl, knows)
recv_at-Call true decrypt heap r bytes room nowhere seen knows = inl (refl, knows)

advanced-window :
    (next : Bool) (r : Receiver) (n : ℕ) (bytes : List ℕ)
    → window_of next (advanced r n bytes) ≡ window_of next r
advanced-window false r n bytes = refl
advanced-window true r n bytes = refl

recv_from-Call :
    (next : Bool) (decrypt : List ℕ → Ciphered) (heap : Bool) (r : Receiver) (p : Picked)
    (seen : ℕ → Bool)
    → Knows (window_of next r) seen
    → let result = recv_from decrypt heap r p in
      Call next seen (entry next r p (result.0.0)) (result.1)
unfolding recv_from
recv_from-Call next decrypt heap r (no_record status) seen knows = inl (refl, knows)
recv_from-Call next decrypt heap r (picked n bytes room) seen knows =
    recv_at-Call next decrypt heap (advanced r (n - 1) bytes) (take (first_len bytes) bytes) room
      (place_of r.layer (epoch_of bytes)) seen
      (subst (λ w. Knows w seen) (sym (advanced-window next r (n - 1) bytes)) knows)

-- The numbers that a row of calls takes in by one window: each call with what the transport layer gives and
-- the room of its buffer.
abbrev pub numbers_taken :
    Bool → (List ℕ → Ciphered) → Bool → Receiver → List (Incoming × ℕ) → List ℕ
numbers_taken next decrypt heap r [] = []
numbers_taken next decrypt heap r ((incoming, room) ∷ calls) =
    let result = recv decrypt heap r incoming room in
    entry next r (pick r incoming room) (result.0.0)
    ++ numbers_taken next decrypt heap (result.1) calls

all_fresh :
    (next : Bool) (decrypt : List ℕ → Ciphered) (heap : Bool) (r : Receiver)
    (calls : List (Incoming × ℕ)) (seen : ℕ → Bool)
    → Knows (window_of next r) seen
    → let numbers = numbers_taken next decrypt heap r calls in
      AllUnseen seen numbers × NoRepeat numbers
unfolding recv
all_fresh next decrypt heap r [] seen knows = (tt, tt)
all_fresh next decrypt heap r ((incoming, room) ∷ calls) seen knows =
    let after = (recv decrypt heap r incoming room).1 in
    let later = numbers_taken next decrypt heap after calls in
    elim (recv_from-Call next decrypt heap r (pick r incoming room) seen knows) [
      | inl (nothing, kept) ↦ rw nothing (all_fresh next decrypt heap after calls seen kept)
      | inr (n, one, new, knows_it) ↦
          let (unseen, distinct) =
            all_fresh next decrypt heap after calls (with_number n seen) knows_it in
          let (lacks, old) = apart n seen later unseen in rw one ((new, old), (lacks, distinct))
    ]

-- A receiver starts with one of its windows, that of the current or that of the next epoch, as it is
-- initialised. Then, whatever the transport layer gives in a row of calls, whatever the room of their buffers
-- and whatever the decryption makes of the records, no number is taken in twice by this window.
pub recv-no_number_twice :
    (next : Bool) (decrypt : List ℕ → Ciphered) (heap : Bool) (r : Receiver)
    (calls : List (Incoming × ℕ))
    → window_of next r ≡ initial_window
    → NoRepeat (numbers_taken next decrypt heap r calls)
recv-no_number_twice next decrypt heap r calls start =
    (all_fresh next decrypt heap r calls (λ n. false)
      (subst (λ w. Knows w (λ n. false)) (sym start) (initial-Sound, initial-Represents))).1
