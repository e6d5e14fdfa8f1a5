-- ===== src/Optiga/Transport/Handler/InStep.antt =====
-- Two layers in step: one fragment on its way from the one to the other.
use mathlib.Core.List.{append_assoc}
use decada_embedded_example.Base.{
  ℕ, ◌+◌, ◌≤◌, ◌<◌, ◌≡◌, ◌≢◌, ◌⊎◌, inl, refl, ap, ap₂, sym, ◌∙◌, List, [], ◌∷◌, ◌++◌, none, some,
  length, take, drop, length-take, length-drop, length-append, ◌==◌, if◌then◌else◌, arith,
}
use decada_embedded_example.Optiga.DataLink.Machine.{success, on_rx, on_tx}
use decada_embedded_example.Optiga.Transport.Machine.{
  tx, rx, Transport, Env, Output, hand_down, ask, deliver, send_next_fragment, check_chaining_error,
  chaining_no, chaining_first, chaining_intermediate, chaining_last,
}
use decada_embedded_example.Optiga.Transport.Fragment.{Sending, send_more}
use decada_embedded_example.Optiga.Transport.Handler.{stop_with, dispatch, round, handle}
use decada_embedded_example.Optiga.Transport.Handler.Total.{rounds-ends}
use decada_embedded_example.Optiga.Transport.Handler.Reassemble.{Reading, Chaining, takes_more}

-- The sender, told of a success with fragments left, hands down the next one.
pub sends_next :
    (env : Env) (a : Transport)
    → a.state ≡ tx
    → a.packet_offset < length a.packet
    → handle env on_tx none a
      ≡ some ((send_next_fragment a).0, hand_down (send_next_fragment a).1 ∷ [])
unfolding handle round dispatch
sends_next env a st left =
    rounds-ends 4 env on_tx none a
      (stop_with (send_next_fragment a).0 (hand_down (send_next_fragment a).1 ∷ []))
      (ground (arith, st, left)) refl

-- The chaining byte that a receiver saw last, from what it has got.
abbrev pub Follows : Transport → List ℕ → Type 0
Follows b [] = b.previous_chaining ≡ chaining_no
Follows b (x ∷ got) =
    (b.previous_chaining ≡ chaining_first) ⊎ (b.previous_chaining ≡ chaining_intermediate)

pub last_byte :
    (env : Env) (b : Transport) (got : List ℕ)
    → Follows b got
    → let c = if length got == 0 then chaining_no else chaining_last in
      Chaining c
      × (check_chaining_error env c b.previous_chaining ≡ success)
      × ((c ≡ chaining_no) ⊎ (c ≡ chaining_last))
unfolding check_chaining_error
last_byte env b [] h = (record { chain = refl; channel = refl }, ground arith, inl refl)
last_byte env b (x ∷ got) h = (ground arith, ground arith, ground arith)

pub more_byte :
    (env : Env) (b : Transport) (got : List ℕ)
    → Follows b got
    → let c = if length got == 0 then chaining_first else chaining_intermediate in
      Chaining c
      × (check_chaining_error env c b.previous_chaining ≡ success)
      × ((c ≡ chaining_first) ⊎ (c ≡ chaining_intermediate))
unfolding check_chaining_error
more_byte env b [] h = (record { chain = refl; channel = refl }, ground arith, inl refl)
more_byte env b (x ∷ got) h = (ground arith, ground arith, ground arith)

-- Two layers in step: `a` has yet to send `left`, `b` has all that came before it, and room.
pub record InStep (env : Env) (a b : Transport) (sent left room : List ℕ) : Type 0 where
  pub sending : Sending a sent left
  pub reading : Reading b sent room
  pub busy : a.state ≡ tx
  pub follows_on : Follows b sent
  pub alike : b.max_packet_length ≡ a.max_packet_length
  pub enough : length left ≤ length room
  pub allowed : length a.packet ≤ b.recv_length
  pub ok : env.receive_status ≡ success

pub total :
    (env : Env) (a b : Transport) (sent left room : List ℕ)
    → InStep env a b sent left room
    → length a.packet ≡ length sent + length left
total env a b sent left room s = ap length s.sending.whole ∙ length-append sent left

-- What stands in the receiver's buffer after a fragment.
pub filled-split :
    (sent left rest packet : List ℕ) (n : ℕ)
    → packet ≡ sent ++ left
    → n ≡ length sent + length left
    → ◌≡◌ {A = List Output}
        (deliver (length sent + length left) (sent ++ (left ++ rest)) ∷ [])
        (deliver n (packet ++ rest) ∷ [])
filled-split sent left rest packet n whole size =
    ap₂ (λ (k : ℕ) (b : List ℕ). deliver k b ∷ []) (sym size)
      (sym (ap (λ p. p ++ rest) whole ∙ append_assoc sent left rest))

pub Follows-more :
    (b : Transport) (got : List ℕ)
    → length got ≢ 0
    → (b.previous_chaining ≡ chaining_first) ⊎ (b.previous_chaining ≡ chaining_intermediate)
    → Follows b got
Follows-more b [] some_got h = absurd (some_got refl)
Follows-more b (x ∷ got) some_got h = h

-- One fragment with more to follow leaves the two layers in step.
pub stays-InStep :
    (env : Env) (a b : Transport) (sent left room : List ℕ)
    → InStep env a b sent left room
    → a.max_packet_length < length left
    → let m = a.max_packet_length in
      (b' : Transport) × (handle env on_rx (some (send_next_fragment a).1) b ≡ some (b', ask ∷ []))
      × InStep env (send_next_fragment a).0 b' (sent ++ take m left) (drop m left) (drop m room)
unfolding send_next_fragment
stays-InStep env a b sent left room s h =
    let m = a.max_packet_length in
    let c = if length sent == 0 then chaining_first else chaining_intermediate in
    let (byte, fits, more) = more_byte env b sent s.follows_on in
    let (frame, sending) = send_more a sent left s.sending h in
    let size = total env a b sent left room s in
    let full : length (take m left) ≡ m = omega (arith, length-take m left) in
    let b' : Transport = record b {
      previous_chaining = c;
      recv_buffer = sent ++ (take m left ++ drop (length (take m left)) room);
      total_recv_length = length sent + length (take m left);
      state = rx;
    } in
    let run =
      takes_more env b sent room c (take m left) s.reading byte fits (omega (arith, s.enough))
        (omega (arith, s.sending.short)) more s.ok (omega (arith, s.alike))
        (omega (arith, s.allowed)) in
    (
      b',
      ap (λ f. handle env on_rx (some f) b) frame ∙ run,
      record {
        sending = sending;
        reading = record {
          waiting = refl;
          sound = s.reading.sound;
          count = sym (length-append sent (take m left));
          held =
              ap (λ k. sent ++ (take m left ++ drop k room)) full
              ∙ sym (append_assoc sent (take m left) (drop m room));
        };
        busy = s.busy;
        follows_on =
            Follows-more b' (sent ++ take m left)
              (omega (arith, length-append sent (take m left), s.sending.some_length)) more;
        alike = s.alike;
        enough = omega (arith, length-drop m left, length-drop m room, s.enough);
        allowed = s.allowed;
        ok = s.ok;
      },
    )

pub next_packet :
    (a : Transport)
    → ((send_next_fragment a).0.packet ≡ a.packet) × ((send_next_fragment a).0.state ≡ a.state)
unfolding send_next_fragment
next_packet a = (refl, refl)
