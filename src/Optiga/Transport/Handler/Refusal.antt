-- ===== src/Optiga/Transport/Handler/Refusal.antt =====
-- A whole packet for which the data link layer then refuses to receive an answer.
use decada_embedded_example.Base.{
  Bool-cases, false, ℕ, zero, suc, ◌+◌, ◌*◌, ◌^◌, ◌≤◌, ◌<◌, ◌≡◌, ◌⊎◌, inl, inr, refl, ap, ◌∙◌, List,
  [], ◌∷◌, ◌++◌, true, Option, none, some, length, ltb, arith,
}
use decada_embedded_example.Optiga.DataLink.Machine.{failure, failed, on_tx}
use decada_embedded_example.Optiga.Transport.Machine.{
  idle, tx, error, Transport, Env, Output, hand_down, ask, send_next_fragment, transceive,
}
use decada_embedded_example.Optiga.Transport.Handler.{stop_with, prepend, dispatch, round, handle}
use decada_embedded_example.Optiga.Transport.Handler.Total.{rounds-ends}
use decada_embedded_example.Optiga.Transport.Handler.Errors.{refusal_is_silent}

-- The data link layer confirms one frame after the other, and brings none.
abbrev pub confirmations : ℕ → Env → Transport → Option (Transport × List Output)
confirmations zero env t = some (t, [])
confirmations (suc n) env t = elim (handle env on_tx none t) [
  | none ↦ none
  | some (u, out) ↦ prepend out (confirmations n env u)
]

-- The layer after `n` fragments more, and what it hands down.
abbrev pub sent_on : ℕ → Transport → Transport × List Output
sent_on zero t = (t, [])
sent_on (suc n) t =
    let (u, bytes) = send_next_fragment t in
    let (last, out) = sent_on n u in (last, hand_down bytes ∷ out)

-- The layer sends: `n` fragments more are what is left of its packet.
record Sending (n : ℕ) (t : Transport) : Type 0 where
  busy : t.state ≡ tx
  reaches : length t.packet ≤ t.packet_offset + n * t.max_packet_length
  needed : t.packet_offset + n * t.max_packet_length < length t.packet + t.max_packet_length
  small : length t.packet + t.max_packet_length < 2 ^ 16
  within : t.packet_offset ≤ length t.packet

sends_one :
    (n : ℕ) (env : Env) (t : Transport)
    → Sending (suc n) t
    → handle env on_tx none t
      ≡ some ((send_next_fragment t).0, hand_down (send_next_fragment t).1 ∷ [])
unfolding handle round dispatch
sends_one n env t s =
    let (u, bytes) = send_next_fragment t in
    let left : t.packet_offset < length t.packet = omega (arith, s.needed) in
    rounds-ends 4 env on_tx none t (stop_with u (hand_down bytes ∷ []))
      (ground (arith, s.busy, left)) refl

moved :
    (n : ℕ) (t : Transport)
    → Sending (suc n) t
    → ((length t.packet < t.packet_offset + t.max_packet_length)
        × ((send_next_fragment t).0.packet_offset ≡ length t.packet))
      ⊎ ((t.packet_offset + t.max_packet_length ≤ length t.packet)
          × ((send_next_fragment t).0.packet_offset ≡ t.packet_offset + t.max_packet_length))
unfolding send_next_fragment
moved n t s = elim (Bool-cases (ltb (length t.packet) (t.packet_offset + t.max_packet_length))) [
  | inl beyond ↦ inl (ground arith, ground (arith, s.within, s.small))
  | inr inside ↦ inr (ground arith, ground (arith, s.within, s.small))
]

next-Sending : (n : ℕ) (t : Transport) → Sending (suc n) t → Sending n (send_next_fragment t).0
unfolding send_next_fragment
next-Sending n t s = elim (moved n t s) [
  | inl (beyond, at_end) ↦ record {
    busy = s.busy;
    reaches = omega (arith, at_end);
    needed = omega (arith, at_end, beyond, s.needed);
    small = s.small;
    within = omega (arith, at_end);
  }
  | inr (inside, further) ↦ record {
    busy = s.busy;
    reaches = omega (arith, further, s.reaches);
    needed = omega (arith, further, s.needed);
    small = s.small;
    within = omega (arith, further, inside);
  }
]

all_confirmed :
    (n : ℕ) (env : Env) (t : Transport)
    → Sending n t
    → failed env.receive_status ≡ true
    → (after : Transport) × (confirmations (suc n) env t
        ≡ some (after, (sent_on n t).1 ++ (ask ∷ [])))
      × (after.state ≡ error)
all_confirmed zero env t s refused =
    let (after, e, at) = refusal_is_silent env t s.busy (omega (arith, s.reaches)) refused in
    (after, rw (e, confirmations) refl, at)
all_confirmed (suc n) env t s refused =
    let (after, e, at) =
      all_confirmed n env (send_next_fragment t).0 (next-Sending n t s) refused in
    (
      after,
      ap (λ r. elim r [ none ↦ none | some (u, out) ↦ prepend out (confirmations (suc n) env u) ])
            (sends_one n env t s)
          ∙ ap (prepend (hand_down (send_next_fragment t).1 ∷ [])) e,
      at,
    )

all_handed : (n : ℕ) (t : Transport) → Sending n t → (sent_on n t).0.packet_offset ≡ length t.packet
unfolding send_next_fragment
all_handed zero t s = omega (arith, s.reaches, s.within)
all_handed (suc n) t s = all_handed n (send_next_fragment t).0 (next-Sending n t s)

refused_then :
    (env : Env) (t : Transport)
    → t.state ≡ error
    → (next : Option (List ℕ)) (buffer : List ℕ) (size : ℕ)
    → transceive env t next buffer size ≡ (failure, t, none)
unfolding transceive
refused_then env t at none buffer size = refl
refused_then env t at (some packet) buffer size = ground (arith, at)

-- An idle layer is given a packet that takes a first fragment and `n` more, the lengths of the packet and
-- of a fragment being below 2 ^ 16 together. The data link layer confirms
-- each of them, and refuses to receive when the answer is asked for. Then the layer hands down the next
-- fragment with each confirmation, until all of the packet is handed down, asks for the answer with the
-- last confirmation, and puts out nothing else: neither a packet nor an error is reported. From then on
-- every packet is refused, without an effect.
pub refusal_blocks :
    (env later : Env) (t : Transport) (packet recv : List ℕ) (room n : ℕ)
    → t.state ≡ idle
    → n * t.max_packet_length < length packet
    → length packet ≤ n * t.max_packet_length + t.max_packet_length
    → length packet + t.max_packet_length < 2 ^ 16
    → failed env.receive_status ≡ true
    → let (status, sent, first) = transceive env t (some packet) recv room in
      let (last, out) = sent_on n sent in
      (after : Transport) × (last.packet_offset ≡ length packet)
      × (confirmations (suc n) env sent ≡ some (after, out ++ (ask ∷ [])))
      × ((next : Option (List ℕ)) (buffer : List ℕ) (size : ℕ)
          → transceive later after next buffer size ≡ (failure, after, none))
unfolding transceive send_next_fragment
refusal_blocks env later t packet recv room n free more fits small refused =
    let begun : Transport = record t {
      state = tx;
      api_start_time = env.now;
      packet = packet;
      packet_offset = 0;
      recv_buffer = recv;
      recv_length = room;
      total_recv_length = 0;
      chaining_error_count = 0;
      master_chaining_error_count = 0;
      transmission_completed = false;
      error_event = failure;
    } in
    let sending : Sending (suc n) begun = record {
      busy = refl;
      reaches = omega arith;
      needed = omega arith;
      small = small;
      within = omega arith;
    } in
    let (sent, bytes) = send_next_fragment begun in
    let given : transceive env t (some packet) recv room ≡ (env.send_status, sent, some bytes) =
      ground (arith, free, more) in
    let goes_on = next-Sending n begun sending in
    let (after, e, at) = all_confirmed n env sent goes_on refused in
    rw given (after, all_handed n sent goes_on, e, refused_then later after at)
