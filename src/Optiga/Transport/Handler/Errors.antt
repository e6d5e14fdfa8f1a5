-- ===== src/Optiga/Transport/Handler/Errors.antt =====
-- What the layer does with errors of the layer below, of the other end, and of its own.
use decada_embedded_example.Base.{
  ℕ, ◌+◌, ◌^◌, ◌≤◌, ◌<◌, ◌≡◌, ◌⊎◌, inl, inr, refl, ap, sym, subst, ◌∙◌, List, [], ◌∷◌, ◌++◌, true,
  Option, none, some, length, drop, arith,
}
use decada_embedded_example.Optiga.DataLink.Machine.{
  success, failure, mem_error, failed, Event, on_error, on_tx, on_rx, on_tx_rx,
}
use decada_embedded_example.Optiga.Transport.Machine.{
  idle, tx, rx, chaining, error, resend, Transport, Env, Output, hand_down, ask, report, deliver,
  send_next_fragment, resend_packets, check_chaining_error, chaining_first, chaining_intermediate,
  chaining_last, chaining_fault, chaining_no,
}
use decada_embedded_example.Optiga.Transport.Handler.{stop_with, prepend, dispatch, round, handle}
use decada_embedded_example.Optiga.Transport.Handler.Total.{rounds-goes_on, rounds-ends}
use decada_embedded_example.Optiga.Transport.Handler.Reassemble.{Reading, Chaining, takes_last}

-- An error of the data link layer ends the exchange in every state: it is reported to the upper
-- layer, and the layer is idle.
pub error_ends :
    (env : Env) (frame : Option (List ℕ)) (t : Transport)
    → handle env on_error frame t
      ≡ some (record t { state = idle; error_event = failure }, report failure ∷ [])
unfolding handle round dispatch
error_ends env frame t =
    rounds-ends 4 env on_error frame t
      (stop_with (record t { state = idle; error_event = failure }) (report failure ∷ [])) refl refl

-- If all fragments are sent and the data link layer refuses to receive, the layer goes into its
-- error state and puts out nothing but the refused call: the upper layer is told neither of a
-- success nor of an error.
pub refusal_is_silent :
    (env : Env) (t : Transport)
    → t.state ≡ tx
    → length t.packet ≤ t.packet_offset
    → failed env.receive_status ≡ true
    → (after : Transport) × (handle env on_tx none t ≡ some (after, ask ∷ []))
      × (after.state ≡ error)
unfolding handle round dispatch
refusal_is_silent env t st sent refused =
    let after : Transport = record t {
      state = error;
      total_recv_length = 0;
      previous_chaining = chaining_no;
      transmission_completed = true;
    } in
    (
      after,
      rounds-ends 4 env on_tx none t (stop_with after (ask ∷ []))
          (ground (arith, st, sent, refused)) refl,
      refl,
    )

-- The last fragment of a packet is stored without regard to the room that the caller announced: if
-- the packet is longer, of a length of 16 bits, the bytes behind the announced room are
-- overwritten with its rest, and the length reported is above the room. The memory behind the
-- buffer is long enough to hold them.
pub last_overruns :
    (env : Env) (t : Transport) (got room fragment : List ℕ)
    → Reading t got room
    → (t.previous_chaining ≡ chaining_first) ⊎ (t.previous_chaining ≡ chaining_intermediate)
    → length fragment ≤ length room
    → length got + length fragment < 2 ^ 16
    → t.recv_length < length got + length fragment
    → (after : Transport) × (handle env on_rx (some (chaining_last ∷ fragment)) t
        ≡ some (
          after,
          deliver (length got + length fragment) (got ++ (fragment ++ drop (length fragment) room))
              ∷ [],
        ))
      × (t.recv_length < after.recv_length)
unfolding check_chaining_error
last_overruns env t got room fragment r prev enough short over = (
  record t {
    previous_chaining = chaining_last;
    recv_buffer = got ++ (fragment ++ drop (length fragment) room);
    total_recv_length = length got + length fragment;
    state = idle;
    recv_length = length got + length fragment;
  },
  takes_last env t got room chaining_last fragment r (record { chain = refl; channel = refl })
      (ground (arith, prev)) enough short (inr refl),
  over,
)

-- Three rounds of the loop, the last of which ends it.
third_ends :
    (env : Env) (event : Event) (frame : Option (List ℕ)) (t a b c : Transport) (out : List Output)
    → round env event frame t ≡ record { transport = a; outputs = []; more = true }
    → round env event frame a ≡ record { transport = b; outputs = []; more = true }
    → round env event frame b ≡ stop_with c out
    → handle env event frame t ≡ some (c, out)
unfolding handle
third_ends env event frame t a b c out first second third =
    rounds-goes_on 4 env event frame t (record { transport = a; outputs = []; more = true }) first
      refl
    ∙ ap (prepend []) (
        rounds-goes_on 3 env event frame a (record { transport = b; outputs = []; more = true })
          second refl)
    ∙ ap (λ r. prepend [] (prepend [] r))
        (rounds-ends 2 env event frame b (stop_with c out) third refl)

second_ends :
    (env : Env) (event : Event) (frame : Option (List ℕ)) (t a c : Transport) (out : List Output)
    → round env event frame t ≡ record { transport = a; outputs = []; more = true }
    → round env event frame a ≡ stop_with c out
    → handle env event frame t ≡ some (c, out)
unfolding handle
second_ends env event frame t a c out first second =
    rounds-goes_on 4 env event frame t (record { transport = a; outputs = []; more = true }) first
      refl
    ∙ ap (prepend []) (rounds-ends 3 env event frame a (stop_with c out) second refl)

starts_or_goes_on : (c : ℕ) → (c ≡ chaining_first) ⊎ (c ≡ chaining_intermediate) → Chaining c
starts_or_goes_on c (inl e) = subst Chaining (sym e) (record { chain = refl; channel = refl })
starts_or_goes_on c (inr e) = subst Chaining (sym e) (record { chain = refl; channel = refl })

-- A first or intermediate fragment of full size, in its place in the chain, that does not fit the
-- announced room is not stored: if the data link layer accepts the request, the next frame is
-- asked for, and when the last fragment of the packet is the next to come the upper layer is told
-- that there was no room, and the layer is idle. The buffer is as it was.
pub overflow_reported :
    (env later : Env) (t : Transport) (got room : List ℕ) (c : ℕ) (fragment rest : List ℕ)
    → Reading t got room
    → (c ≡ chaining_first) ⊎ (c ≡ chaining_intermediate)
    → check_chaining_error env c t.previous_chaining ≡ success
    → length fragment ≡ t.max_packet_length
    → t.recv_length < length got + length fragment
    → env.receive_status ≡ success
    → (mid : Transport) × (after : Transport) × (handle env on_rx (some (c ∷ fragment)) t
        ≡ some (mid, ask ∷ []))
      × (handle later on_rx (some (chaining_last ∷ rest)) mid ≡ some (after, report mem_error ∷ []))
      × (after.state ≡ idle)
      × (mid.recv_buffer ≡ t.recv_buffer)
      × (after.recv_buffer ≡ t.recv_buffer)
unfolding round dispatch
overflow_reported env later t got room c fragment rest r more fits full over ok =
    let byte = starts_or_goes_on c more in
    let noted : Transport = record t { previous_chaining = c; state = chaining } in
    let mid : Transport = record noted { error_event = mem_error; state = rx } in
    let after : Transport = record mid { state = idle } in
    (
      mid,
      after,
      third_ends env on_rx (some (c ∷ fragment)) t noted mid mid (ask ∷ [])
          (ground (arith, r.waiting, r.sound, byte.chain, byte.channel, fits, more))
          (ground (arith, byte.channel, full, r.count, over))
          (ground (arith, byte.chain, byte.channel, more, ok)),
      second_ends later on_rx (some (chaining_last ∷ rest)) mid (record mid { state = error }) after
          (report mem_error ∷ []) (ground arith) (ground arith),
      refl,
      refl,
      refl,
    )

-- The first fragment of a packet that has more.
first_again :
    (t : Transport)
    → t.packet_offset ≡ 0
    → t.max_packet_length < length t.packet
    → length t.packet < 2 ^ 16
    → ((send_next_fragment t).0.packet_offset ≡ t.max_packet_length)
      × ((send_next_fragment t).0.packet ≡ t.packet)
      × ((send_next_fragment t).0.state ≡ t.state)
      × ((send_next_fragment t).0.chaining_error_count ≡ t.chaining_error_count)
      × ((send_next_fragment t).0.transmission_completed ≡ t.transmission_completed)
      × ((send_next_fragment t).0.error_event ≡ t.error_event)
unfolding send_next_fragment
first_again t z many short = (ground arith, refl, refl, refl, refl, refl)

-- While fragments are left to send, a chaining error from the other end makes the layer begin its
-- packet again, once: the second such frame ends the exchange with the error reported. The packet
-- has more than one fragment and a 16-bit length, and the data link layer takes the frame.
pub resends_once :
    (env later : Env) (t : Transport)
    → t.state ≡ tx
    → t.packet_offset < length t.packet
    → t.chaining_error_count ≡ 0
    → t.max_packet_length < length t.packet
    → length t.packet < 2 ^ 16
    → env.send_status ≡ success
    → let fault = some (chaining_fault ∷ []) in
      let again = send_next_fragment (record t {
        packet_offset = 0;
        total_recv_length = 0;
        state = tx;
        chaining_error_count = 1;
      }) in
      (mid : Transport) × (after : Transport) × (handle env on_tx_rx fault t
        ≡ some (mid, hand_down again.1 ∷ []))
      × (mid.packet_offset ≡ again.0.packet_offset)
      × (handle later on_tx_rx fault mid ≡ some (after, report t.error_event ∷ []))
      × (after.state ≡ idle)
unfolding round dispatch resend_packets
resends_once env later t st left none_yet many short ok =
    let fault : Option (List ℕ) = some (chaining_fault ∷ []) in
    let again = send_next_fragment (record t {
      packet_offset = 0;
      total_recv_length = 0;
      state = tx;
      chaining_error_count = 1;
    }) in
    let facts =
      first_again
        (record t {
          packet_offset = 0;
          total_recv_length = 0;
          state = tx;
          chaining_error_count = 1;
        })
        refl many short in
    let counted : Transport = record again.0 { chaining_error_count = 2 } in
    (
      again.0,
      record counted { state = idle },
      second_ends env on_tx_rx fault t (record t { state = resend }) again.0
          (hand_down again.1 ∷ []) (ground (arith, st, left)) (ground (arith, none_yet, ok)),
      refl,
      third_ends later on_tx_rx fault again.0 (record again.0 { state = resend })
          (record counted { state = error }) (record counted { state = idle })
          (report t.error_event ∷ []) (ground (arith, facts, many)) (ground (arith, facts))
          (ground (arith, facts)),
      refl,
    )
