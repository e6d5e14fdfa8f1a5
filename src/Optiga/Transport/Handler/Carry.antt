-- ===== src/Optiga/Transport/Handler/Carry.antt =====
-- A packet on its way: one layer cuts it into fragments, another puts them together.
use decada_embedded_example.Base.{
  ℕ, zero, suc, ◌+◌, ◌^◌, ◌≤◌, ◌<◌, ◌≡◌, ◌≢◌, inl, inr, refl, ap, ap₂, sym, subst, ◌∙◌, List, [],
  ◌∷◌, ◌++◌, false, none, some, length, take, drop, length-drop, ◌==◌, le_or_lt, drop-drop,
  if◌then◌else◌, arith,
}
use decada_embedded_example.Optiga.DataLink.Machine.{success, failure, on_rx, on_tx}
use decada_embedded_example.Optiga.Transport.Machine.{
  idle, tx, Transport, Env, Output, hand_down, ask, deliver, send_next_fragment, transceive,
  chaining_no, chaining_last,
}
use decada_embedded_example.Optiga.Transport.Fragment.{send_last}
use decada_embedded_example.Optiga.Transport.Handler.{handle}
use decada_embedded_example.Optiga.Transport.Handler.Reassemble.{Reading, takes_last}
use decada_embedded_example.Optiga.Transport.Handler.InStep.{
  InStep, filled-split, last_byte, next_packet, sends_next, stays-InStep, total,
}

-- The fragment `frame` of the layer `a` reaches the layer `b`. While `a` has more to send, `b` asks
-- for the next frame, and `a`, told of the success, hands down the next fragment. The last fragment
-- makes `b` put out `out`, in the state `done`.
pub data Carried (env : Env) (out : List Output) (done : Transport)
    : Transport → List ℕ → Transport → Type 0 where
  arrives :
      {a b : Transport} {frame : List ℕ}
      → a.packet_offset ≡ length a.packet
      → handle env on_rx (some frame) b ≡ some (done, out)
      → Carried env out done a frame b
  follows :
      {a a' b b' : Transport} {frame next : List ℕ}
      → handle env on_rx (some frame) b ≡ some (b', ask ∷ [])
      → handle env on_tx none a ≡ some (a', hand_down next ∷ [])
      → Carried env out done a' next b'
      → Carried env out done a frame b

-- What is left to carry, with what comes out at the end.
abbrev Rest : (env : Env) (a b : Transport) (left room : List ℕ) → Type 0
Rest env a b left room =
    (done : Transport) × Carried env
      (deliver (length a.packet) (a.packet ++ drop (length left) room) ∷ []) done
      (send_next_fragment a).0 (send_next_fragment a).1 b
    × (done.state ≡ idle)
    × (done.recv_length ≡ length a.packet)

carries-Rest_last :
    (env : Env) (a b : Transport) (sent left room : List ℕ)
    → InStep env a b sent left room
    → length left ≤ a.max_packet_length
    → Rest env a b left room
carries-Rest_last env a b sent left room s h =
    let (byte, fits, last) = last_byte env b sent s.follows_on in
    let (frame, offset) = send_last a sent left s.sending h in
    let size = total env a b sent left room s in
    let run =
      takes_last env b sent room (if length sent == 0 then chaining_no else chaining_last) left
        s.reading byte fits s.enough (omega (arith, s.sending.short)) last in
    let done : Transport = record b {
      previous_chaining = if length sent == 0 then chaining_no else chaining_last;
      recv_buffer = sent ++ (left ++ drop (length left) room);
      total_recv_length = length sent + length left;
      state = idle;
      recv_length = length sent + length left;
    } in
    (
      done,
      arrives offset (
          ap (λ f. handle env on_rx (some f) b) frame
          ∙ run
          ∙ ap (λ (out : List Output). some (done, out))
              (filled-split sent left (drop (length left) room) a.packet (length a.packet)
                s.sending.whole size)),
      refl,
      sym size,
    )

abbrev one : Output → List Output
one o = o ∷ []

carries-Rest :
    (n : ℕ) (env : Env) (a b : Transport) (sent left room : List ℕ)
    → InStep env a b sent left room
    → length left ≤ n
    → Rest env a b left room
carries-Rest zero env a b sent left room s h =
    carries-Rest_last env a b sent left room s (omega arith)
carries-Rest (suc n) env a b sent left room s h =
    elim (le_or_lt (length left) a.max_packet_length) [
      | inl small ↦ carries-Rest_last env a b sent left room s small
      | inr large ↦
          let m = a.max_packet_length in
          let a' = (send_next_fragment a).0 in
          let (b', run, s') = stays-InStep env a b sent left room s large in
          let remains = length-drop m left in
          let (done, carried, i, l) =
            carries-Rest n env a' b' (sent ++ take m left) (drop m left) (drop m room) s'
              (omega (arith, remains, s.sending.some_length)) in
          let next = sends_next env a' s'.busy (
            omega (
              arith,
              s'.sending.offset,
              total env a' b' (sent ++ take m left) (drop m left) (drop m room) s',
              remains,
            )) in
          let same =
            ap₂ (λ (p r : List ℕ). one (deliver (length p) (p ++ r))) ((next_packet a).0)
              (drop-drop (length (drop m left)) m room
                ∙ ap (λ k. drop k room) (omega (arith, remains))) in
          (
            done,
            subst (λ out. Carried env out done a' (send_next_fragment a).1 b) same
                (follows run next carried),
            i,
            l ∙ ap length ((next_packet a).0),
          )
    ]

-- The layer that begins to send a packet.
abbrev started : Env → Transport → List ℕ → List ℕ → ℕ → Transport
started env a packet recv n = record a {
  state = tx;
  api_start_time = env.now;
  packet = packet;
  packet_offset = 0;
  recv_buffer = recv;
  recv_length = n;
  total_recv_length = 0;
  chaining_error_count = 0;
  master_chaining_error_count = 0;
  transmission_completed = false;
  error_event = failure;
}

transceive-starts :
    (env : Env) (a : Transport) (packet recv : List ℕ) (n : ℕ)
    → a.state ≡ idle
    → length packet ≢ 0
    → let (sent, bytes) = send_next_fragment (started env a packet recv n) in
      transceive env a (some packet) recv n ≡ (env.send_status, sent, some bytes)
unfolding transceive
transceive-starts env a packet recv n st filled = ground arith

-- A packet handed to an idle layer reaches the buffer of a layer that waits for one: the fragments
-- that the one hands down, each when it is told that the one before it was sent, are those that
-- the other takes in and puts together; after the last of them it delivers the packet, with its
-- length, and is idle, and the rest of its buffer is as it was. The packet is not empty and has a
-- 16-bit length, fragments have at least one byte and fit the frame buffer, both ends have the
-- same fragment size, the receive buffer has room for the packet, and the data link layer accepts
-- the requests for a next frame.
pub carries :
    (env : Env) (a b : Transport) (packet recv : List ℕ) (n : ℕ)
    → a.state ≡ idle
    → length packet ≢ 0
    → length packet < 2 ^ 16
    → a.max_packet_length ≢ 0
    → 4 + a.max_packet_length ≤ length a.tx_frame
    → length a.tx_frame < 2 ^ 16
    → Reading b [] b.recv_buffer
    → b.previous_chaining ≡ chaining_no
    → b.max_packet_length ≡ a.max_packet_length
    → length packet ≤ length b.recv_buffer
    → length packet ≤ b.recv_length
    → env.receive_status ≡ success
    → (sent : Transport) × (frame : List ℕ) × (done : Transport) × (transceive env a
          (some packet)
          recv
          n
        ≡ (env.send_status, sent, some frame))
      × Carried env
          (deliver (length packet) (packet ++ drop (length packet) b.recv_buffer) ∷ [])
          done
          sent
          frame
          b
      × (done.state ≡ idle)
      × (done.recv_length ≡ length packet)
carries env a b packet recv n st filled short m room small r prev alike enough allowed ok =
    let (done, carried, i, l) =
      carries-Rest (length packet) env (started env a packet recv n) b [] packet b.recv_buffer
        (record {
          sending = record {
            whole = refl;
            offset = refl;
            short = short;
            some_length = m;
            room = room;
            frame_short = small;
          };
          reading = r;
          busy = refl;
          follows_on = prev;
          alike = alike;
          enough = enough;
          allowed = allowed;
          ok = ok;
        })
        (omega arith) in
    (
      (send_next_fragment (started env a packet recv n)).0,
      (send_next_fragment (started env a packet recv n)).1,
      done,
      transceive-starts env a packet recv n st filled,
      carried,
      i,
      l,
    )
