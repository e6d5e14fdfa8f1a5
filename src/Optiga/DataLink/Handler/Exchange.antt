-- ===== src/Optiga/DataLink/Handler/Exchange.antt =====
-- Frames that are sent, taken in and acknowledged.
use mathlib.Core.List.{append_assoc}
use decada_embedded_example.Base.{
  ℕ, ◌+◌, ◌-◌, ◌^◌, ◌≤◌, ◌<◌, ◌≡◌, ◌≢◌, refl, ap, ap₂, ◌∙◌, List, [], ◌∷◌, ◌++◌, false, none, some,
  arith, length, take, drop, copy_to_start, ◌==◌, length-append, take-append, if◌then◌else◌,
}
use decada_embedded_example.Base.Word.{u8, ◌>>>◌}
use decada_embedded_example.Optiga.DataLink.Crc.{calc_crc}
use decada_embedded_example.Optiga.DataLink.Crc.Detection.{IsBytes}
use decada_embedded_example.Optiga.DataLink.Frame.{
  Fields, no_fields, next_nr, header_size, analyse, data_fctr, control_fctr, seqctr_ack,
  seqctr_nack,
}
use decada_embedded_example.Optiga.DataLink.Frame.Layout.{covered, layout}
use decada_embedded_example.Optiga.DataLink.Frame.Buffer.{take-seal_in, payload_in}
use decada_embedded_example.Optiga.DataLink.Machine.{
  idle, tx, rx, ack, rx_df, rx_cf, success, DataLink, Env, transmit, notify, on_tx, on_rx, on_tx_rx,
  send_internal, send_frame, trans_timeout,
}
use decada_embedded_example.Optiga.DataLink.Handler.{
  accept, received, stop_sending, stop_with, on_data_frame, on_control_frame, dispatch, round,
  handle, on_acknowledged,
}
use decada_embedded_example.Optiga.DataLink.Handler.Invariant.{Inv, next_nr-eq-mod}
use decada_embedded_example.Optiga.DataLink.Handler.Total.{rounds-stop}
use decada_embedded_example.Optiga.DataLink.Handler.Receive.{
  analyse-data, analyse-control, handle-data_frame, handle-control_frame,
}

-- The bytes of a control frame that names the frame number `nr`.
abbrev pub control_frame : ℕ → ℕ → List ℕ
control_frame seqctr nr = layout (control_fctr seqctr nr) []

pub length-layout :
    (fctr : ℕ) (payload : List ℕ) → length (layout fctr payload) ≡ header_size + length payload
length-layout fctr payload =
    let crc = calc_crc (covered fctr payload) in
    omega (arith, length-append payload (u8 (crc >>> 8) ∷ u8 crc ∷ []))

-- An ACK carries the number of the last frame taken in.
pub send_ack :
    (d : DataLink)
    → header_size ≤ length d.tx_frame
    → (send_internal d 0 seqctr_ack false).1 ≡ control_frame seqctr_ack d.rx_seq_nr
unfolding send_internal
send_ack d room = take-seal_in (control_fctr seqctr_ack d.rx_seq_nr) 0 d.tx_frame room

-- A NACK carries the number of the frame that is expected.
pub send_nack :
    (d : DataLink)
    → header_size ≤ length d.tx_frame
    → (send_internal d 0 seqctr_nack false).1 ≡ control_frame seqctr_nack (next_nr d.rx_seq_nr)
unfolding send_internal
send_nack d room = take-seal_in (control_fctr seqctr_nack (next_nr d.rx_seq_nr)) 0 d.tx_frame room

on_data_frame-accept :
    (d : DataLink) (f : Fields) (p_data : List ℕ)
    → f.crc_received ≡ f.crc_calculated
    → f.packet_len ≢ 0
    → length p_data ≡ header_size + f.packet_len
    → f.seqctr ≡ seqctr_ack
    → f.fr_nr ≡ next_nr d.rx_seq_nr
    → f.ack_nr ≡ d.tx_seq_nr
    → on_data_frame d f p_data ≡ stop_sending (accept d p_data) f seqctr_ack
unfolding on_data_frame
on_data_frame-accept d f p_data c l s q n a = ground arith

-- The payload of a frame is what the receive buffer hands on after it was copied there.
received-accept :
    (d : DataLink) (fctr : ℕ) (payload : List ℕ)
    → header_size + length payload ≤ length d.rx_frame
    → received (accept d (layout fctr payload)) ≡ payload
received-accept d fctr payload room =
    let frame = layout fctr payload in
    let crc = calc_crc (covered fctr payload) in
    let sum = u8 (crc >>> 8) ∷ u8 crc ∷ [] in
    let rest = drop (length frame) d.rx_frame in
    let whole = length-layout fctr payload in
    let size : length frame - header_size ≡ length payload = omega arith in
    let fits : length frame ≤ length d.rx_frame = omega arith in
    ap₂ (λ (k : ℕ) (b : List ℕ). take k (drop 3 b)) size (copy_to_start d.rx_frame frame fits)
    ∙ ap (take (length payload)) (append_assoc payload sum rest)
    ∙ take-append payload (sum ++ rest)

-- What the layer holds after it has taken a frame in and sent its ACK.
abbrev pub taken : DataLink → List ℕ → DataLink
taken d frame = (send_internal (accept d frame) 0 seqctr_ack false).0

taken-keeps :
    (d : DataLink) (frame : List ℕ)
    → ((taken d frame).state ≡ ack)
      × ((taken d frame).tx_seq_nr ≡ d.tx_seq_nr)
      × ((taken d frame).rx_seq_nr ≡ next_nr d.rx_seq_nr)
      × ((taken d frame).action_rx_only ≡ d.action_rx_only)
      × (received (taken d frame) ≡ received (accept d frame))
unfolding send_internal
taken-keeps d frame = (refl, refl, refl, refl, refl)

-- The frame that the layer expects: next in sequence, and acknowledging the last frame sent.
abbrev pub expected : DataLink → List ℕ → List ℕ
expected d payload = layout (data_fctr seqctr_ack d.tx_seq_nr (next_nr d.rx_seq_nr)) payload

module _ (d : DataLink) (payload : List ℕ) (waiting : d.state ≡ rx) (v : Inv d)
    (bytes : IsBytes payload) (filled : length payload ≢ 0) (short : length payload < 2 ^ 16)
    (room_rx : header_size + length payload ≤ length d.rx_frame)
    (room_tx : header_size ≤ length d.tx_frame) where
  abbrev frame : List ℕ
  frame = expected d payload

  abbrev reading : DataLink
  reading = record d { state = rx_df }

  analysed : analyse frame ≡ record {
    ftype = 0;
    seqctr = seqctr_ack;
    ack_nr = d.tx_seq_nr;
    fr_nr = next_nr d.rx_seq_nr;
    packet_len = length payload;
    crc_received =
        calc_crc (covered (data_fctr seqctr_ack d.tx_seq_nr (next_nr d.rx_seq_nr)) payload);
    crc_calculated =
        calc_crc (covered (data_fctr seqctr_ack d.tx_seq_nr (next_nr d.rx_seq_nr)) payload);
  }
  analysed =
      analyse-data seqctr_ack d.tx_seq_nr (next_nr d.rx_seq_nr) payload (omega arith) v.tx_two_bits
        (omega (arith, next_nr-eq-mod d.rx_seq_nr)) bytes short

  takes_in :
      (env : Env)
      → handle env success frame d
        ≡ some (taken reading frame, transmit (control_frame seqctr_ack (next_nr d.rx_seq_nr)) ∷ [])
  takes_in env =
      let size = length-layout (data_fctr seqctr_ack d.tx_seq_nr (next_nr d.rx_seq_nr)) payload in
      let f = analyse frame in
      let accepted : on_data_frame reading f frame
          ≡ stop_sending (accept reading frame) f seqctr_ack =
        on_data_frame-accept reading f frame (rw analysed) (rw analysed filled) (rw analysed size)
          (rw analysed) (rw analysed) (rw analysed) in
      handle-data_frame env frame d (stop_sending (accept reading frame) f seqctr_ack) waiting
        (omega arith) (rw analysed) accepted refl
      ∙ ap (λ (b : List ℕ). some (taken reading frame, transmit b ∷ []))
          (send_ack (accept reading frame) room_tx)

  hands_on :
      (env : Env)
      → handle env success [] (taken reading frame)
        ≡ some (
          record (taken reading frame) { state = idle },
          notify (if d.action_rx_only then on_rx else on_tx_rx) (some payload) ∷ [],
        )
  unfolding handle round dispatch on_acknowledged send_internal
  hands_on env =
      rounds-stop 3 env success [] no_fields (taken reading frame)
        (stop_with (record (taken reading frame) { state = idle }) no_fields
          (notify (if d.action_rx_only then on_rx else on_tx_rx)
              (some (received (accept reading frame)))
            ∷ []))
        refl refl
      ∙ ap
          (λ (p : List ℕ). some (
            record (taken reading frame) { state = idle },
            notify (if d.action_rx_only then on_rx else on_tx_rx) (some p) ∷ [],
          ))
          (received-accept reading (data_fctr seqctr_ack d.tx_seq_nr (next_nr d.rx_seq_nr)) payload
            room_rx)

  -- A layer that waits in the receive state, within the invariant and with room in its buffers,
  -- takes the expected data frame in: it answers with an ACK of the frame's number, counts it, and
  -- when the ACK is out hands exactly the payload to the transport layer and is idle.
  pub delivers :
      (env later : Env)
      → (mid : DataLink) × (after : DataLink) × (handle env success frame d
          ≡ some (mid, transmit (control_frame seqctr_ack (next_nr d.rx_seq_nr)) ∷ []))
        × (handle later success [] mid
            ≡ some
                (after, notify (if d.action_rx_only then on_rx else on_tx_rx) (some payload) ∷ []))
        × (after.state ≡ idle)
        × (after.rx_seq_nr ≡ next_nr d.rx_seq_nr)
        × (after.tx_seq_nr ≡ d.tx_seq_nr)
  unfolding send_internal
  delivers env later = (
    taken reading frame,
    record (taken reading frame) { state = idle },
    takes_in env,
    hands_on later,
    refl,
    refl,
    refl,
  )

on_control_frame-ack :
    (d : DataLink) (f : Fields) (p_data : List ℕ)
    → d.action_rx_only ≡ false
    → f.crc_received ≡ f.crc_calculated
    → length p_data ≡ header_size
    → f.packet_len ≡ 0
    → f.seqctr ≡ seqctr_ack
    → f.fr_nr ≡ 0
    → f.ack_nr ≡ d.tx_seq_nr
    → on_control_frame d f p_data ≡ stop_with (record d { state = idle }) f (notify on_tx none ∷ [])
unfolding on_control_frame
on_control_frame-ack d f p_data o c l k s n a = ground arith

-- The ACK of the frame that was sent last ends the transmission.
pub ack_completes :
    (env : Env) (d : DataLink)
    → d.state ≡ rx
    → d.action_rx_only ≡ false
    → d.tx_seq_nr < 4
    → handle env success (control_frame seqctr_ack d.tx_seq_nr) d
      ≡ some (record d { state = idle }, notify on_tx none ∷ [])
ack_completes env d waiting sent small =
    let f = analyse (control_frame seqctr_ack d.tx_seq_nr) in
    let read = analyse-control seqctr_ack d.tx_seq_nr (omega arith) small in
    handle-control_frame env (control_frame seqctr_ack d.tx_seq_nr) d
      (stop_with (record d { state = idle }) f (notify on_tx none ∷ [])) waiting (omega arith)
      (rw read)
      (on_control_frame-ack (record d { state = rx_cf }) f (control_frame seqctr_ack d.tx_seq_nr)
        sent (rw read) refl (rw read) (rw read) (rw read) (rw read))
      refl

-- A new data frame carries the next number, acknowledges the last frame taken in, and holds the
-- payload that stands in the transmit buffer.
send_data :
    (d : DataLink) (n : ℕ)
    → n ≢ 0
    → header_size + n ≤ length d.tx_frame
    → (send_internal d n seqctr_ack false).1
      ≡ layout (data_fctr seqctr_ack d.rx_seq_nr (next_nr d.tx_seq_nr)) (payload_in n d.tx_frame)
unfolding send_internal
send_data d n filled room =
    let some_bytes : (n == 0) ≡ false = ground arith in
    rw some_bytes
      (take-seal_in (data_fctr seqctr_ack d.rx_seq_nr (next_nr d.tx_seq_nr)) n d.tx_frame room)

-- The layer after `send_frame` was let through.
abbrev pub sending : DataLink → ℕ → DataLink
sending d n = record d {
  state = tx;
  retransmit_counter = 0;
  action_rx_only = false;
  tx_buffer_size = n;
  data_poll_timeout = trans_timeout;
}

pub send_frame_lem :
    (env : Env) (d : DataLink) (n : ℕ)
    → d.state ≡ idle
    → n ≢ 0
    → header_size + n ≤ length d.tx_frame
    → send_frame env d n ≡ (
      env.send_status,
      (send_internal (sending d n) n seqctr_ack false).0,
      some (
          layout
            (data_fctr seqctr_ack d.rx_seq_nr (next_nr d.tx_seq_nr))
            (payload_in n d.tx_frame)),
    )
unfolding send_frame
send_frame_lem env d n free filled room =
    let bytes = send_data (sending d n) n filled room in ground arith
