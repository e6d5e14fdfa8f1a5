-- ===== src/Optiga/DataLink/Handler/Repeat.antt =====
-- Retransmission, and frames that are not taken in.
use decada_embedded_example.Base.{
  ℕ, suc, ◌+◌, ◌≤◌, ◌<◌, ◌≡◌, ◌≢◌, refl, ap, ap₂, ◌∙◌, List, [], ◌∷◌, false, ◌⊎◌, inl, some, arith,
  length, drop, ◌==◌,
}
use decada_embedded_example.Base.Word.{sub32, u8, ◌>>>◌}
use decada_embedded_example.Optiga.DataLink.Crc.{calc_crc}
use decada_embedded_example.Optiga.DataLink.Frame.{
  no_fields, next_nr, header_size, data_fctr, control_fctr, seqctr_ack, seqctr_nack,
}
use decada_embedded_example.Optiga.DataLink.Frame.Layout.{covered, layout}
use decada_embedded_example.Optiga.DataLink.Frame.Buffer.{
  payload_in, payload_in-seal_control, take-seal_in, length-seal,
}
use decada_embedded_example.Optiga.DataLink.Machine.{
  tx, rx, resend, nack, success, failure, DataLink, Env, Output, transmit, send_internal,
  resend_frame, resend_or_resync, max_repeats, exit_timeout,
}
use decada_embedded_example.Optiga.DataLink.Handler.{
  continue_in, stop_sending, dispatch, round, handle, on_resend, on_sent, on_received, prepend,
}
use decada_embedded_example.Optiga.DataLink.Handler.Total.{rounds-stop, rounds-more}
use decada_embedded_example.Optiga.DataLink.Handler.Exchange.{control_frame, send_nack}

-- The data frame in the transmit buffer under the number that was sent last.
abbrev pub last_frame : DataLink → List ℕ
last_frame d =
    layout (data_fctr seqctr_ack d.rx_seq_nr d.tx_seq_nr) (payload_in d.tx_buffer_size d.tx_frame)

repeat_bytes :
    (d : DataLink)
    → d.resynced ≡ false
    → d.retransmit_counter ≢ max_repeats
    → d.tx_buffer_size ≢ 0
    → header_size + d.tx_buffer_size ≤ length d.tx_frame
    → (resend_or_resync d seqctr_ack).1 ≡ last_frame d
unfolding resend_or_resync send_internal
repeat_bytes d synced few filled room =
    let some_bytes : (d.tx_buffer_size == 0) ≡ false = ground arith in
    let again : (d.retransmit_counter == max_repeats) ≡ false = ground arith in
    let whole =
      take-seal_in (data_fctr seqctr_ack d.rx_seq_nr d.tx_seq_nr) d.tx_buffer_size d.tx_frame
        room in
    ground arith

repeat_state :
    (d : DataLink)
    → d.resynced ≡ false
    → d.retransmit_counter ≢ max_repeats
    → ((resend_or_resync d seqctr_ack).0.state ≡ tx)
      × ((resend_or_resync d seqctr_ack).0.tx_seq_nr ≡ d.tx_seq_nr)
      × ((resend_or_resync d seqctr_ack).0.retransmit_counter ≡ d.retransmit_counter + 1)
unfolding resend_or_resync send_internal
repeat_state d synced few = ground arith

resend_frame-in_time :
    (env : Env) (d : DataLink)
    → sub32 env.now env.api_start_time < exit_timeout
    → env.send_status ≡ success
    → resend_frame env d seqctr_ack
      ≡ ((resend_or_resync d seqctr_ack).0, transmit (resend_or_resync d seqctr_ack).1 ∷ [])
unfolding resend_frame
resend_frame-in_time env d in_time sent = ground arith

pub round-failed :
    (env : Env) (d : DataLink)
    → (d.state ≡ tx) ⊎ (d.state ≡ rx)
    → round env failure [] no_fields d ≡ continue_in d no_fields resend
unfolding round dispatch on_sent on_received
round-failed env d waits = ground arith

round-resend :
    (env : Env) (d : DataLink) (after : DataLink) (out : List Output)
    → resend_frame env d seqctr_ack ≡ (after, out)
    → d.state ≡ resend
    → after.state ≡ tx
    → round env failure [] no_fields d
      ≡ record { link = after; fields = no_fields; outputs = out; more = false }
unfolding round dispatch on_resend
round-resend env d after out e st sent = ground arith

-- A write or a reception that failed before the time is up, with repetitions left, no re-sync
-- pending, a non-empty packet that fits the buffer and a physical layer that takes the frame,
-- sends the same frame again: same number, same acknowledgement, and the payload that stands in
-- the buffer. The repetition is counted.
pub failure_repeats :
    (env : Env) (d : DataLink)
    → (d.state ≡ tx) ⊎ (d.state ≡ rx)
    → d.resynced ≡ false
    → d.retransmit_counter ≢ max_repeats
    → sub32 env.now env.api_start_time < exit_timeout
    → env.send_status ≡ success
    → d.tx_buffer_size ≢ 0
    → header_size + d.tx_buffer_size ≤ length d.tx_frame
    → (after : DataLink) × (handle env failure [] d ≡ some (after, transmit (last_frame d) ∷ []))
      × (after.state ≡ tx)
      × (after.tx_seq_nr ≡ d.tx_seq_nr)
      × (after.retransmit_counter ≡ d.retransmit_counter + 1)
unfolding handle
failure_repeats env d waits synced few in_time sent filled room =
    let r : DataLink = record d { state = resend } in
    let after = (resend_or_resync r seqctr_ack).0 in
    let (st, nr, counted) = repeat_state r synced few in
    let sends =
      resend_frame-in_time env r in_time sent
      ∙ ap (λ (b : List ℕ). (after, transmit b ∷ [])) (repeat_bytes r synced few filled room) in
    (
      after,
      rounds-more 3 env failure [] no_fields d (continue_in d no_fields resend)
            (round-failed env d waits) refl
          ∙ ap (prepend []) (
              rounds-stop 2 env failure [] no_fields r
                (record {
                  link = after;
                  fields = no_fields;
                  outputs = transmit (last_frame d) ∷ [];
                  more = false;
                })
                (round-resend env r after (transmit (last_frame d) ∷ []) sends refl st) refl),
      st,
      nr,
      counted,
    )

-- A frame too short to be one, or with an unusable header, is answered with a NACK, and the NACK is
-- written into the transmit buffer.
short_frame-nack :
    (env : Env) (p_data : List ℕ) (d : DataLink)
    → d.state ≡ rx
    → length p_data < header_size
    → handle env success p_data d
      ≡ some (
        (send_internal (record d { state = tx }) 0 seqctr_nack false).0,
        transmit (send_internal (record d { state = tx }) 0 seqctr_nack false).1 ∷ [],
      )
unfolding handle round dispatch on_received
short_frame-nack env p_data d st short =
    rounds-more 3 env success p_data no_fields d (continue_in d no_fields nack) (ground arith) refl
    ∙ ap (prepend []) (
        rounds-stop 2 env success p_data no_fields (record d { state = nack })
          (stop_sending (record d { state = tx }) no_fields seqctr_nack) refl refl)

nack-keeps :
    (d : DataLink)
    → let e = (send_internal d 0 seqctr_nack false).0 in
      (e.state ≡ d.state)
      × (e.resynced ≡ d.resynced)
      × (e.retransmit_counter ≡ d.retransmit_counter)
      × (e.tx_buffer_size ≡ d.tx_buffer_size)
      × (e.tx_seq_nr ≡ d.tx_seq_nr)
      × (e.rx_seq_nr ≡ d.rx_seq_nr)
      × (length e.tx_frame ≡ length d.tx_frame)
unfolding send_internal
nack-keeps d = (
  refl,
  refl,
  refl,
  refl,
  refl,
  refl,
  length-seal (control_fctr seqctr_nack (next_nr d.rx_seq_nr)) 0 d.tx_frame,
)

nack-spoils :
    (d : DataLink) (m : ℕ)
    → header_size + m ≤ length d.tx_frame
    → payload_in (suc (suc m)) (send_internal d 0 seqctr_nack false).0.tx_frame ≡ (
        let crc = calc_crc (covered (control_fctr seqctr_nack (next_nr d.rx_seq_nr)) []) in
        u8 (crc >>> 8) ∷ u8 crc ∷ payload_in m (drop 2 d.tx_frame))
unfolding send_internal
nack-spoils d m room =
    payload_in-seal_control (control_fctr seqctr_nack (next_nr d.rx_seq_nr)) m d.tx_frame room

-- After a short frame was answered with a NACK, a failed write makes the layer send its data frame
-- again with another payload: the first two bytes of the packet are replaced by the checksum of
-- the NACK, under the old number and a checksum that fits the altered bytes. The time is not up,
-- repetitions are left, no re-sync is pending, the physical layer takes the frame, and the packet
-- has two bytes at least and fits the buffer.
pub nack_spoils_repeat :
    (env : Env) (p_data : List ℕ) (d : DataLink) (m : ℕ)
    → d.state ≡ rx
    → length p_data < header_size
    → d.resynced ≡ false
    → d.retransmit_counter ≢ max_repeats
    → sub32 env.now env.api_start_time < exit_timeout
    → env.send_status ≡ success
    → d.tx_buffer_size ≡ suc (suc m)
    → header_size + d.tx_buffer_size ≤ length d.tx_frame
    → let crc = calc_crc (covered (control_fctr seqctr_nack (next_nr d.rx_seq_nr)) []) in
      (mid : DataLink) × (after : DataLink) × (handle env success p_data d
        ≡ some (mid, transmit (control_frame seqctr_nack (next_nr d.rx_seq_nr)) ∷ []))
      × (handle env failure [] mid
          ≡ some (
            after,
            transmit (
                  layout
                    (data_fctr seqctr_ack d.rx_seq_nr d.tx_seq_nr)
                    (u8 (crc >>> 8) ∷ u8 crc ∷ payload_in m (drop 2 d.tx_frame)))
                ∷ [],
          ))
nack_spoils_repeat env p_data d m st short synced few in_time sent size room =
    let s : DataLink = record d { state = tx } in
    let mid = (send_internal s 0 seqctr_nack false).0 in
    let (e0, e1, e2, e3, e4, e5, e6) = nack-keeps s in
    let (after, repeats, _, _, _) =
      failure_repeats env mid (inl e0) (e1 ∙ synced) (rw e2 few) in_time sent (omega (arith, e3))
        (omega (arith, e3, e6)) in
    let altered : last_frame mid
        ≡ layout (data_fctr seqctr_ack d.rx_seq_nr d.tx_seq_nr)
            (payload_in (suc (suc m)) mid.tx_frame) =
      ap₂ (λ (k : ℕ) (l : List ℕ). layout k l) (ap₂ (data_fctr seqctr_ack) e5 e4)
        (ap (λ (k : ℕ). payload_in k mid.tx_frame) (e3 ∙ size)) in
    (
      mid,
      after,
      short_frame-nack env p_data d st short
          ∙ ap (λ (b : List ℕ). some (mid, transmit b ∷ [])) (send_nack s (omega arith)),
      repeats
          ∙ ap (λ (b : List ℕ). some (after, transmit b ∷ []))
              (altered
                ∙ ap (layout (data_fctr seqctr_ack d.rx_seq_nr d.tx_seq_nr))
                    (nack-spoils s m (omega arith))),
    )
