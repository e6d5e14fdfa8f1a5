-- ===== src/Optiga/DataLink/Tests.antt =====
-- Runs of the data link layer at concrete inputs.
use decada_embedded_example.Base.{
  ℕ, ◌≡◌, ◌≢◌, refl, List, [], ◌∷◌, ◌++◌, true, false, inl, inr, Option, none, some, arith, bit_xor,
}
use decada_embedded_example.Base.Word.{u8, ◌>>>◌}
use decada_embedded_example.Optiga.DataLink.Crc.{crc_low, calc_crc_byte, crc_from, calc_crc}
use decada_embedded_example.Optiga.DataLink.Crc.Bitwise.{shift_rounds, calc_crc_byte-shift_rounds}
use decada_embedded_example.Optiga.DataLink.Frame.{
  next_nr, data_fctr, control_fctr, seqctr_ack, seqctr_nack, seqctr_resync,
}
use decada_embedded_example.Optiga.DataLink.Frame.Layout.{covered, layout}
use decada_embedded_example.Optiga.DataLink.Machine.{
  idle, rx, ack, success, failure, DataLink, Env, Output, transmit, notify, on_error, on_tx, on_rx,
}
use decada_embedded_example.Optiga.DataLink.Handler.{handle, round, rounds, dispatch}
use decada_embedded_example.Optiga.DataLink.Handler.Total.{handle_total}
use decada_embedded_example.Optiga.DataLink.Handler.Invariant.{Inv, IsResting, handle-Inv}
use decada_embedded_example.Optiga.DataLink.Handler.Exchange.{control_frame, expected, delivers}
use decada_embedded_example.Optiga.DataLink.Handler.Handshake.{Exchanged, exchange}
use decada_embedded_example.Optiga.DataLink.Handler.Repeat.{nack_spoils_repeat}
use decada_embedded_example.Optiga.DataLink.Handler.Refuse.{burst_refused}
use decada_embedded_example.Optiga.DataLink.Handler.GiveUp.{gives_up}

abbrev zeros : List ℕ
zeros = 0 ∷ 0 ∷ 0 ∷ 0 ∷ 0 ∷ 0 ∷ 0 ∷ 0 ∷ []

-- A transmit buffer with the payload 7, 8, 9 in its place.
abbrev loaded : List ℕ
loaded = 0 ∷ 0 ∷ 0 ∷ 7 ∷ 8 ∷ 9 ∷ 0 ∷ 0 ∷ []

abbrev fresh : DataLink
fresh = record {
  state = idle;
  tx_seq_nr = 3;
  rx_seq_nr = 3;
  action_rx_only = false;
  retransmit_counter = 0;
  error_flag = false;
  resynced = false;
  data_poll_timeout = 0;
  tx_buffer_size = 3;
  rx_buffer_size = 0;
  frame_start_time = 0;
  tx_frame = loaded;
  rx_frame = zeros;
}

abbrev waiting : DataLink
waiting = record fresh { state = rx; action_rx_only = true }

abbrev env : Env
env = record { now = 1; api_start_time = 0; send_status = success; receive_status = success }

abbrev too_late : Env
too_late = record env { now = 7000 }

abbrev payload : List ℕ
payload = 7 ∷ 8 ∷ 9 ∷ []

fresh-Inv : Inv waiting
fresh-Inv = omega arith

-- The check value of this CRC over "123456789".
check_value : calc_crc (0x31 ∷ 0x32 ∷ 0x33 ∷ 0x34 ∷ 0x35 ∷ 0x36 ∷ 0x37 ∷ 0x38 ∷ 0x39 ∷ []) ≡ 0x2189
unfolding calc_crc crc_from calc_crc_byte crc_low
check_value = refl

calc_crc_byte-shift_rounds_example :
    calc_crc_byte 0x1d0f 0x31 ≡ shift_rounds 8 (bit_xor 0x1d0f 0x31)
calc_crc_byte-shift_rounds_example = calc_crc_byte-shift_rounds 0x1d0f 0x31 (omega arith)

handle_total_example : (e : DataLink × List Output) × (handle env failure [] waiting ≡ some e)
handle_total_example = handle_total env failure [] waiting

idle_run : handle env success [] fresh ≡ some (fresh, notify on_tx none ∷ [])
unfolding handle rounds round dispatch
idle_run = refl

handle-Inv_example : Inv fresh × IsResting idle
handle-Inv_example =
    handle-Inv env success [] fresh (fresh, notify on_tx none ∷ []) (omega arith) idle_run

delivers_example :
    (mid : DataLink) × (after : DataLink) × (handle env success (expected waiting payload) waiting
      ≡ some (mid, transmit (control_frame seqctr_ack (next_nr 3)) ∷ []))
    × (handle env success [] mid ≡ some (after, notify on_rx (some payload) ∷ []))
    × (after.state ≡ idle)
    × (after.rx_seq_nr ≡ next_nr 3)
    × (after.tx_seq_nr ≡ 3)
delivers_example =
    delivers waiting payload refl fresh-Inv (omega arith) (omega arith) (omega arith) (omega arith)
      (omega arith) env env

exchange_example : Exchanged env fresh waiting 3
exchange_example =
    exchange env fresh waiting 3 refl refl fresh-Inv (record { forth = refl; back = refl }) refl
      (omega arith) (omega arith) (omega arith) (omega arith) (omega arith) (omega arith)

nack_spoils_repeat_example :
    let crc = calc_crc (covered (control_fctr seqctr_nack (next_nr 3)) []) in
    (mid : DataLink) × (after : DataLink) × (handle env success [] waiting
      ≡ some (mid, transmit (control_frame seqctr_nack (next_nr 3)) ∷ []))
    × (handle env failure [] mid
        ≡ some (
          after,
          transmit (layout (data_fctr seqctr_ack 3 3) (u8 (crc >>> 8) ∷ u8 crc ∷ 9 ∷ [])) ∷ [],
        ))
nack_spoils_repeat_example =
    nack_spoils_repeat env [] waiting 1 refl (omega arith) refl (omega arith) (omega arith) refl
      refl (omega arith)

gives_up_example :
    (mid : DataLink) × (after : DataLink) × (handle too_late failure [] waiting
      ≡ some (mid, transmit (control_frame seqctr_resync 0) ∷ []))
    × (handle env success [] mid ≡ some (after, notify on_error none ∷ []))
    × (after.state ≡ idle)
    × (after.tx_seq_nr ≡ 3)
    × (after.rx_seq_nr ≡ 3)
gives_up_example =
    gives_up too_late env success [] waiting (inr refl) refl (omega arith) (omega arith)

-- The data frame 0 1 2 | 0 3 | 7 8 9 with its length and first payload byte altered.
abbrev altered_run : Option (DataLink × List Output)
altered_run =
    let crc = calc_crc ((3 ∷ 0 ∷ []) ++ (3 ∷ 7 ∷ (8 ∷ 9 ∷ []))) in
    handle env success (((3 ∷ 0 ∷ []) ++ (2 ∷ 6 ∷ (8 ∷ 9 ∷ []))) ++ (u8 (crc >>> 8) ∷ u8 crc ∷ []))
      waiting

burst_refused_example :
    (handle_total env success
      (let crc = calc_crc ((3 ∷ 0 ∷ []) ++ (3 ∷ 7 ∷ (8 ∷ 9 ∷ []))) in
        ((3 ∷ 0 ∷ []) ++ (2 ∷ 6 ∷ (8 ∷ 9 ∷ []))) ++ (u8 (crc >>> 8) ∷ u8 crc ∷ []))
      waiting).0.0.state
    ≢ ack
burst_refused_example =
    burst_refused env waiting
      (handle_total env success
        (let crc = calc_crc ((3 ∷ 0 ∷ []) ++ (3 ∷ 7 ∷ (8 ∷ 9 ∷ []))) in
          ((3 ∷ 0 ∷ []) ++ (2 ∷ 6 ∷ (8 ∷ 9 ∷ []))) ++ (u8 (crc >>> 8) ∷ u8 crc ∷ []))
        waiting).0
      (3 ∷ 0 ∷ []) (8 ∷ 9 ∷ []) 3 7 2 6 (omega arith) (omega arith) (omega arith)
      (inl (omega arith)) refl
      (handle_total env success
        (let crc = calc_crc ((3 ∷ 0 ∷ []) ++ (3 ∷ 7 ∷ (8 ∷ 9 ∷ []))) in
          ((3 ∷ 0 ∷ []) ++ (2 ∷ 6 ∷ (8 ∷ 9 ∷ []))) ++ (u8 (crc >>> 8) ∷ u8 crc ∷ []))
        waiting).1
