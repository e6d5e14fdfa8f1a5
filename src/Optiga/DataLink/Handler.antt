-- ===== src/Optiga/DataLink/Handler.antt =====
-- `ifx_i2c_pl_event_handler`, the state machine that the physical layer drives.
pub mod Total
pub mod Invariant
pub mod Receive
pub mod Exchange
pub mod Handshake
pub mod Repeat
pub mod Refuse
pub mod GiveUp
use decada_embedded_example.Base.{
  ℕ, zero, suc, ◌+◌, ◌-◌, List, [], ◌∷◌, ◌++◌, Bool, true, false, not, ◌&&◌, ◌||◌, Option, none,
  some, length, take, drop, copy_to, ◌==◌, ltb, if◌then◌else◌,
}
use decada_embedded_example.Optiga.DataLink.Frame.{
  header_size, seqctr_ack, seqctr_nack, seqctr_resync, seqctr_rfu, next_nr, Fields, no_fields,
  analyse,
}
use decada_embedded_example.Optiga.DataLink.Machine.{
  State, uninit, idle, tx, rx, ack, resend, nack, error, discard, rx_df, rx_cf, Status, success,
  Event, on_error, on_tx, on_rx, on_tx_rx, DataLink, Env, Output, transmit, listen, notify, failed,
  is_failure, is_fatal, is_idle, max_frame_nr, send_internal, resend_frame, resync,
}

-- What one round of the handler's loop leaves: `more` is `continue_state_machine`.
pub record Round : Type 0 where
  pub link : DataLink
  pub fields : Fields
  pub outputs : List Output
  pub more : Bool

abbrev pub is_error : State → Bool
is_error error = true
is_error _ = false

-- `^` on truth values.
abbrev pub xor : Bool → Bool → Bool
xor true b = not b
xor false b = b

-- `event != IFX_I2C_STACK_SUCCESS` in the idle state.
abbrev pub idle_event : Status → Event
idle_event success = on_tx
idle_event _ = on_error

-- `break` with the loop going on in another state.
abbrev pub continue_in : DataLink → Fields → State → Round
continue_in d f s = record { link = record d { state = s }; fields = f; outputs = []; more = true }

-- The end of the activation.
abbrev pub stop_with : DataLink → Fields → List Output → Round
stop_with d f out = record { link = d; fields = f; outputs = out; more = false }

-- The end of the activation with a control frame, whose return code is dropped.
abbrev pub stop_sending : DataLink → Fields → ℕ → Round
stop_sending d f seqctr =
    let (sent, bytes) = send_internal d 0 seqctr false in stop_with sent f (transmit bytes ∷ [])

-- DL_STATE_TX
unfoldable pub on_sent : Env → Status → DataLink → Fields → Round
on_sent env event d f =
    if is_failure event
    then continue_in d f resend
    else let started = record d { frame_start_time = env.now; state = rx } in
      if failed env.receive_status
      then record {
        link = record started { state = nack };
        fields = f;
        outputs = listen ∷ [];
        more = true;
      }
      else stop_with started f (listen ∷ [])

-- DL_STATE_RX
unfoldable pub on_received : Status → DataLink → Fields → List ℕ → Round
on_received event d f p_data =
    if is_failure event
    then continue_in d f resend
    else if ltb (length p_data) header_size
    then continue_in d f nack
    else let seen = analyse p_data in
      if seen.ftype == 1 then continue_in d seen rx_cf else continue_in d seen rx_df

-- The first test of DL_STATE_RX_DF.
abbrev pub is_malformed : Fields → List ℕ → Bool
is_malformed f p_data =
    not (f.crc_received == f.crc_calculated)
    || f.packet_len == 0
    || not (length p_data == header_size + f.packet_len)
    || f.seqctr == seqctr_rfu
    || f.seqctr == seqctr_resync

-- The end of DL_STATE_RX_DF, where the frame is taken in.
abbrev pub accept : DataLink → List ℕ → DataLink
accept d p_data = record d {
  rx_seq_nr = next_nr d.rx_seq_nr;
  rx_frame = copy_to d.rx_frame 0 p_data;
  rx_buffer_size = length p_data;
  retransmit_counter = 0;
  state = ack;
}

-- DL_STATE_RX_DF
unfoldable pub on_data_frame : DataLink → Fields → List ℕ → Round
on_data_frame d f p_data =
    if is_malformed f p_data
    then continue_in d f nack
    else if not (f.fr_nr == next_nr d.rx_seq_nr)
    then stop_sending (record d { state = discard }) f seqctr_ack
    else if not (f.ack_nr == d.tx_seq_nr)
    then continue_in d f discard
    else if f.seqctr == seqctr_nack
    then continue_in d f resend
    else stop_sending (accept d p_data) f seqctr_ack

-- DL_STATE_RX_CF
unfoldable pub on_control_frame : DataLink → Fields → List ℕ → Round
on_control_frame d f p_data =
    if xor d.action_rx_only (f.seqctr == seqctr_resync)
    then continue_in d f discard
    else if not (f.crc_received == f.crc_calculated)
    then continue_in d f resend
    else if ltb header_size (length p_data) || not (f.packet_len == 0)
    then continue_in d f discard
    else if f.seqctr == seqctr_resync
    then continue_in
        (record d { resynced = true; tx_seq_nr = max_frame_nr; rx_seq_nr = max_frame_nr }) f discard
    else if not (f.fr_nr == 0) || f.seqctr == seqctr_rfu || not (f.ack_nr == d.tx_seq_nr)
    then continue_in d f discard
    else if f.seqctr == seqctr_nack
    then continue_in d f resend
    else stop_with (record d { state = idle }) f (notify on_tx none ∷ [])

-- The payload of the frame in the receive buffer, as it is handed to the transport layer.
abbrev pub received : DataLink → List ℕ
received d = take (d.rx_buffer_size - header_size) (drop 3 d.rx_frame)

-- DL_STATE_ACK
unfoldable pub on_acknowledged : Status → DataLink → Fields → Round
on_acknowledged event d f =
    if is_failure event
    then continue_in d f resend
    else stop_with (record d { state = idle }) f
        (notify (if d.action_rx_only then on_rx else on_tx_rx) (some (received d)) ∷ [])

-- DL_STATE_RESEND
unfoldable pub on_resend : Env → DataLink → Fields → Round
on_resend env d f =
    let (sent, out) = resend_frame env d seqctr_ack in
    record { link = sent; fields = f; outputs = out; more = is_error sent.state }

-- DL_STATE_ERROR
unfoldable pub on_failure : DataLink → Fields → Round
on_failure d f =
    if d.resynced && not d.error_flag
    then stop_with (record d { state = idle }) f (notify on_error none ∷ [])
    else let (sent, bytes) = resync d in
      stop_with (record sent { state = error; error_flag = false }) f (transmit bytes ∷ [])

-- The `switch`. The last case is its default.
unfoldable pub dispatch : State → Env → Status → List ℕ → Fields → DataLink → Round
unfolding on_sent on_received on_data_frame on_control_frame on_acknowledged on_resend on_failure
dispatch idle env event p_data f d = stop_with d f (notify (idle_event event) none ∷ [])
dispatch tx env event p_data f d = on_sent env event d f
dispatch rx env event p_data f d = on_received event d f p_data
dispatch rx_df env event p_data f d = on_data_frame d f p_data
dispatch rx_cf env event p_data f d = on_control_frame d f p_data
dispatch discard env event p_data f d = stop_with (record d { state = rx }) f (listen ∷ [])
dispatch ack env event p_data f d = on_acknowledged event d f
dispatch nack env event p_data f d = stop_sending (record d { state = tx }) f seqctr_nack
dispatch resend env event p_data f d = on_resend env d f
dispatch error env event p_data f d = on_failure d f
dispatch uninit env event p_data f d =
    stop_with (record d { state = idle }) f (notify on_error none ∷ [])

-- A fatal error overrides every state but the idle one.
abbrev pub override : Status → DataLink → DataLink
override event d = if is_fatal event && not (is_idle d.state) then record d { state = error } else d

-- The body of the loop.
unfoldable pub round : Env → Status → List ℕ → Fields → DataLink → Round
unfolding dispatch
round env event p_data f d = let d' = override event d in dispatch d'.state env event p_data f d'

-- The outputs of a round come before those of the rounds after it.
abbrev pub prepend : List Output → Option (DataLink × List Output) → Option (DataLink × List Output)
prepend out none = none
prepend out (some (d, later)) = some (d, out ++ later)

-- The loop, with fuel; `none` means that the fuel ran out.
unfoldable pub rounds :
    ℕ → Env → Status → List ℕ → Fields → DataLink → Option (DataLink × List Output)
rounds zero env event p_data f d = none
rounds (suc fuel) env event p_data f d =
    let r = round env event p_data f d in
    let rest = rounds fuel env event p_data r.fields r.link in
    if r.more then prepend r.outputs rest else some (r.link, r.outputs)

-- `ifx_i2c_pl_event_handler`
unfoldable pub handle : Env → Status → List ℕ → DataLink → Option (DataLink × List Output)
handle env event p_data d = rounds 4 env event p_data no_fields d
