-- ===== src/Optiga/DataLink/Machine.antt =====
-- The state of the data link layer (`ifx_i2c_dl_t`) and its functions. The physical layer below is
-- an input: what its two entry points return. A call of it, or of the transport layer's handler, is
-- an output of the step that makes it.
use decada_embedded_example.Base.{
  ℕ, ◌+◌, List, [], ◌∷◌, Bool, true, false, not, ◌||◌, Option, none, some, take, ◌==◌, ltb,
  if◌then◌else◌,
}
use decada_embedded_example.Base.Word.{sub32}
use decada_embedded_example.Optiga.DataLink.Frame.{
  header_size, seqctr_ack, seqctr_nack, seqctr_resync, next_nr, seal, data_fctr, control_fctr,
}

-- DL_STATE_*
pub data State : Type 0 where
  uninit idle tx rx ack resend nack error discard rx_df rx_cf : State

-- `host_lib_status_t` of the stack, IFX_I2C_STACK_* and IFX_I2C_FATAL_ERROR.
pub data Status : Type 0 where
  success failure busy mem_error fatal : Status

-- The flags IFX_I2C_DL_EVENT_* that the layer raises to its client, alone or together.
pub data Event : Type 0 where
  on_error on_tx on_rx on_tx_rx : Event

-- `p_tx_frame_buffer` and `p_rx_frame_buffer` are the arrays `tx_frame` and `rx_frame`.
pub record DataLink : Type 0 where
  pub state : State
  pub tx_seq_nr : ℕ
  pub rx_seq_nr : ℕ
  pub action_rx_only : Bool
  pub retransmit_counter : ℕ
  pub error_flag : Bool
  pub resynced : Bool
  pub data_poll_timeout : ℕ
  pub tx_buffer_size : ℕ
  pub rx_buffer_size : ℕ
  pub frame_start_time : ℕ
  pub tx_frame : List ℕ
  pub rx_frame : List ℕ

-- What one activation finds outside the layer: the millisecond clock, `tl.api_start_time`, and what
-- `ifx_i2c_pl_send_frame` and `ifx_i2c_pl_receive_frame` return if they are called.
pub record Env : Type 0 where
  pub now : ℕ
  pub api_start_time : ℕ
  pub send_status : Status
  pub receive_status : Status

-- `notify e none` is a call with a null pointer and length 0.
pub data Output : Type 0 where
  transmit : List ℕ → Output
  listen : Output
  notify : Event → Option (List ℕ) → Output

-- DL_MAX_FRAME_NUM, DL_TRANS_REPEAT, TL_MAX_EXIT_TIMEOUT * 1000, PL_TRANS_TIMEOUT_MS
abbrev pub max_frame_nr : ℕ
max_frame_nr = 3

abbrev pub max_repeats : ℕ
max_repeats = 3

abbrev pub exit_timeout : ℕ
exit_timeout = 6000

abbrev pub trans_timeout : ℕ
trans_timeout = 10

-- `if (status)`
abbrev pub failed : Status → Bool
failed success = false
failed _ = true

abbrev pub is_failure : Status → Bool
is_failure failure = true
is_failure _ = false

abbrev pub is_fatal : Status → Bool
is_fatal fatal = true
is_fatal _ = false

abbrev pub is_idle : State → Bool
is_idle idle = true
is_idle _ = false

-- `ifx_i2c_dl_init` on the context `d`; `pl_status` is what
-- `ifx_i2c_pl_init` returns.
unfoldable pub init : Status → DataLink → Status × DataLink
init pl_status d = if failed pl_status then (failure, record d { state = uninit }) else (
  success,
  record d {
    state = idle;
    tx_seq_nr = max_frame_nr;
    rx_seq_nr = max_frame_nr;
    resynced = false;
    error_flag = false;
  },
)

-- `ifx_i2c_dl_send_frame_internal`: the state after the call, and the bytes handed to the physical
-- layer. A re-sync is written into the receive buffer, every other frame into the transmit buffer.
unfoldable pub send_internal : DataLink → ℕ → ℕ → Bool → DataLink × List ℕ
send_internal d frame_len seqctr again =
    let is_resync = seqctr == seqctr_resync in
    let ack_nr =
      if is_resync then 0 else if seqctr == seqctr_nack then next_nr d.rx_seq_nr else d.rx_seq_nr in
    let buffer = if is_resync then d.rx_frame else d.tx_frame in
    let fr_nr = if not again || d.resynced then next_nr d.tx_seq_nr else d.tx_seq_nr in
    let is_control = frame_len == 0 in
    let fctr = if is_control then control_fctr seqctr ack_nr else data_fctr seqctr ack_nr fr_nr in
    let frame = seal fctr frame_len buffer in
    (
      record d {
        tx_seq_nr = if is_control then d.tx_seq_nr else fr_nr;
        resynced = if is_control then d.resynced else false;
        tx_frame = if is_resync then d.tx_frame else frame;
        rx_frame = if is_resync then frame else d.rx_frame;
      },
      take (header_size + frame_len) frame,
    )

-- `ifx_i2c_dl_send_frame`. The payload stands in the transmit buffer already. `none` is no call of
-- the physical layer.
unfoldable pub send_frame : Env → DataLink → ℕ → Status × DataLink × Option (List ℕ)
send_frame env d frame_len =
    if not (is_idle d.state) || frame_len == 0
    then (failure, d, none)
    else let ready = record d {
      state = tx;
      retransmit_counter = 0;
      action_rx_only = false;
      tx_buffer_size = frame_len;
      data_poll_timeout = trans_timeout;
    } in
      let (sent, bytes) = send_internal ready frame_len seqctr_ack false in
      (env.send_status, sent, some bytes)

-- `ifx_i2c_dl_receive_frame`. The flag tells whether the physical layer is called.
unfoldable pub receive_frame : Env → DataLink → Status × DataLink × Bool
receive_frame env d = if not (is_idle d.state) then (failure, d, false) else (
  env.receive_status,
  record d {
    state = rx;
    retransmit_counter = 0;
    action_rx_only = true;
    frame_start_time = env.now;
    data_poll_timeout = exit_timeout;
  },
  true,
)

-- `ifx_i2c_dl_resync`
unfoldable pub resync : DataLink → DataLink × List ℕ
resync d =
    send_internal
      (record d {
        tx_seq_nr = max_frame_nr;
        rx_seq_nr = max_frame_nr;
        resynced = true;
        state = resend;
      })
      0 seqctr_resync false

-- The retransmission, or the re-sync after `max_repeats` of them.
unfoldable pub resend_or_resync : DataLink → ℕ → DataLink × List ℕ
resend_or_resync d seqctr =
    if d.retransmit_counter == max_repeats
    then resync (record d { retransmit_counter = 0 })
    else send_internal (record d { retransmit_counter = d.retransmit_counter + 1; state = tx })
        d.tx_buffer_size seqctr true

-- `ifx_i2c_dl_resend_frame`
unfoldable pub resend_frame : Env → DataLink → ℕ → DataLink × List Output
resend_frame env d seqctr =
    if ltb (sub32 env.now env.api_start_time) exit_timeout
    then (let (sent, bytes) = resend_or_resync d seqctr in
        (
          if failed env.send_status then record sent { state = nack } else sent,
          transmit bytes ∷ [],
        ))
    else (record d { state = error }, [])
