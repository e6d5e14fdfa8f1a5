-- ===== src/Optiga/Physical/Frames.antt =====
-- The frame state machine `ifx_i2c_pl_frame_event_handler` with the soft reset, the timer's
-- callbacks, the I2C driver's events, and the entry points of the layer.
pub mod Run
pub mod Receive
pub mod Failures
pub mod Refused
pub mod Bounds
pub mod Opening
use decada_embedded_example.Base.{
  ℕ, zero, suc, ◌+◌, ◌-◌, List, [], ◌∷◌, ◌++◌, Bool, true, false, not, ◌&&◌, ◌||◌, Option, none,
  some, length, take, set, bit_and, ◌==◌, ltb, leb, if◌then◌else◌,
}
use decada_embedded_example.Base.Word.{sub16, sub32}
use decada_embedded_example.Optiga.DataLink.Machine.{Status, success, failure, fatal, failed}
use decada_embedded_example.Optiga.Comms.Stack.{startup_time}
use decada_embedded_example.Optiga.Physical.Machine.{
  FrameState, uninit, init, ready, data_available, rxtx, soft_reset, set_freq_default, SoftReset,
  not_requested, requested, get_status_reg, reset_write, reset_startup, reset_init, Action, reading,
  writing, Callback, negotiate_again, poll_status, restart_transfer, guard_time_over, reset_again,
  PalEvent, pal_success, pal_error, pal_busy, Physical, Env, Output, i2c_write, i2c_read,
  call_later, report, deliver, reg_data, reg_i2c_state, reg_base_addr, reg_soft_reset,
  reg_len_i2c_state, polling_max, polling_interval, data_polling_interval, guard_time, byte_of,
  word_of, read_register, write_register,
}
use decada_embedded_example.Optiga.Physical.Negotiation.{negotiate}

-- A step with what it puts out; `none` is a negotiation that ran out of fuel.
abbrev pub Step : Type 0
Step = Option (Physical × List Output)

-- PL_REG_I2C_STATE_RESPONSE_READY and PL_REG_I2C_STATE_SOFT_RESET.
abbrev pub response_ready : ℕ
response_ready = 0x40

abbrev pub soft_reset_bit : ℕ
soft_reset_bit = 0x08

abbrev pub is_reading : Action → Bool
is_reading reading = true
is_reading writing = false

-- The branch of `ifx_i2c_pl_frame_event_handler` for an event that is not a success.
abbrev pub fail_frame : Status → Physical → Step
fail_frame event p = some (record p { frame_state = ready }, report event ∷ [])

-- `ifx_i2c_pl_soft_reset` in a given step. PL_RESET_INIT goes on with the negotiation.
unfoldable pub reset_step : SoftReset → Env → Physical → Step
reset_step get_status_reg env p =
    some (
      read_register reg_i2c_state reg_len_i2c_state (record p { request_soft_reset = reset_write }))
reset_step reset_write env p =
    let masked = record p { buffer = set p.buffer 0 (bit_and (byte_of p 0) soft_reset_bit) } in
    if byte_of masked 0 == soft_reset_bit
    then some (
        write_register reg_soft_reset (0 ∷ 0 ∷ [])
          (record masked { request_soft_reset = reset_startup }))
    else fail_frame failure (record masked { frame_state = uninit })
reset_step reset_startup env p =
    some (record p { request_soft_reset = reset_init }, call_later reset_again startup_time ∷ [])
reset_step reset_init env p = negotiate env (record p { frame_state = init })
reset_step _ env p = some (p, [])

-- The polling of the status register goes on while there is time.
unfoldable pub poll_or_fail : Env → Physical → Physical × List Output
poll_or_fail env p =
    if ltb (sub32 env.now env.frame_start_time) env.data_poll_timeout
    then (p, call_later poll_status data_polling_interval ∷ [])
    else (record p { frame_state = ready }, report failure ∷ [])

-- PL_STATE_DATA_AVAILABLE
unfoldable pub on_status : Env → Physical → Physical × List Output
unfolding poll_or_fail read_register write_register
on_status env p =
    let size = word_of p 2 3 in
    if is_reading p.frame_action && not (bit_and (byte_of p 0) response_ready == 0)
    then (if ltb 0 size && leb size p.frame_size
        then read_register reg_data size (record p { frame_state = rxtx })
        else poll_or_fail env p)
    else if not (is_reading p.frame_action)
    then write_register reg_data p.tx_frame (record p { frame_state = rxtx })
    else poll_or_fail env p

-- The `switch` of `ifx_i2c_pl_frame_event_handler`. The last case is its default.
unfoldable pub frame_step : FrameState → Env → Physical → Step
unfolding on_status reset_step
frame_step soft_reset env p = reset_step p.request_soft_reset env p
frame_step init env p = negotiate env p
frame_step ready env p =
    some (read_register reg_i2c_state reg_len_i2c_state (record p { frame_state = data_available }))
frame_step data_available env p = some (on_status env p)
frame_step rxtx env p =
    some (record p { frame_state = ready }, deliver p.buffer_rx_len p.buffer ∷ [])
frame_step uninit env p = some (p, [])

-- `ifx_i2c_pl_frame_event_handler`
abbrev pub on_frame_event : Env → Status → Physical → Step
on_frame_event env event p =
    if failed event then fail_frame event p else frame_step p.frame_state env p

-- `ifx_i2c_pal_poll_callback`
unfoldable pub restart : Physical → Physical × List Output
restart p =
    if is_reading p.i2c_cmd
    then (p, i2c_read p.buffer_rx_len ∷ [])
    else (p, i2c_write (take p.buffer_tx_len p.buffer) ∷ [])

-- `ifx_i2c_pl_guard_time_callback`
unfoldable pub after_guard_time : Env → Physical → Step
after_guard_time env p =
    if is_reading p.register_action && not (is_reading p.i2c_cmd)
    then some (record p { i2c_cmd = reading }, i2c_read p.buffer_rx_len ∷ [])
    else on_frame_event env success p

-- A callback of the timer, `ifx_i2c_pl_status_poll_callback` among them.
unfoldable pub on_timer : Callback → Env → Physical → Step
unfolding restart after_guard_time
on_timer negotiate_again env p = negotiate env p
on_timer poll_status env p = some (read_register reg_i2c_state reg_len_i2c_state p)
on_timer restart_transfer env p = some (restart p)
on_timer guard_time_over env p = after_guard_time env p
on_timer reset_again env p = reset_step p.request_soft_reset env p

-- `ifx_i2c_pl_pal_event_handler`. The counter is decremented by the test itself, and wraps.
unfoldable pub on_pal_event : PalEvent → Physical → Step
on_pal_event pal_success p = some (p, call_later guard_time_over guard_time ∷ [])
on_pal_event _ p =
    let counted = record p { retry_counter = sub16 p.retry_counter 1 } in
    if not (p.retry_counter == 0)
    then some (counted, call_later restart_transfer polling_interval ∷ [])
    else fail_frame fatal counted

-- The choice between a soft reset and the negotiation in `ifx_i2c_pl_init`.
abbrev pub start_by : SoftReset → Env → Physical → Step
start_by requested env p =
    on_frame_event env success
      (record p { request_soft_reset = get_status_reg; frame_state = soft_reset })
start_by _ env p = on_frame_event env success (record p { frame_state = init })

-- `ifx_i2c_pl_init`. The status stands beside the step.
unfoldable pub init_physical : Env → Physical → Status × Step
init_physical env p =
    let fresh = record p {
      frame_state = uninit;
      negotiate_state = set_freq_default;
      pal_slave_address = p.slave_address;
      retry_counter = polling_max;
    } in
    if p.do_pal_init && not env.pal_ready
    then (failure, some (fresh, []))
    else (success, start_by p.request_soft_reset env fresh)

abbrev pub is_idle : FrameState → Bool
is_idle init = true
is_idle ready = true
is_idle _ = false

-- `ifx_i2c_pl_send_frame` and `ifx_i2c_pl_receive_frame`.
unfoldable pub send_bytes : Env → List ℕ → Physical → Status × Step
send_bytes env frame p = if not (is_idle p.frame_state) then (failure, some (p, [])) else (
  success,
  on_frame_event env success (record p { frame_action = writing; tx_frame = frame }),
)

unfoldable pub receive_bytes : Env → Physical → Status × Step
receive_bytes env p =
    if not (is_idle p.frame_state)
    then (failure, some (p, []))
    else (success, on_frame_event env success (record p { frame_action = reading }))

-- PL_REG_BASE_ADDR_PERSISTANT
abbrev pub base_addr_persistent : ℕ
base_addr_persistent = 0x80

-- The loop of `ifx_i2c_pl_write_slave_address`: `attempts` holds the event that the driver reports
-- for each write, `none` means that they ran out before the loop ended, and the counter what is left.
unfoldable pub write_until : ℕ → List PalEvent → List ℕ → Option (ℕ × PalEvent × List Output)
write_until zero attempts bytes = some (zero, pal_error, [])
write_until (suc n) [] bytes = none
write_until (suc n) (pal_success ∷ attempts) bytes = some (suc n, pal_success, i2c_write bytes ∷ [])
write_until (suc n) (event ∷ attempts) bytes = elim (write_until n attempts bytes) [
  | none ↦ none
  | some (left, last, out) ↦ some (left, last, i2c_write bytes ∷ out)
]

abbrev pub is_success : PalEvent → Bool
is_success pal_success = true
is_success _ = false

-- `ifx_i2c_pl_write_slave_address`
unfoldable pub write_slave_address :
    List PalEvent → ℕ → ℕ → Physical → Option (Status × Physical × List Output)
write_slave_address attempts slave_address persistent p =
    let address = bit_and slave_address 0x7f in
    let mode = if persistent == 0 then 0 else base_addr_persistent in
    let buffer = set (set (set p.buffer 0 reg_base_addr) 1 mode) 2 address in
    elim (write_until polling_max attempts (take 3 buffer)) [
      | none ↦ none
      | some (left, last, out) ↦
          let tried = record p { buffer = buffer; buffer_tx_len = 3; retry_counter = left } in
          if is_success last
          then some (
            success,
            record tried {
              pal_slave_address = address;
              slave_address = if persistent == 0 then p.slave_address else address;
            },
            out,
          )
          else some (failure, tried, out)
    ]
