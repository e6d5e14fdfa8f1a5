-- ===== src/Optiga/Physical/Machine.antt =====
-- The state of the physical layer (`ifx_i2c_pl_t` and what it uses of the context) and the access to
-- the device's registers. The I2C driver, the timer and the data link layer's handler are outputs.
use decada_embedded_example.Base.{
  ℕ, ◌+◌, List, [], ◌∷◌, Bool, bit_or, length, get_or, take, copy_to, set,
}
use decada_embedded_example.Base.Word.{u16, ◌<<<◌}
use decada_embedded_example.Optiga.DataLink.Machine.{Status}

-- PL_STATE_*
pub data FrameState : Type 0 where
  uninit init ready data_available rxtx soft_reset : FrameState

-- PL_INIT_*, the states of the negotiation. PL_INIT_GET_STATUS_REG belongs to the soft reset.
pub data Negotiate : Type 0 where
  set_freq_default get_freq_reg set_freq_reg read_freq verify_freq agree_freq set_data_reg_len
        get_data_reg_len verify_data_reg done :
      Negotiate

-- `request_soft_reset`: FALSE, TRUE, PL_INIT_GET_STATUS_REG and PL_RESET_*.
pub data SoftReset : Type 0 where
  not_requested requested get_status_reg reset_write reset_startup reset_init : SoftReset

-- PL_ACTION_*_REGISTER, PL_I2C_CMD_* and PL_ACTION_*_FRAME.
pub data Action : Type 0 where
  reading writing : Action

-- The functions that are registered with the timer: the negotiation, the status poll, the repeated
-- transfer, the end of the guard time, and the soft reset.
pub data Callback : Type 0 where
  negotiate_again poll_status restart_transfer guard_time_over reset_again : Callback

-- PAL_I2C_EVENT_*
pub data PalEvent : Type 0 where
  pal_success pal_error pal_busy : PalEvent

-- `tx_frame` is `p_tx_frame[0 .. tx_frame_len)`. `frequency`, `frame_size`, `slave_address`,
-- `do_pal_init` are the context's, `pal_slave_address` the I2C driver's.
pub record Physical : Type 0 where
  pub buffer : List ℕ
  pub buffer_tx_len : ℕ
  pub buffer_rx_len : ℕ
  pub register_action : Action
  pub i2c_cmd : Action
  pub retry_counter : ℕ
  pub frame_action : Action
  pub frame_state : FrameState
  pub tx_frame : List ℕ
  pub negotiate_state : Negotiate
  pub request_soft_reset : SoftReset
  pub frequency : ℕ
  pub frame_size : ℕ
  pub slave_address : ℕ
  pub pal_slave_address : ℕ
  pub do_pal_init : Bool

-- What an activation finds outside the layer: the clock, the data link layer's `frame_start_time`
-- and `data_poll_timeout`, and whether `pal_i2c_set_bitrate` and `pal_i2c_init` succeed.
pub record Env : Type 0 where
  pub now : ℕ
  pub frame_start_time : ℕ
  pub data_poll_timeout : ℕ
  pub bitrate_set : Bool
  pub pal_ready : Bool

-- Calls to the outside: of the I2C driver with the bytes, or the number of bytes to read into the
-- buffer; of the timer with a callback and a time; of the data link layer's handler with a status
-- alone, or with `n` bytes of the buffer.
pub data Output : Type 0 where
  i2c_write : List ℕ → Output
  i2c_read : ℕ → Output
  set_bitrate : ℕ → Output
  call_later : Callback → ℕ → Output
  report : Status → Output
  deliver : ℕ → List ℕ → Output

-- PL_REG_* and PL_REG_LEN_*, the addresses and lengths of the registers.
abbrev pub reg_data : ℕ
reg_data = 0x80

abbrev pub reg_data_reg_len : ℕ
reg_data_reg_len = 0x81

abbrev pub reg_i2c_state : ℕ
reg_i2c_state = 0x82

abbrev pub reg_base_addr : ℕ
reg_base_addr = 0x83

abbrev pub reg_max_scl_frequ : ℕ
reg_max_scl_frequ = 0x84

abbrev pub reg_soft_reset : ℕ
reg_soft_reset = 0x88

abbrev pub reg_i2c_mode : ℕ
reg_i2c_mode = 0x89

abbrev pub reg_len_i2c_state : ℕ
reg_len_i2c_state = 4

abbrev pub reg_len_max_scl_frequ : ℕ
reg_len_max_scl_frequ = 4

abbrev pub reg_len_data_reg_len : ℕ
reg_len_data_reg_len = 2

-- PL_POLLING_MAX_CNT, and the times PL_POLLING_INVERVAL_US, PL_DATA_POLLING_INVERVAL_US and
-- PL_GUARD_TIME_INTERVAL_US.
abbrev pub polling_max : ℕ
polling_max = 200

abbrev pub polling_interval : ℕ
polling_interval = 1000

abbrev pub data_polling_interval : ℕ
data_polling_interval = 5000

abbrev pub guard_time : ℕ
guard_time = 50

-- A byte of the buffer.
abbrev pub byte_of : Physical → ℕ → ℕ
byte_of p i = get_or p.buffer i 0

-- Two bytes of the buffer as a number, `(buffer[i] << 8) | buffer[i + 1]`.
abbrev pub word_of : Physical → ℕ → ℕ → ℕ
word_of p i j = u16 (bit_or (byte_of p i <<< 8) (byte_of p j))

-- `ifx_i2c_pl_read_register`
unfoldable pub read_register : ℕ → ℕ → Physical → Physical × List Output
read_register reg_addr reg_len p =
    let buffer = set p.buffer 0 reg_addr in
    (
      record p {
        buffer = buffer;
        buffer_tx_len = 1;
        buffer_rx_len = reg_len;
        register_action = reading;
        retry_counter = polling_max;
        i2c_cmd = writing;
      },
      i2c_write (take 1 buffer) ∷ [],
    )

-- `ifx_i2c_pl_write_register`
unfoldable pub write_register : ℕ → List ℕ → Physical → Physical × List Output
write_register reg_addr content p =
    let buffer = copy_to (set p.buffer 0 reg_addr) 1 content in
    let tx_len = u16 (1 + length content) in
    (
      record p {
        buffer = buffer;
        buffer_tx_len = tx_len;
        register_action = writing;
        retry_counter = polling_max;
        i2c_cmd = writing;
      },
      i2c_write (take tx_len buffer) ∷ [],
    )
