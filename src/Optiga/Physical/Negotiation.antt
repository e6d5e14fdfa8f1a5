-- ===== src/Optiga/Physical/Negotiation.antt =====
-- `ifx_i2c_pl_negotiation_event_handler`: the frequency and the frame size that the device accepts.
pub mod Outcome
pub mod Bounds
pub mod Activations
use decada_embedded_example.Base.{
  ℕ, zero, suc, ◌+◌, ◌-◌, List, [], ◌∷◌, ◌++◌, Bool, true, false, not, ◌&&◌, Option, none, some,
  bit_or, ◌==◌, ltb, leb, if◌then◌else◌,
}
use decada_embedded_example.Base.Word.{u8, u16, sub16, ◌<<<◌, ◌>>>◌}
use decada_embedded_example.Optiga.DataLink.Machine.{Status, success, failure, busy}
use decada_embedded_example.Optiga.Physical.Machine.{
  FrameState, uninit, ready, Negotiate, set_freq_default, get_freq_reg, set_freq_reg, read_freq,
  verify_freq, agree_freq, set_data_reg_len, get_data_reg_len, verify_data_reg, done,
  negotiate_again, Physical, Env, Output, set_bitrate, call_later, report, reg_data_reg_len,
  reg_max_scl_frequ, reg_i2c_mode, reg_len_max_scl_frequ, reg_len_data_reg_len, polling_interval,
  byte_of, word_of, read_register, write_register,
}

-- PL_REG_I2C_MODE_PERSISTANT, PL_REG_I2C_MODE_FM_PLUS, PL_REG_I2C_MODE_SM_FM,
-- PL_SM_FM_MAX_FREQUENCY and PL_DEFAULT_FREQUENCY.
abbrev pub mode_persistent : ℕ
mode_persistent = 0x80

abbrev pub mode_fm_plus : ℕ
mode_fm_plus = 0x04

abbrev pub mode_sm_fm : ℕ
mode_sm_fm = 0x03

abbrev pub sm_fm_max_frequency : ℕ
sm_fm_max_frequency = 0x190

abbrev pub default_frequency : ℕ
default_frequency = 0x64

-- `ifx_i2c_pl_set_bit_rate`. The counter is decremented by the test itself, and wraps.
unfoldable pub set_bit_rate : Env → ℕ → Physical → Status × Physical × List Output
set_bit_rate env bitrate p =
    let counted = record p { retry_counter = sub16 p.retry_counter 1 } in
    if env.bitrate_set
    then (success, p, set_bitrate bitrate ∷ [])
    else if not (p.retry_counter == 0)
    then (busy, counted, set_bitrate bitrate ∷ call_later negotiate_again polling_interval ∷ [])
    else (failure, counted, set_bitrate bitrate ∷ [])

-- What one round of the loop leaves. `event` is the local that reports the outcome, `more` is
-- `continue_negotiation`.
pub record Round : Type 0 where
  pub physical : Physical
  pub event : Status
  pub outputs : List Output
  pub more : Bool

abbrev pub go_on : Negotiate → Status → Physical → List Output → Round
go_on s event p out = record {
  physical = record p { negotiate_state = s };
  event = event;
  outputs = out;
  more = true;
}

-- The round waits for the device.
abbrev pub wait : Negotiate → Status → Physical × List Output → Round
wait s event (p, out) = record {
  physical = record p { negotiate_state = s };
  event = event;
  outputs = out;
  more = false;
}

-- PL_INIT_SET_FREQ_DEFAULT and PL_INIT_AGREE_FREQ: `next` follows when the bit rate is set.
abbrev pub after_bit_rate : Negotiate → Status × Physical × List Output → Round
after_bit_rate next (success, p, out) = go_on next success p out
after_bit_rate next (failure, p, out) = wait done failure (p, out)
after_bit_rate next (status, p, out) = wait p.negotiate_state status (p, out)

-- PL_INIT_SET_FREQ_REG
unfoldable pub choose_mode : Status → Physical → Round
choose_mode event p =
    let slave_frequency = word_of p 2 3 in
    if ltb sm_fm_max_frequency p.frequency && leb slave_frequency sm_fm_max_frequency
    then wait read_freq event (
        write_register reg_i2c_mode (mode_persistent ∷ mode_fm_plus ∷ [])
          (record p { negotiate_state = read_freq }))
    else if leb p.frequency sm_fm_max_frequency && ltb sm_fm_max_frequency slave_frequency
    then wait read_freq event (
        write_register reg_i2c_mode (mode_persistent ∷ mode_sm_fm ∷ [])
          (record p { negotiate_state = read_freq }))
    else go_on verify_freq event p []

-- PL_INIT_VERIFY_DATA_REG
unfoldable pub check_frame_size : Status → Physical → Round
check_frame_size event p =
    let slave_frame_len = word_of p 0 1 in
    if leb slave_frame_len p.frame_size
    then go_on done success (record p { frame_size = slave_frame_len }) []
    else go_on done event p []

-- PL_INIT_DONE
unfoldable pub conclude : Status → Physical → Round
conclude success p = record {
  physical = record p { frame_state = ready };
  event = success;
  outputs = report success ∷ [];
  more = false;
}
conclude event p = record {
  physical = record p { frame_state = uninit };
  event = event;
  outputs = report event ∷ [];
  more = false;
}

-- The two bytes of `max_frame_size`.
abbrev pub frame_size_bytes : Physical → List ℕ
frame_size_bytes p = u8 (p.frame_size >>> 8) ∷ u8 p.frame_size ∷ []

-- The `switch`, on the state that the layer is in.
unfoldable pub dispatch : Negotiate → Env → Status → Physical → Round
unfolding choose_mode check_frame_size conclude set_bit_rate
dispatch set_freq_default env event p =
    after_bit_rate get_freq_reg (set_bit_rate env default_frequency p)
dispatch get_freq_reg env event p =
    wait set_freq_reg event (read_register reg_max_scl_frequ reg_len_max_scl_frequ p)
dispatch set_freq_reg env event p = choose_mode event p
dispatch read_freq env event p =
    wait verify_freq event (read_register reg_max_scl_frequ reg_len_max_scl_frequ p)
dispatch verify_freq env event p =
    go_on (if ltb (word_of p 2 3) p.frequency then done else agree_freq) event p []
dispatch agree_freq env event p = after_bit_rate set_data_reg_len (set_bit_rate env p.frequency p)
dispatch set_data_reg_len env event p =
    wait get_data_reg_len event (write_register reg_data_reg_len (frame_size_bytes p) p)
dispatch get_data_reg_len env event p =
    wait verify_data_reg event (read_register reg_data_reg_len reg_len_data_reg_len p)
dispatch verify_data_reg env event p = check_frame_size event p
dispatch done env event p = conclude event p

abbrev pub prepend : List Output → Option (Physical × List Output) → Option (Physical × List Output)
prepend out none = none
prepend out (some (p, later)) = some (p, out ++ later)

-- The loop, with fuel; `none` means that the fuel ran out.
unfoldable pub rounds : ℕ → Env → Status → Physical → Option (Physical × List Output)
rounds zero env event p = none
rounds (suc fuel) env event p =
    let r = dispatch p.negotiate_state env event p in
    let rest = rounds fuel env r.event r.physical in
    if r.more then prepend r.outputs rest else some (r.physical, r.outputs)

-- `ifx_i2c_pl_negotiation_event_handler`
unfoldable pub negotiate : Env → Physical → Option (Physical × List Output)
negotiate env p = rounds 4 env failure p
