-- ===== src/Optiga/Comms/Stack.antt =====
-- lib/optiga/comms/ifx_i2c/ifx_i2c.c: opening, resetting, using and closing the protocol stack. The
-- transport layer, the pins and the timer are outputs; what the calls return is an input.
use decada_embedded_example.Base.{
  ℕ, List, [], ◌∷◌, ◌++◌, Bool, true, false, not, ◌&&◌, ◌≡◌, refl, if◌then◌else◌,
}
use decada_embedded_example.Optiga.DataLink.Machine.{Status, success, failure, failed}

-- IFX_I2C_STATE_UNINIT and IFX_I2C_STATE_IDLE, `ifx_i2c_reset_type_t`, IFX_I2C_STATE_RESET_*.
pub data State : Type 0 where
  uninit idle : State

pub data ResetType : Type 0 where
  cold_reset soft_reset warm_reset : ResetType

pub data ResetState : Type 0 where
  pin_low pin_high reset_init : ResetState

pub data Pin : Type 0 where
  vdd_pin reset_pin : Pin

-- The fields of `ifx_i2c_context_t` that these functions keep. `busy` is the field `status`,
-- `has_handler` tells whether there is an `upper_layer_event_handler`.
pub record Context : Type 0 where
  pub state : State
  pub busy : Bool
  pub reset_state : ResetState
  pub reset_type : ResetType
  pub do_pal_init : Bool
  pub request_soft_reset : Bool
  pub has_handler : Bool

-- Calls to the outside; `call_later ms` registers `ifx_i2c_init` with the timer, `tell` calls the
-- upper layer's handler.
pub data Output : Type 0 where
  set_low set_high : Pin → Output
  call_later : ℕ → Output
  init_transport start_transceive write_address deinit_i2c : Output
  tell : Status → Output

-- RESET_LOW_TIME_MSEC and STARTUP_TIME_MSEC.
abbrev pub reset_low_time : ℕ
reset_low_time = 2000

abbrev pub startup_time : ℕ
startup_time = 12000

abbrev pub is_idle : State → Bool
is_idle idle = true
is_idle uninit = false

abbrev vdd : ResetType → (Pin → Output) → List Output
vdd cold_reset drive = drive vdd_pin ∷ []
vdd _ drive = []

-- The cases of `reset_state` in `ifx_i2c_init`, for a cold and a warm reset.
unfoldable pub hard_init : ResetState → Status → Context → Status × Context × List Output
hard_init pin_low tl_status c = (
  success,
  record c { reset_state = pin_high },
  vdd c.reset_type set_low ++ (set_low reset_pin ∷ call_later reset_low_time ∷ []),
)
hard_init pin_high tl_status c = (
  success,
  record c { reset_state = reset_init },
  vdd c.reset_type set_high ++ (set_high reset_pin ∷ call_later startup_time ∷ []),
)
hard_init reset_init tl_status c = (tl_status, c, init_transport ∷ [])

-- `ifx_i2c_init`; `tl_status` is what `ifx_i2c_tl_init` returns.
unfoldable pub init_by : ResetType → Status → Context → Status × Context × List Output
unfolding hard_init
init_by soft_reset tl_status c =
    (tl_status, record c { request_soft_reset = true }, init_transport ∷ [])
init_by _ tl_status c = hard_init c.reset_state tl_status c

abbrev pub init : Status → Context → Status × Context × List Output
init tl_status c = init_by c.reset_type tl_status c

-- The stack is busy after a successful start.
abbrev pub start : Status × Context × List Output → Status × Context × List Output
start (status, c, out) = (status, if failed status then c else record c { busy = true }, out)

-- `ifx_i2c_open`, built without OPTIGA_USE_SOFT_RESET.
unfoldable pub open_stack : Status → Context → Status × Context × List Output
open_stack tl_status c =
    if c.busy
    then (failure, c, [])
    else start (
        init tl_status (record c {
          reset_type = cold_reset;
          reset_state = pin_low;
          do_pal_init = true;
          state = uninit;
        }))

-- `ifx_i2c_reset`
unfoldable pub reset_stack : Status → ResetType → Context → Status × Context × List Output
reset_stack tl_status kind c =
    if is_idle c.state && not c.busy
    then start (
        init tl_status (record c { reset_type = kind; reset_state = pin_low; do_pal_init = false }))
    else (failure, c, [])

-- `ifx_i2c_transceive`; `tl_status` is what `ifx_i2c_tl_transceive` returns.
unfoldable pub transceive_stack : Status → Context → Status × Context × List Output
transceive_stack tl_status c =
    if is_idle c.state && not c.busy
    then start (tl_status, c, start_transceive ∷ [])
    else (failure, c, [])

-- `ifx_i2c_tl_event_handler`. The upper layer's handler starts no operation of its own.
unfoldable pub on_transport_event : Status → Context → Context × List Output
on_transport_event event c = (
  record c { busy = false; state = if failed event then c.state else idle },
  if c.has_handler then tell event ∷ [] else [],
)

-- `ifx_i2c_close`
unfoldable pub close_stack : Context → Status × Context × List Output
close_stack c =
    let (told, out) = on_transport_event success c in
    if c.busy then (failure, c, []) else (
      success,
      record told { state = uninit; busy = false },
      deinit_i2c ∷ set_low vdd_pin ∷ set_low reset_pin ∷ out,
    )

-- `ifx_i2c_set_slave_address`; `pl_status` is what `ifx_i2c_pl_write_slave_address` returns.
unfoldable pub set_slave_address : Status → Context → Status × List Output
set_slave_address pl_status c =
    if is_idle c.state then (pl_status, write_address ∷ []) else (failure, [])

-- Opening a stack that is not busy drives both pins low and waits, the first callback drives them
-- high and waits, and only the second callback calls the transport layer, whose status it returns;
-- the stack is then busy and not initialised.
pub open_sequence :
    (any other tl_status : Status) (c : Context)
    → c.busy ≡ false
    → (first : Context) × (second : Context) × (third : Context) × (open_stack any c
        ≡ (success, first, set_low vdd_pin ∷ set_low reset_pin ∷ call_later reset_low_time ∷ []))
      × (init other first
          ≡ (success, second, set_high vdd_pin ∷ set_high reset_pin ∷ call_later startup_time ∷ []))
      × (init tl_status second ≡ (tl_status, third, init_transport ∷ []))
      × (third.busy ≡ true)
      × (third.state ≡ uninit)
unfolding open_stack init_by hard_init
open_sequence any other tl_status c free =
    let opened : Context = record c {
      reset_type = cold_reset;
      do_pal_init = true;
      state = uninit;
      busy = true;
    } in
    (
      record opened { reset_state = pin_high },
      record opened { reset_state = reset_init },
      record opened { reset_state = reset_init },
      rw free refl,
      refl,
      refl,
      refl,
      refl,
    )
