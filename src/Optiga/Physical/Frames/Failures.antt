-- ===== src/Optiga/Physical/Frames/Failures.antt =====
-- Failures of the I2C driver, and a device that offers no soft reset.
use decada_embedded_example.Base.{
  ℕ, zero, suc, ◌^◌, ◌<◌, ◌≡◌, ◌≢◌, refl, ap, ◌∙◌, List, [], ◌∷◌, ◌++◌, false, some, length, set,
  take, get_or, get_or-set_same, bit_and, if◌then◌else◌, arith,
}
use decada_embedded_example.Base.Word.{sub16}
use decada_embedded_example.Optiga.DataLink.Machine.{success, failure, fatal}
use decada_embedded_example.Optiga.Physical.Machine.{
  ready, data_available, soft_reset, reset_write, writing, restart_transfer, PalEvent, pal_success,
  Physical, Env, Output, i2c_write, i2c_read, call_later, report, reg_i2c_state, reg_len_i2c_state,
  polling_interval, byte_of, read_register,
}
use decada_embedded_example.Optiga.Physical.Negotiation.{prepend}
use decada_embedded_example.Optiga.Physical.Frames.{
  is_reading, is_success, restart, on_timer, on_pal_event, on_frame_event, frame_step, reset_step,
  soft_reset_bit, send_bytes,
}
use decada_embedded_example.Optiga.Physical.Frames.Run.{Stimulus, bus, elapsed, next, run}

-- The transfer that the layer is in.
abbrev pub transfer : Physical → Output
transfer p =
    if is_reading p.i2c_cmd
    then i2c_read p.buffer_rx_len
    else i2c_write (take p.buffer_tx_len p.buffer)

-- Each event of the driver, and the timer after it.
abbrev pub failing : Env → List PalEvent → List Stimulus → List Stimulus
failing env [] rest = rest
failing env (event ∷ events) rest =
    bus event ∷ elapsed restart_transfer env ∷ failing env events rest

abbrev pub AllFail : List PalEvent → Type 0
AllFail [] = Unit
AllFail (event ∷ events) = (is_success event ≡ false) × AllFail events

-- A wait and the transfer again, `n` times.
abbrev pub again : ℕ → Output → List Output
again zero o = []
again (suc n) o = call_later restart_transfer polling_interval ∷ o ∷ again n o

restart_is : (p : Physical) → restart p ≡ (p, transfer p ∷ [])
unfolding restart
restart_is p = ground arith

fails_once :
    (event : PalEvent) (p : Physical)
    → is_success event ≡ false
    → p.retry_counter ≢ 0
    → on_pal_event event p
      ≡ some (
        record p { retry_counter = sub16 p.retry_counter 1 },
        call_later restart_transfer polling_interval ∷ [],
      )
unfolding on_pal_event
fails_once pal_success p e h = cc
fails_once _ p e h = ground arith

fails_at_last :
    (event : PalEvent) (p : Physical)
    → is_success event ≡ false
    → p.retry_counter ≡ 0
    → on_pal_event event p
      ≡ some (record p { frame_state = ready; retry_counter = sub16 0 1 }, report fatal ∷ [])
unfolding on_pal_event
fails_at_last pal_success p e h = cc
fails_at_last _ p e h = rw h refl

-- A transfer fails as often as the retry counter says, and once more. Then it has been started again
-- exactly that often, each time the same transfer after the polling interval, and the fatal error
-- is reported, once; the layer is at rest.
pub retries_then_fatal :
    (env : Env) (events : List PalEvent) (last : PalEvent) (p : Physical)
    → AllFail events
    → is_success last ≡ false
    → length events ≡ p.retry_counter
    → p.retry_counter < 2 ^ 16
    → run (failing env events (bus last ∷ [])) p
      ≡ some (
        record p { frame_state = ready; retry_counter = sub16 0 1 },
        again (length events) (transfer p) ++ (report fatal ∷ []),
      )
unfolding run on_timer
retries_then_fatal env [] last p fail at_last h small =
    ap (λ step. next step (run [])) (fails_at_last last p at_last (omega arith))
retries_then_fatal env (event ∷ events) last p (fails, fail) at_last h small =
    let counted : Physical = record p { retry_counter = sub16 p.retry_counter 1 } in
    let script = failing env events (bus last ∷ []) in
    let rest =
      retries_then_fatal env events last counted fail at_last (omega arith) (omega arith) in
    ap (λ step. next step (run (elapsed restart_transfer env ∷ script)))
      (fails_once event p fails (λ z. absurd (omega arith)))
    ∙ ap
        (λ (s : Physical × List Output).
          prepend (call_later restart_transfer polling_interval ∷ []) (next (some s) (run script)))
        (restart_is counted)
    ∙ ap
        (λ s.
          prepend (call_later restart_transfer polling_interval ∷ []) (prepend (transfer p ∷ []) s))
        rest

-- The device's status says that it offers no soft reset. Then a failure is reported, and the layer is
-- at rest, not uninitialised: no negotiation has been made, and yet the next frame to be sent is
-- accepted, and the status register is read for it.
pub unsupported_reset_leaves_rest :
    (env : Env) (frame : List ℕ) (p : Physical)
    → p.frame_state ≡ soft_reset
    → p.request_soft_reset ≡ reset_write
    → 0 < length p.buffer
    → bit_and (byte_of p 0) soft_reset_bit ≡ 0
    → (after : Physical) × (on_frame_event env success p ≡ some (after, report failure ∷ []))
      × (after.negotiate_state ≡ p.negotiate_state)
      × (send_bytes env frame after ≡ (
        success,
        some (
            read_register reg_i2c_state reg_len_i2c_state (record after {
              frame_action = writing;
              tx_frame = frame;
              frame_state = data_available;
            })),
      ))
unfolding frame_step reset_step send_bytes
unsupported_reset_leaves_rest env frame p state reset room unsupported =
    let buffer = set p.buffer 0 (bit_and (byte_of p 0) soft_reset_bit) in
    let zero_there : get_or buffer 0 0 ≡ 0 = get_or-set_same p.buffer 0 _ 0 room ∙ unsupported in
    (
      record p { buffer = buffer; frame_state = ready },
      rw (state, reset, zero_there) refl,
      refl,
      refl,
    )
