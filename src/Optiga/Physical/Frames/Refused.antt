-- ===== src/Optiga/Physical/Frames/Refused.antt =====
-- `ifx_i2c_pl_init` with a driver that refuses to set the bit rate.
use decada_embedded_example.Base.{
  ℕ, zero, suc, ◌^◌, ◌<◌, ◌≡◌, ◌≢◌, refl, ap, ◌∙◌, List, [], ◌∷◌, false, not, ◌&&◌, some, length,
  arith,
}
use decada_embedded_example.Base.Word.{sub16}
use decada_embedded_example.Optiga.DataLink.Machine.{Status, success, failure, busy}
use decada_embedded_example.Optiga.Physical.Machine.{
  init, uninit, set_freq_default, get_freq_reg, done, not_requested, writing, negotiate_again,
  Physical, Env, Output, set_bitrate, call_later, report, polling_max, polling_interval,
}
use decada_embedded_example.Optiga.Physical.Negotiation.{
  set_bit_rate, dispatch, rounds, negotiate, prepend, after_bit_rate, conclude, default_frequency,
}
use decada_embedded_example.Optiga.Physical.Negotiation.Outcome.{rounds-waits}
use decada_embedded_example.Optiga.Physical.Frames.{
  Step, on_timer, frame_step, init_physical, send_bytes,
}
use decada_embedded_example.Optiga.Physical.Frames.Run.{Stimulus, elapsed, next, run}

-- The callbacks of the timer after the first attempt, and what the driver refuses in each.
abbrev pub attempts : List Env → List Stimulus
attempts [] = []
attempts (env ∷ envs) = elapsed negotiate_again env ∷ attempts envs

abbrev pub AllRefuse : List Env → Type 0
AllRefuse [] = Unit
AllRefuse (env ∷ envs) = (env.bitrate_set ≡ false) × AllRefuse envs

-- `n` attempts with a wait after each, and one more.
abbrev pub attempted : ℕ → List Output
attempted zero = set_bitrate default_frequency ∷ []
attempted (suc n) =
    set_bitrate default_frequency ∷ call_later negotiate_again polling_interval ∷ attempted n

refuses_once :
    (env : Env) (p : Physical)
    → p.negotiate_state ≡ set_freq_default
    → env.bitrate_set ≡ false
    → p.retry_counter ≢ 0
    → negotiate env p
      ≡ some (
        record p { retry_counter = sub16 p.retry_counter 1 },
        set_bitrate default_frequency ∷ call_later negotiate_again polling_interval ∷ [],
      )
unfolding negotiate dispatch set_bit_rate
refuses_once env p at refused left =
    let counted : Physical = record p { retry_counter = sub16 p.retry_counter 1 } in
    let out : List Output =
      set_bitrate default_frequency ∷ call_later negotiate_again polling_interval ∷ [] in
    let tried : set_bit_rate env default_frequency p ≡ (busy, counted, out) =
      ground (arith, refused, left) in
    rounds-waits 3 env failure p set_freq_default p.negotiate_state busy (counted, out) at
      (ap (after_bit_rate get_freq_reg) tried)

refuses_at_last :
    (env : Env) (p : Physical)
    → p.negotiate_state ≡ set_freq_default
    → env.bitrate_set ≡ false
    → p.retry_counter ≡ 0
    → negotiate env p
      ≡ some (
        record p { retry_counter = sub16 0 1; negotiate_state = done },
        set_bitrate default_frequency ∷ [],
      )
unfolding negotiate dispatch set_bit_rate
refuses_at_last env p at refused z =
    let counted : Physical = record p { retry_counter = sub16 0 1 } in
    let out : List Output = set_bitrate default_frequency ∷ [] in
    let tried : set_bit_rate env default_frequency p ≡ (failure, counted, out) = rw (refused, z) in
    rounds-waits 3 env failure p set_freq_default done failure (counted, out) at
      (ap (after_bit_rate get_freq_reg) tried)

-- One refusal more than the counter says.
refuses_all :
    (env : Env) (envs : List Env) (p : Physical)
    → p.negotiate_state ≡ set_freq_default
    → env.bitrate_set ≡ false
    → AllRefuse envs
    → length envs ≡ p.retry_counter
    → p.retry_counter < 2 ^ 16
    → next (negotiate env p) (run (attempts envs))
      ≡ some
          (record p { retry_counter = sub16 0 1; negotiate_state = done }, attempted (length envs))
unfolding run on_timer
refuses_all env [] p at refused all count small =
    ap (λ step. next step (run [])) (refuses_at_last env p at refused (omega arith))
refuses_all env (env' ∷ envs) p at refused (refused', all) count small =
    let counted : Physical = record p { retry_counter = sub16 p.retry_counter 1 } in
    ap (λ step. next step (run (attempts (env' ∷ envs))))
      (refuses_once env p at refused (λ z. absurd (omega arith)))
    ∙ ap
        (prepend (set_bitrate default_frequency ∷ call_later negotiate_again polling_interval ∷ []))
        (refuses_all env' envs counted at refused' all (omega arith) (omega arith))

-- A negotiation that is at its end by a failure reports it when a frame is to be sent.
reports_late :
    (env : Env) (frame : List ℕ) (p : Physical)
    → let stuck : Physical = record p { frame_state = init; negotiate_state = done } in
      send_bytes env frame stuck ≡ (
        success,
        some (
          record stuck { frame_action = writing; tx_frame = frame; frame_state = uninit },
          report failure ∷ [],
        ),
      )
unfolding send_bytes frame_step negotiate rounds dispatch conclude
reports_late env frame p = refl

-- The layer is initialised without a soft reset and the driver starts, but it refuses to set the bit rate
-- as often as it is tried: at first, and in the timer's callbacks, as many as PL_POLLING_MAX_CNT allows.
-- Then the initialisation returns success, and all that is put out is the attempts with the waits between
-- them: the error is not reported, and no callback is left to come, while the layer still stands in its
-- initialisation. When a frame is sent after that, the call returns success, nothing is sent, and only
-- then the failure is reported, and the layer is not initialised.
pub refused_bit_rate_blocks :
    (env later : Env) (envs : List Env) (frame : List ℕ) (p : Physical)
    → p.request_soft_reset ≡ not_requested
    → (p.do_pal_init && not env.pal_ready) ≡ false
    → env.bitrate_set ≡ false
    → AllRefuse envs
    → length envs ≡ polling_max
    → ((init_physical env p).0 ≡ success)
      × (after : Physical) × (next ((init_physical env p).1) (run (attempts envs))
          ≡ some (after, attempted polling_max))
      × (after.frame_state ≡ init)
      × (send_bytes later frame after ≡ (
        success,
        some (
          record after { frame_action = writing; tx_frame = frame; frame_state = uninit },
          report failure ∷ [],
        ),
      ))
unfolding init_physical frame_step
refused_bit_rate_blocks env later envs frame p plain starts refused all count =
    let begun : Physical = record p {
      pal_slave_address = p.slave_address;
      retry_counter = polling_max;
      frame_state = init;
      negotiate_state = set_freq_default;
    } in
    let is : init_physical env p ≡ (success, negotiate env begun) = rw (starts, plain) refl in
    let after : Physical = record begun { retry_counter = sub16 0 1; negotiate_state = done } in
    let e = refuses_all env envs begun refl refused all count (omega arith) in
    (
      ap (λ r. r.0) is,
      after,
      ap (λ (r : Status × Step). next (r.1) (run (attempts envs))) is
          ∙ e
          ∙ ap (λ n. some (after, attempted n)) count,
      refl,
      reports_late later frame after,
    )
