-- ===== src/Optiga/Physical/Frames/Bounds.antt =====
-- The layer's buffer is large enough for everything that is put into it and taken from it.
use decada_embedded_example.Base.{
  ◌+◌, ◌≤◌, ◌≡◌, refl, ap, ◌∙◌, List, [], ◌∷◌, ◌++◌, not, ◌&&◌, some, inl, inr, length, length-set,
  length-copy_to, set, bit_and, ltb, leb, ◌==◌, Bool-cases, arith, copy_to,
}
use decada_embedded_example.Optiga.DataLink.Machine.{Status, success}
use decada_embedded_example.Optiga.Physical.Machine.{
  FrameState, uninit, init, ready, data_available, rxtx, soft_reset, set_freq_default, SoftReset,
  requested, get_status_reg, reset_write, reset_startup, reset_init, reading, writing, Callback,
  negotiate_again, poll_status, restart_transfer, guard_time_over, reset_again, PalEvent,
  pal_success, Physical, Env, Output, polling_max, reg_i2c_state, reg_data, word_of, reg_soft_reset,
  byte_of,
}
use decada_embedded_example.Optiga.Physical.Negotiation.{prepend}
use decada_embedded_example.Optiga.Physical.Frames.{
  is_reading, response_ready, soft_reset_bit, on_frame_event, frame_step, reset_step, poll_or_fail,
  on_status, restart, after_guard_time, on_timer, on_pal_event, start_by, is_idle, init_physical,
  send_bytes, receive_bytes,
}
use decada_embedded_example.Optiga.Physical.Frames.Run.{
  Stimulus, bus, filled, elapsed, open_call, send_call, receive_call, react, next, run,
}
use decada_embedded_example.Optiga.Physical.Negotiation.Bounds.{
  max_frame_size, InBuffer, AllWithin, AllWithin-append, Good, GoodStep, read_register-Good,
  write_register-Good, negotiate-GoodStep, now,
}

poll_or_fail-Good : (env : Env) (p : Physical) → InBuffer p → Good (poll_or_fail env p)
unfolding poll_or_fail
poll_or_fail-Good env p h = ground arith

on_status-Good : (env : Env) (p : Physical) → InBuffer p → Good (on_status env p)
unfolding on_status
on_status-Good env p h =
    let polled = poll_or_fail-Good env p h in
    let size = word_of p 2 3 in
    let transferring : Physical = record p { frame_state = rxtx } in
    let sent = write_register-Good reg_data p.tx_frame transferring (h.4) h in
    elim (Bool-cases
      (is_reading p.frame_action && not (bit_and (byte_of p 0) response_ready == 0))) [
        | inl answer ↦ elim (Bool-cases (ltb 0 size && leb size p.frame_size)) [
          | inl fits ↦
              let bound : size ≤ max_frame_size + 1 = ground arith in
              rw (answer, fits) (read_register-Good reg_data size transferring bound h)
          | inr wrong ↦ rw (answer, wrong) polled
        ]
        | inr none_yet ↦ elim (Bool-cases (is_reading p.frame_action)) [
          | inl waiting ↦ rw (none_yet, waiting) polled
          | inr sending ↦ rw (none_yet, sending) sent
        ]
      ]

reset_step-GoodStep :
    (s : SoftReset) (env : Env) (p : Physical) → InBuffer p → GoodStep (reset_step s env p)
unfolding reset_step
reset_step-GoodStep get_status_reg env p h = now _ (
    read_register-Good reg_i2c_state 4 (record p { request_soft_reset = reset_write }) (omega arith)
      h)
reset_step-GoodStep reset_write env p (b, tx, rx, fs, tf) =
    let buffer = set p.buffer 0 (bit_and (byte_of p 0) soft_reset_bit) in
    let masked : Physical = record p { buffer = buffer } in
    let h : InBuffer masked = (length-set p.buffer 0 _ ∙ b, tx, rx, fs, tf) in
    elim (Bool-cases (byte_of masked 0 == soft_reset_bit)) [
      | inl supported ↦ rw supported (
          now _ (
            write_register-Good reg_soft_reset (0 ∷ 0 ∷ [])
              (record masked { request_soft_reset = reset_startup }) (omega arith) h))
      | inr unsupported ↦ rw unsupported (now _ (h, (tt, tt)))
    ]
reset_step-GoodStep reset_startup env p h = now _ (h, (tt, tt))
reset_step-GoodStep reset_init env p h = negotiate-GoodStep env (record p { frame_state = init }) h
reset_step-GoodStep _ env p h = now _ (h, tt)

frame_step-GoodStep :
    (s : FrameState) (env : Env) (p : Physical) → InBuffer p → GoodStep (frame_step s env p)
unfolding frame_step
frame_step-GoodStep soft_reset env p h = reset_step-GoodStep p.request_soft_reset env p h
frame_step-GoodStep init env p h = negotiate-GoodStep env p h
frame_step-GoodStep ready env p h =
    now _ (
      read_register-Good reg_i2c_state 4 (record p { frame_state = data_available }) (omega arith)
        h)
frame_step-GoodStep data_available env p h = now _ (on_status-Good env p h)
frame_step-GoodStep rxtx env p h = now _ (h, (omega arith, tt))
frame_step-GoodStep uninit env p h = now _ (h, tt)

on_frame_event-GoodStep :
    (env : Env) (event : Status) (p : Physical) → InBuffer p → GoodStep (on_frame_event env event p)
on_frame_event-GoodStep env success p h = frame_step-GoodStep p.frame_state env p h
on_frame_event-GoodStep env _ p h = now _ (h, (tt, tt))

after_guard_time-GoodStep :
    (env : Env) (p : Physical) → InBuffer p → GoodStep (after_guard_time env p)
unfolding after_guard_time
after_guard_time-GoodStep env p h =
    elim (Bool-cases (is_reading p.register_action && not (is_reading p.i2c_cmd))) [
      | inl addressed ↦ rw addressed (now _ (h, (h.2, tt)))
      | inr over ↦ rw over (frame_step-GoodStep p.frame_state env p h)
    ]

restart-Good : (p : Physical) → InBuffer p → Good (restart p)
unfolding restart
restart-Good p h = ground arith

on_timer-GoodStep :
    (callback : Callback) (env : Env) (p : Physical)
    → InBuffer p
    → GoodStep (on_timer callback env p)
unfolding on_timer
on_timer-GoodStep negotiate_again env p h = negotiate-GoodStep env p h
on_timer-GoodStep poll_status env p h = now _ (read_register-Good reg_i2c_state 4 p (omega arith) h)
on_timer-GoodStep restart_transfer env p h = now _ (restart-Good p h)
on_timer-GoodStep guard_time_over env p h = after_guard_time-GoodStep env p h
on_timer-GoodStep reset_again env p h = reset_step-GoodStep p.request_soft_reset env p h

on_pal_event-GoodStep :
    (event : PalEvent) (p : Physical) → InBuffer p → GoodStep (on_pal_event event p)
unfolding on_pal_event
on_pal_event-GoodStep pal_success p h = now _ (h, (tt, tt))
on_pal_event-GoodStep _ p h = elim (Bool-cases (p.retry_counter == 0)) [
  | inl last ↦ rw last (now _ (h, (tt, tt)))
  | inr more ↦ rw more (now _ (h, (tt, tt)))
]

start_by-GoodStep :
    (s : SoftReset) (env : Env) (p : Physical) → InBuffer p → GoodStep (start_by s env p)
unfolding frame_step
start_by-GoodStep requested env p h =
    reset_step-GoodStep get_status_reg env
      (record p { request_soft_reset = get_status_reg; frame_state = soft_reset }) h
start_by-GoodStep _ env p h = negotiate-GoodStep env (record p { frame_state = init }) h

-- The frames that are sent have at most the largest size.
abbrev pub Allowed : Stimulus → Type 0
Allowed (send_call env frame) = length frame ≤ max_frame_size
Allowed _ = Unit

react-GoodStep : (s : Stimulus) (p : Physical) → Allowed s → InBuffer p → GoodStep (react s p)
unfolding init_physical send_bytes receive_bytes
react-GoodStep (bus event) p a h = on_pal_event-GoodStep event p h
react-GoodStep (filled bytes) p a (b, tx, rx, fs, tf) =
    on_pal_event-GoodStep pal_success (record p { buffer = copy_to p.buffer 0 bytes })
      (length-copy_to p.buffer bytes 0 ∙ b, tx, rx, fs, tf)
react-GoodStep (elapsed callback env) p a h = on_timer-GoodStep callback env p h
react-GoodStep (open_call env) p a h =
    let fresh : Physical = record p {
      frame_state = uninit;
      negotiate_state = set_freq_default;
      pal_slave_address = p.slave_address;
      retry_counter = polling_max;
    } in
    elim (Bool-cases (p.do_pal_init && not env.pal_ready)) [
      | inl fails ↦ rw (fails, react) (now _ (h, tt))
      | inr starts ↦ rw (starts, react) (start_by-GoodStep p.request_soft_reset env fresh h)
    ]
react-GoodStep (send_call env frame) p a (b, tx, rx, fs, tf) =
    elim (Bool-cases (is_idle p.frame_state)) [
      | inl idle ↦
          rw (idle, react)
            (frame_step-GoodStep p.frame_state env
              (record p { frame_action = writing; tx_frame = frame }) (b, tx, rx, fs, a))
      | inr busy ↦ rw (busy, react) (now _ ((b, tx, rx, fs, tf), tt))
    ]
react-GoodStep (receive_call env) p a h = elim (Bool-cases (is_idle p.frame_state)) [
  | inl idle ↦
      rw (idle, react)
        (frame_step-GoodStep p.frame_state env (record p { frame_action = reading }) h)
  | inr busy ↦ rw (busy, react) (now _ (h, tt))
]

abbrev pub AllAllowed : List Stimulus → Type 0
AllAllowed [] = Unit
AllAllowed (s ∷ rest) = Allowed s × AllAllowed rest

-- Every run of the layer ends, from a state whose sizes agree with the buffer's, whatever the
-- device, the driver and the timer do and in whatever order, if the frames to be sent have at most
-- the largest size. It leaves such a state, it never asks the driver for more bytes than the buffer
-- has room for, and it never hands on more bytes than are there.
pub run-InBuffer :
    (script : List Stimulus) (p : Physical)
    → AllAllowed script
    → InBuffer p
    → (after : Physical) × (out : List Output) × (run script p ≡ some (after, out))
      × InBuffer after
      × AllWithin out
unfolding run
run-InBuffer [] p a h = (p, [], refl, h, tt)
run-InBuffer (s ∷ script) p (a, rest) h =
    let ((q, now_out), e, (good, within)) = react-GoodStep s p a h in
    let (after, out, ends, sound, all) = run-InBuffer script q rest good in
    (
      after,
      now_out ++ out,
      ap (λ step. next step (run script)) e ∙ ap (prepend now_out) ends,
      sound,
      AllWithin-append now_out out within all,
    )
