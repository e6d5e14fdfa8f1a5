-- ===== src/Optiga/Physical/Tests.antt =====
-- Runs of the physical layer at concrete inputs.
use decada_embedded_example.Base.{
  ℕ, zero, suc, ◌≡◌, ◌<◌, refl, List, [], ◌∷◌, ◌++◌, true, false, inl, some, take, length, arith,
}
use decada_embedded_example.Base.Word.{sub16}
use decada_embedded_example.Optiga.DataLink.Machine.{success, failure, fatal}
use decada_embedded_example.Optiga.DataLink.Frame.Layout.{layout}
use decada_embedded_example.Optiga.Transport.Machine.{Transport, idle, send_next_fragment}
use decada_embedded_example.Optiga.Physical.Machine.{
  ready, rxtx, init, uninit, polling_max, soft_reset, data_available, set_freq_default,
  not_requested, reset_write, reading, writing, pal_error, pal_busy, pal_success, Physical, Env,
  Output, i2c_write, i2c_read, set_bitrate, deliver, report, restart_transfer, reg_i2c_state,
  reg_len_i2c_state, reg_data, reg_max_scl_frequ, reg_data_reg_len, read_register, guard_time_over,
}
use decada_embedded_example.Optiga.Physical.Negotiation.{
  negotiate, default_frequency, frame_size_bytes,
}
use decada_embedded_example.Optiga.Physical.Negotiation.Outcome.{negotiate_ends}
use decada_embedded_example.Optiga.Physical.Negotiation.Bounds.{InBuffer, AllWithin}
use decada_embedded_example.Optiga.Physical.Frames.{
  init_physical, receive_bytes, send_bytes, on_frame_event,
}
use decada_embedded_example.Optiga.Physical.Frames.Run.{
  Stimulus, bus, filled, elapsed, open_call, send_call, receive_call, next, run, answered, guard,
}
use decada_embedded_example.Optiga.Physical.Frames.Receive.{status_bytes, receives}
use decada_embedded_example.Optiga.Physical.Frames.Opening.{negotiation, init_physical_negotiates}
use decada_embedded_example.Optiga.Physical.Frames.Bounds.{run-InBuffer}
use decada_embedded_example.Optiga.Physical.Frames.Refused.{
  attempts, AllRefuse, attempted, refused_bit_rate_blocks,
}
use decada_embedded_example.Optiga.Physical.Frames.Failures.{
  transfer, failing, again, retries_then_fatal, unsupported_reset_leaves_rest,
}
use decada_embedded_example.Optiga.FrameSize.{with_packet, negotiated_size_outgrown}

abbrev zeros : ℕ → List ℕ
zeros zero = []
zeros (suc n) = 0 ∷ zeros n

-- A layer that has not been initialised, for 400 kHz and frames of 277 bytes.
abbrev closed : Physical
closed = record {
  buffer = zeros 301;
  buffer_tx_len = 0;
  buffer_rx_len = 0;
  register_action = reading;
  i2c_cmd = writing;
  retry_counter = 0;
  frame_action = reading;
  frame_state = uninit;
  tx_frame = [];
  negotiate_state = set_freq_default;
  request_soft_reset = not_requested;
  frequency = 400;
  frame_size = 277;
  slave_address = 0x30;
  pal_slave_address = 0x30;
  do_pal_init = true;
}

abbrev env : Env
env = record {
  now = 0;
  frame_start_time = 0;
  data_poll_timeout = 1000;
  bitrate_set = true;
  pal_ready = true;
}

abbrev deaf : Env
deaf = record env { bitrate_set = false }

negotiate_ends_example : (e : Physical × List Output) × (negotiate env closed ≡ some e)
negotiate_ends_example = negotiate_ends env closed

abbrev times : ℕ → Env → List Env
times zero e = []
times (suc n) e = e ∷ times n e

deaf-AllRefuse : (n : ℕ) → AllRefuse (times n deaf)
deaf-AllRefuse zero = tt
deaf-AllRefuse (suc n) = (refl, deaf-AllRefuse n)

length-times : (n : ℕ) (e : Env) → length (times n e) ≡ n
length-times zero e = refl
length-times (suc n) e = omega (arith, length-times n e)

refused_bit_rate_blocks_example :
    ((init_physical deaf closed).0 ≡ success)
    × (after : Physical) × (next
          ((init_physical deaf closed).1)
          (run (attempts (times polling_max deaf)))
        ≡ some (after, attempted polling_max))
    × (after.frame_state ≡ init)
    × (send_bytes env (1 ∷ 2 ∷ []) after ≡ (
      success,
      some (
        record after { frame_action = writing; tx_frame = 1 ∷ 2 ∷ []; frame_state = uninit },
        report failure ∷ [],
      ),
    ))
refused_bit_rate_blocks_example =
    refused_bit_rate_blocks deaf env (times polling_max deaf) (1 ∷ 2 ∷ []) closed refl refl refl
      (deaf-AllRefuse polling_max) (length-times polling_max deaf)

abbrev at_rest : Physical
at_rest = record closed { frame_state = ready }

receives_example :
    (after : Physical) × (held : List ℕ) × (next
        ((receive_bytes env at_rest).1)
        (run (answered env (status_bytes 0x40 3) (answered env (7 ∷ 8 ∷ 9 ∷ []) [])))
      ≡ some (
        after,
        i2c_write (reg_i2c_state ∷ [])
            ∷ guard
            ∷ i2c_read reg_len_i2c_state
            ∷ guard
            ∷ i2c_write (reg_data ∷ [])
            ∷ guard
            ∷ i2c_read 3
            ∷ guard
            ∷ deliver 3 held
            ∷ [],
      ))
    × (take 3 held ≡ 7 ∷ 8 ∷ 9 ∷ [])
    × (after.frame_state ≡ ready)
receives_example =
    receives env 0x40 (7 ∷ 8 ∷ 9 ∷ []) at_rest refl (λ e. absurd (omega arith)) (omega arith)
      (omega arith) (omega arith) (omega arith) (omega arith)

init_physical_negotiates_example :
    ((init_physical env closed).0 ≡ success)
    × (after : Physical) × (next ((init_physical env closed).1) (run (negotiation env 400 64))
        ≡ some (
          after,
          set_bitrate default_frequency
              ∷ i2c_write (reg_max_scl_frequ ∷ [])
              ∷ guard
              ∷ i2c_read 4
              ∷ guard
              ∷ set_bitrate 400
              ∷ i2c_write (reg_data_reg_len ∷ frame_size_bytes closed)
              ∷ guard
              ∷ i2c_write (reg_data_reg_len ∷ [])
              ∷ guard
              ∷ i2c_read 2
              ∷ guard
              ∷ report success
              ∷ [],
        ))
    × (after.frame_state ≡ ready)
    × (after.frame_size ≡ 64)
init_physical_negotiates_example =
    init_physical_negotiates env 400 64 closed refl refl refl (omega arith) (omega arith)
      (omega arith) (omega arith, inl (omega arith)) (omega arith) (omega arith)

abbrev script : List Stimulus
script =
    open_call env
    ∷ bus pal_error
    ∷ elapsed restart_transfer env
    ∷ bus pal_success
    ∷ elapsed guard_time_over env
    ∷ filled (1 ∷ 2 ∷ 3 ∷ 4 ∷ [])
    ∷ send_call env (1 ∷ 2 ∷ [])
    ∷ receive_call env
    ∷ []

run-InBuffer_example :
    (after : Physical) × (out : List Output) × (run script closed ≡ some (after, out))
    × InBuffer after
    × AllWithin out
run-InBuffer_example =
    run-InBuffer script closed (tt, (tt, (tt, (tt, (tt, (tt, (omega arith, (tt, tt))))))))
      (refl, omega arith, omega arith, omega arith, omega arith)

-- A layer that sends two bytes, and may try twice more.
abbrev sending : Physical
sending = record closed { frame_state = rxtx; buffer_tx_len = 2; retry_counter = 2 }

retries_then_fatal_example :
    run (failing env (pal_error ∷ pal_busy ∷ []) (bus pal_error ∷ [])) sending
    ≡ some (
      record sending { frame_state = ready; retry_counter = sub16 0 1 },
      again 2 (transfer sending) ++ (report fatal ∷ []),
    )
retries_then_fatal_example =
    retries_then_fatal env (pal_error ∷ pal_busy ∷ []) pal_error sending (refl, (refl, tt)) refl
      refl (omega arith)

abbrev resetting : Physical
resetting = record closed { frame_state = soft_reset; request_soft_reset = reset_write }

unsupported_reset_leaves_rest_example :
    (after : Physical) × (on_frame_event env success resetting ≡ some (after, report failure ∷ []))
    × (after.negotiate_state ≡ set_freq_default)
    × (send_bytes env (1 ∷ []) after ≡ (
      success,
      some (
          read_register reg_i2c_state reg_len_i2c_state (record after {
            frame_action = writing;
            tx_frame = 1 ∷ [];
            frame_state = data_available;
          })),
    ))
unsupported_reset_leaves_rest_example =
    unsupported_reset_leaves_rest env (1 ∷ []) resetting refl refl (omega arith) refl

abbrev stack : Transport
stack = record {
  state = idle;
  packet = [];
  total_recv_length = 0;
  packet_offset = 0;
  max_packet_length = 0;
  recv_buffer = [];
  recv_length = 0;
  api_start_time = 0;
  chaining_error_count = 0;
  master_chaining_error_count = 0;
  previous_chaining = 0;
  transmission_completed = false;
  error_event = failure;
  tx_frame = zeros 300;
}

negotiated_size_outgrown_example :
    (after : Physical) × (out : List Output) × (next
        ((init_physical env closed).1)
        (run (negotiation env 400 64))
      ≡ some (after, out))
    × (after.frame_state ≡ ready)
    × (after.frame_size ≡ 64)
    × (after.frame_size
        < length (layout 0 (send_next_fragment (with_packet 277 (zeros 300) stack)).1))
negotiated_size_outgrown_example =
    negotiated_size_outgrown env 400 64 0 closed (zeros 300) stack refl refl refl (omega arith)
      (omega arith) (omega arith) (omega arith) (omega arith, inl (omega arith)) (omega arith)
      (omega arith) (omega arith) (omega arith) (omega arith) (omega arith)
