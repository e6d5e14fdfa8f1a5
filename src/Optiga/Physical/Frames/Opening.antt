-- ===== src/Optiga/Physical/Frames/Opening.antt =====
-- `ifx_i2c_pl_init` with the negotiation that it starts, up to the data link layer's handler.
use decada_embedded_example.Base.{
  ℕ, ◌/◌, ◌%◌, ◌^◌, ◌≤◌, ◌<◌, ◌≡◌, refl, sym, ap, subst, ◌∙◌, List, [], ◌∷◌, ◌++◌, true, false, not,
  ◌&&◌, none, some, length, arith,
}
use decada_embedded_example.Base.Word.{u8, u16, ◌>>>◌}
use decada_embedded_example.Base.Word.Bits.{or_fields}
use decada_embedded_example.Optiga.DataLink.Machine.{Status, success}
use decada_embedded_example.Optiga.Physical.Machine.{
  init, ready, set_freq_default, set_freq_reg, get_data_reg_len, verify_data_reg, done,
  not_requested, reading, writing, Physical, Env, Output, i2c_write, i2c_read, set_bitrate, report,
  reg_max_scl_frequ, reg_data_reg_len, word_of, read_register, write_register, polling_max,
}
use decada_embedded_example.Optiga.Physical.Negotiation.{
  negotiate, prepend, default_frequency, frame_size_bytes,
}
use decada_embedded_example.Optiga.Physical.Negotiation.Activations.{
  Fits, negotiate_starts, negotiate_agrees, negotiate_reads, negotiate_finishes,
}
use decada_embedded_example.Optiga.Physical.Frames.{Step, frame_step, init_physical}
use decada_embedded_example.Optiga.Physical.Frames.Run.{
  Stimulus, next, run, written, answered, guard, register_read, register_written, prepend-prepend,
}
use decada_embedded_example.Optiga.Physical.Frames.Receive.{word_of-bytes}

word_of-start :
    (p : Physical) (n : ℕ) (rest : List ℕ)
    → n < 2 ^ 16
    → word_of (record p { buffer = (n >>> 8) ∷ u8 n ∷ rest }) 0 1 ≡ n
word_of-start p n rest small =
    ap u16 (or_fields 8 (n / 2 ^ 8) (n % 2 ^ 8) (omega arith)) ∙ omega arith

-- What the device answers to a read of MAX_SCL_FREQU, and of DATA_REG_LEN.
abbrev pub frequency_bytes : ℕ → List ℕ
frequency_bytes f = 0 ∷ 0 ∷ (f >>> 8) ∷ u8 f ∷ []

abbrev pub size_bytes : ℕ → List ℕ
size_bytes s = (s >>> 8) ∷ u8 s ∷ []

-- The three accesses to registers of a negotiation.
abbrev pub negotiation : Env → ℕ → ℕ → List Stimulus
negotiation env f s =
    answered env (frequency_bytes f) (written env (answered env (size_bytes s) []))

next-prepend :
    (out : List Output) (s : Step) (k : Physical → Step)
    → next (prepend out s) k ≡ prepend out (next s k)
next-prepend out none k = refl
next-prepend out (some (p, later)) k = sym (prepend-prepend out later (k p))

-- From the activation that starts it.
opens :
    (env : Env) (f s : ℕ) (p : Physical)
    → env.bitrate_set ≡ true
    → f < 2 ^ 16
    → s ≤ p.frame_size
    → p.frame_size < 2 ^ 16
    → Fits p.frequency f
    → 4 ≤ length p.buffer
    → length p.buffer < 2 ^ 16
    → (after : Physical) × (next
          (negotiate env (record p { frame_state = init; negotiate_state = set_freq_default }))
          (run (negotiation env f s))
        ≡ some (
          after,
          set_bitrate default_frequency
              ∷ i2c_write (reg_max_scl_frequ ∷ [])
              ∷ guard
              ∷ i2c_read 4
              ∷ guard
              ∷ set_bitrate p.frequency
              ∷ i2c_write (reg_data_reg_len ∷ frame_size_bytes p)
              ∷ guard
              ∷ i2c_write (reg_data_reg_len ∷ [])
              ∷ guard
              ∷ i2c_read 2
              ∷ guard
              ∷ report success
              ∷ [],
        ))
      × (after.frame_state ≡ ready)
      × (after.frame_size ≡ s)
unfolding run frame_step
opens env f s p accepted small_f fits_s small_s fits room small =
    let p0 : Physical = record p { frame_state = init; negotiate_state = set_freq_default } in
    let rest1 = written env (answered env (size_bytes s) []) in
    let p1 : Physical = record p0 { negotiate_state = set_freq_reg } in
    let (h1, first, l1) =
      register_read env reg_max_scl_frequ (frequency_bytes f) rest1 p1 (omega arith)
        (omega arith) in
    let p2 : Physical = record p1 {
      buffer = frequency_bytes f ++ h1;
      buffer_tx_len = 1;
      buffer_rx_len = 4;
      register_action = reading;
      retry_counter = polling_max;
      i2c_cmd = reading;
    } in
    let f_read = word_of-bytes p2 0 0 f h1 small_f in
    let agrees =
      negotiate_agrees env p2 refl accepted (subst (λ n. Fits p.frequency n) (sym f_read) fits) in
    let p3 : Physical = record p2 { negotiate_state = get_data_reg_len } in
    let (h2, second, l2) =
      register_written env reg_data_reg_len (frame_size_bytes p) (answered env (size_bytes s) []) p3
        (omega (arith, l1)) (omega (arith, l1)) in
    let p4 : Physical = record p3 {
      buffer = reg_data_reg_len ∷ frame_size_bytes p ++ h2;
      buffer_tx_len = 3;
      register_action = writing;
      i2c_cmd = writing;
    } in
    let p5 : Physical = record p4 { negotiate_state = verify_data_reg } in
    let (h3, third, l3) =
      register_read env reg_data_reg_len (size_bytes s) [] p5 (omega (arith, l2))
        (omega (arith, l1, l2)) in
    let p6 : Physical = record p5 {
      buffer = size_bytes s ++ h3;
      buffer_tx_len = 1;
      buffer_rx_len = 2;
      register_action = reading;
      i2c_cmd = reading;
    } in
    let s_read = word_of-start p6 s h3 (omega arith) in
    let finishes = negotiate_finishes env p6 refl (omega (arith, s_read)) in
    let on : List Stimulus → Step → Step = λ script step. next step (run script) in
    let last = ap (on []) finishes in
    let size_read =
      ap (on (answered env (size_bytes s) [])) (negotiate_reads env p4 refl)
      ∙ third
      ∙ ap (prepend (i2c_write (reg_data_reg_len ∷ []) ∷ guard ∷ i2c_read 2 ∷ guard ∷ [])) last in
    let size_written =
      ap (on rest1) agrees
      ∙ next-prepend (set_bitrate p.frequency ∷ [])
          (some (write_register reg_data_reg_len (frame_size_bytes p) p3)) (run rest1)
      ∙ ap (prepend (set_bitrate p.frequency ∷ [])) (
          second
          ∙ ap (prepend (i2c_write (reg_data_reg_len ∷ frame_size_bytes p) ∷ guard ∷ []))
              size_read) in
    (
      record p6 { frame_state = ready; frame_size = word_of p6 0 1; negotiate_state = done },
      ap (on (negotiation env f s)) (negotiate_starts env p0 refl accepted)
          ∙ next-prepend (set_bitrate default_frequency ∷ [])
              (some (read_register reg_max_scl_frequ 4 p1)) (run (negotiation env f s))
          ∙ ap (prepend (set_bitrate default_frequency ∷ [])) (
              first
              ∙ ap (prepend (i2c_write (reg_max_scl_frequ ∷ []) ∷ guard ∷ i2c_read 4 ∷ guard ∷ []))
                  size_written),
      refl,
      s_read,
    )

-- The layer is initialised without a soft reset, the driver starts and sets every bit rate, and the
-- device offers at least the requested frequency in a mode that fits, and a frame size no larger
-- than the requested one. Then three accesses to registers, with nothing else put out but the two
-- bit rates, lead to the rest state with the device's frame size, and success is reported.
pub init_physical_negotiates :
    (env : Env) (f s : ℕ) (p : Physical)
    → p.request_soft_reset ≡ not_requested
    → (p.do_pal_init && not env.pal_ready) ≡ false
    → env.bitrate_set ≡ true
    → f < 2 ^ 16
    → s ≤ p.frame_size
    → p.frame_size < 2 ^ 16
    → Fits p.frequency f
    → 4 ≤ length p.buffer
    → length p.buffer < 2 ^ 16
    → ((init_physical env p).0 ≡ success)
      × (after : Physical) × (next ((init_physical env p).1) (run (negotiation env f s))
          ≡ some (
            after,
            set_bitrate default_frequency
                ∷ i2c_write (reg_max_scl_frequ ∷ [])
                ∷ guard
                ∷ i2c_read 4
                ∷ guard
                ∷ set_bitrate p.frequency
                ∷ i2c_write (reg_data_reg_len ∷ frame_size_bytes p)
                ∷ guard
                ∷ i2c_write (reg_data_reg_len ∷ [])
                ∷ guard
                ∷ i2c_read 2
                ∷ guard
                ∷ report success
                ∷ [],
          ))
      × (after.frame_state ≡ ready)
      × (after.frame_size ≡ s)
unfolding init_physical frame_step
init_physical_negotiates env f s p plain starts accepted small_f fits_s small_s fits room small =
    let fresh : Physical = record p {
      pal_slave_address = p.slave_address;
      retry_counter = polling_max;
    } in
    let begun = record fresh { frame_state = init; negotiate_state = set_freq_default } in
    let is : init_physical env p ≡ (success, negotiate env begun) = rw (starts, plain) refl in
    let (after, e, at, size) =
      opens env f s fresh accepted small_f fits_s small_s fits room small in
    (
      ap (λ r. r.0) is,
      after,
      ap (λ (r : Status × Step). next (r.1) (run (negotiation env f s))) is ∙ e,
      at,
      size,
    )
