-- ===== src/Optiga/Physical/Frames/Receive.antt =====
-- A frame is received: the status register is read, then as many bytes as it announces.
use decada_embedded_example.Base.{
  ℕ, ◌/◌, ◌%◌, ◌^◌, ◌≤◌, ◌<◌, ◌≡◌, ◌≢◌, refl, ap, ◌∙◌, List, [], ◌∷◌, ◌++◌, some, length, take,
  take-append, bit_and, arith,
}
use decada_embedded_example.Base.Word.{u16, u8, ◌>>>◌}
use decada_embedded_example.Base.Word.Bits.{or_fields}
use decada_embedded_example.Optiga.Physical.Machine.{
  reading, Physical, Env, Output, ready, data_available, rxtx, i2c_read, i2c_write, deliver,
  reg_i2c_state, reg_len_i2c_state, reg_data, read_register, word_of, polling_max,
}
use decada_embedded_example.Optiga.Physical.Negotiation.{prepend}
use decada_embedded_example.Optiga.Physical.Frames.{
  frame_step, on_status, receive_bytes, response_ready,
}
use decada_embedded_example.Optiga.Physical.Frames.Run.{next, run, answered, guard, register_read}

-- A number of two bytes at the places 2 and 3 is what the layer reads there.
pub word_of-bytes :
    (p : Physical) (a b n : ℕ) (rest : List ℕ)
    → n < 2 ^ 16
    → word_of (record p { buffer = a ∷ b ∷ (n >>> 8) ∷ u8 n ∷ rest }) 2 3 ≡ n
word_of-bytes p a b n rest small =
    ap u16 (or_fields 8 (n / 2 ^ 8) (n % 2 ^ 8) (omega arith)) ∙ omega arith

-- What the device answers to a read of the status register: its flags and the number of bytes.
abbrev pub status_bytes : ℕ → ℕ → List ℕ
status_bytes flags size = flags ∷ 0 ∷ (size >>> 8) ∷ u8 size ∷ []

status-reads :
    (env : Env) (flags size : ℕ) (rest : List ℕ) (p : Physical)
    → bit_and flags response_ready ≢ 0
    → 0 < size
    → size ≤ p.frame_size
    → size < 2 ^ 16
    → let q : Physical = record p {
      frame_action = reading;
      buffer = flags ∷ 0 ∷ (size >>> 8) ∷ u8 size ∷ rest;
    } in
      on_status env q ≡ read_register reg_data size (record q { frame_state = rxtx })
unfolding on_status
status-reads env flags size rest p is_ready positive fits small =
    let size_is = word_of-bytes p flags 0 size rest small in rw (size_is) (ground arith)

-- A frame is asked for while the layer is at rest. The device says in its status register that an
-- answer of the frame's size is there, which is no larger than the frame size agreed on, and gives
-- the frame. Then the layer reads exactly so many bytes, hands them to the data link layer, with
-- nothing else put out but the accesses to the two registers, and is at rest again.
pub receives :
    (env : Env) (flags : ℕ) (frame : List ℕ) (p : Physical)
    → p.frame_state ≡ ready
    → bit_and flags response_ready ≢ 0
    → 0 < length frame
    → length frame ≤ p.frame_size
    → p.frame_size < 2 ^ 16
    → 4 ≤ length p.buffer
    → p.frame_size ≤ length p.buffer
    → (after : Physical) × (held : List ℕ) × (next
          ((receive_bytes env p).1)
          (run (answered env (status_bytes flags (length frame)) (answered env frame [])))
        ≡ some (
          after,
          i2c_write (reg_i2c_state ∷ [])
              ∷ guard
              ∷ i2c_read reg_len_i2c_state
              ∷ guard
              ∷ i2c_write (reg_data ∷ [])
              ∷ guard
              ∷ i2c_read (length frame)
              ∷ guard
              ∷ deliver (length frame) held
              ∷ [],
        ))
      × (take (length frame) held ≡ frame)
      × (after.frame_state ≡ ready)
unfolding receive_bytes frame_step run
receives env flags frame p at_rest is_ready positive fits small room space =
    let size = length frame in
    let rest = answered env frame [] in
    let asking : Physical = record p { frame_action = reading; frame_state = data_available } in
    let (h1, first, l1) =
      register_read env reg_i2c_state (status_bytes flags size) rest asking (omega arith)
        (omega arith) in
    let q : Physical = record asking {
      buffer = status_bytes flags size ++ h1;
      buffer_tx_len = 1;
      buffer_rx_len = 4;
      register_action = reading;
      retry_counter = polling_max;
      i2c_cmd = reading;
    } in
    let status = status-reads env flags size h1 q is_ready positive fits (omega arith) in
    let taking : Physical = record q { frame_state = rxtx } in
    let (h2, second, l2) =
      register_read env reg_data frame [] taking (omega arith) (omega (arith, l1)) in
    let starts : (receive_bytes env p).1 ≡ some (read_register reg_i2c_state 4 asking) =
      rw at_rest refl in
    let reading_on = λ (s : Physical × List Output). next (some s) (run rest) in
    (
      record taking { frame_state = ready; buffer = frame ++ h2; buffer_rx_len = size },
      frame ++ h2,
      ap (λ s. next s (run (answered env (status_bytes flags size) rest))) starts
          ∙ first
          ∙ ap (prepend (i2c_write (reg_i2c_state ∷ []) ∷ guard ∷ i2c_read 4 ∷ guard ∷ []))
              (ap reading_on status ∙ second),
      take-append frame h2,
      refl,
    )
