-- ===== src/Optiga/Physical/Frames/Run.antt =====
-- Runs of the physical layer: what the I2C driver and the timer do, in order, and what one access
-- to a register takes.
use mathlib.Core.List.{append_assoc}
use decada_embedded_example.Base.{
  ℕ, suc, ◌+◌, ◌^◌, ◌≤◌, ◌<◌, ◌≡◌, refl, sym, ap, ap₂, ◌∙◌, List, [], ◌∷◌, ◌++◌, none, some,
  copy_to, length, length-set, length-drop, copy_to_start, take-append, drop, take, set, arith,
}
use decada_embedded_example.Base.Word.{u16}
use decada_embedded_example.Optiga.DataLink.Machine.{success}
use decada_embedded_example.Optiga.Physical.Machine.{
  reading, writing, Callback, guard_time_over, PalEvent, pal_success, Physical, Env, Output,
  i2c_read, i2c_write, call_later, guard_time, polling_max, read_register, write_register,
}
use decada_embedded_example.Optiga.Physical.Negotiation.{prepend}
use decada_embedded_example.Optiga.Physical.Frames.{
  Step, on_frame_event, after_guard_time, on_timer, on_pal_event, init_physical, send_bytes,
  receive_bytes,
}

-- What reaches the layer: an event of the driver, the bytes of a finished read, which the driver
-- puts into the buffer, a callback of the timer, and the calls of the layer above.
pub data Stimulus : Type 0 where
  bus : PalEvent → Stimulus
  filled : List ℕ → Stimulus
  elapsed : Callback → Env → Stimulus
  open_call : Env → Stimulus
  send_call : Env → List ℕ → Stimulus
  receive_call : Env → Stimulus

abbrev pub react : Stimulus → Physical → Step
react (bus event) p = on_pal_event event p
react (filled bytes) p = on_pal_event pal_success (record p { buffer = copy_to p.buffer 0 bytes })
react (elapsed callback env) p = on_timer callback env p
react (open_call env) p = (init_physical env p).1
react (send_call env frame) p = (send_bytes env frame p).1
react (receive_call env) p = (receive_bytes env p).1

-- A step, and what follows it from the state that it leaves.
abbrev pub next : Step → (Physical → Step) → Step
next none k = none
next (some (p, out)) k = prepend out (k p)

unfoldable pub run : List Stimulus → Physical → Step
run [] p = some (p, [])
run (s ∷ rest) p = next (react s p) (run rest)

-- The driver and the timer during a write of a register, and during a read that gives `bytes`.
abbrev pub written : Env → List Stimulus → List Stimulus
written env rest = bus pal_success ∷ elapsed guard_time_over env ∷ rest

abbrev pub answered : Env → List ℕ → List Stimulus → List Stimulus
answered env bytes rest =
    bus pal_success
    ∷ elapsed guard_time_over env
    ∷ filled bytes
    ∷ elapsed guard_time_over env
    ∷ rest

abbrev pub guard : Output
guard = call_later guard_time_over guard_time

pub prepend-prepend : (a b : List Output) (r : Step) → prepend a (prepend b r) ≡ prepend (a ++ b) r
prepend-prepend a b none = refl
prepend-prepend a b (some (p, out)) = ap (λ o. some (p, o)) (sym (append_assoc a b out))

-- A write ends in the frame state machine after one guard time.
pub run-written :
    (env : Env) (rest : List Stimulus) (p : Physical)
    → run (written env rest) (record p { register_action = writing })
      ≡ prepend
          (guard ∷ [])
          (next (on_frame_event env success (record p { register_action = writing })) (run rest))
unfolding run on_pal_event on_timer after_guard_time
run-written env rest p = refl

-- A read does after two, with the register's bytes at the start of the buffer.
pub run-answered :
    (env : Env) (bytes : List ℕ) (rest : List Stimulus) (p : Physical)
    → run (answered env bytes rest) (record p { register_action = reading; i2c_cmd = writing })
      ≡ prepend (guard ∷ i2c_read p.buffer_rx_len ∷ guard ∷ []) (
          next
            (on_frame_event env success (record p {
              buffer = copy_to p.buffer 0 bytes;
              register_action = reading;
              i2c_cmd = reading;
            }))
            (run rest))
unfolding run on_pal_event on_timer after_guard_time
run-answered env bytes rest p =
    let last =
      next
        (on_frame_event env success (record p {
          buffer = copy_to p.buffer 0 bytes;
          register_action = reading;
          i2c_cmd = reading;
        }))
        (run rest) in
    ap (prepend (guard ∷ [])) (prepend-prepend (i2c_read p.buffer_rx_len ∷ []) (guard ∷ []) last)
    ∙ prepend-prepend (guard ∷ []) (i2c_read p.buffer_rx_len ∷ guard ∷ []) last

pub take_one-set : (buffer : List ℕ) (v : ℕ) → 0 < length buffer → take 1 (set buffer 0 v) ≡ v ∷ []
take_one-set [] v room = absurd (omega arith)
take_one-set (b ∷ buffer) v room = refl

-- An access to a register for reading, from its start to the frame state machine.
pub register_read :
    (env : Env) (addr : ℕ) (bytes : List ℕ) (rest : List Stimulus) (p : Physical)
    → 0 < length p.buffer
    → length bytes ≤ length p.buffer
    → (held : List ℕ) × (next
          (some (read_register addr (length bytes) p))
          (run (answered env bytes rest))
        ≡ prepend (i2c_write (addr ∷ []) ∷ guard ∷ i2c_read (length bytes) ∷ guard ∷ []) (
            next
              (on_frame_event env success (record p {
                buffer = bytes ++ held;
                buffer_tx_len = 1;
                buffer_rx_len = length bytes;
                register_action = reading;
                retry_counter = polling_max;
                i2c_cmd = reading;
              }))
              (run rest)))
      × (length held + length bytes ≡ length p.buffer)
unfolding read_register
register_read env addr bytes rest p room fits =
    let buffer = set p.buffer 0 addr in
    let q : Physical = record p {
      buffer = buffer;
      buffer_tx_len = 1;
      buffer_rx_len = length bytes;
      retry_counter = polling_max;
    } in
    let len : length buffer ≡ length p.buffer = length-set p.buffer 0 addr in
    let filled_with = copy_to_start buffer bytes (omega (arith, len)) in
    let more = λ (b : List ℕ).
      next
        (on_frame_event env success
          (record q { buffer = b; register_action = reading; i2c_cmd = reading }))
        (run rest) in
    (
      drop (length bytes) buffer,
      ap (prepend (i2c_write (take 1 buffer) ∷ [])) (run-answered env bytes rest q)
          ∙ prepend-prepend (i2c_write (take 1 buffer) ∷ [])
              (guard ∷ i2c_read (length bytes) ∷ guard ∷ []) (more (copy_to buffer 0 bytes))
          ∙ ap₂
              (λ w b. prepend (i2c_write w ∷ guard ∷ i2c_read (length bytes) ∷ guard ∷ []) (more b))
              (take_one-set p.buffer addr room) filled_with,
      omega (arith, length-drop (length bytes) buffer, len),
    )

-- An access to a register for writing.
pub register_written :
    (env : Env) (addr : ℕ) (content : List ℕ) (rest : List Stimulus) (p : Physical)
    → length content < length p.buffer
    → length p.buffer < 2 ^ 16
    → (held : List ℕ) × (next (some (write_register addr content p)) (run (written env rest))
        ≡ prepend (i2c_write (addr ∷ content) ∷ guard ∷ []) (
            next
              (on_frame_event env success (record p {
                buffer = addr ∷ content ++ held;
                buffer_tx_len = suc (length content);
                register_action = writing;
                retry_counter = polling_max;
                i2c_cmd = writing;
              }))
              (run rest)))
      × (length held + length content + 1 ≡ length p.buffer)
unfolding write_register
register_written env addr content rest p room small =
    let held = drop (suc (length content)) p.buffer in
    let buffer_is : copy_to p.buffer 0 (addr ∷ content) ≡ addr ∷ content ++ held =
      copy_to_start p.buffer (addr ∷ content) (omega arith) in
    let len : u16 (1 + length content) ≡ suc (length content) = omega arith in
    let sent = ap₂ take len buffer_is ∙ take-append (addr ∷ content) held in
    let q = λ (b : List ℕ) (n : ℕ). record p {
      buffer = b;
      buffer_tx_len = n;
      retry_counter = polling_max;
      i2c_cmd = writing;
    } in
    (
      held,
      ap₂ (λ w r. prepend (i2c_write w ∷ []) r) sent
            (ap₂ (λ b n. run (written env rest) (record (q b n) { register_action = writing }))
                buffer_is len
              ∙ run-written env rest (q (addr ∷ content ++ held) (suc (length content))))
          ∙ prepend-prepend (i2c_write (addr ∷ content) ∷ []) (guard ∷ []) (
              next
                (on_frame_event env success
                  (record (q (addr ∷ content ++ held) (suc (length content))) {
                    register_action = writing;
                  }))
                (run rest)),
      omega (arith, length-drop (suc (length content)) p.buffer),
    )
