-- ===== src/Optiga/Physical/Negotiation/Bounds.antt =====
-- The sizes that the layer keeps, and that a negotiation stays within its buffer.
use decada_embedded_example.Base.{
  ℕ, zero, suc, ◌+◌, ◌≤◌, ◌≡◌, refl, subst, ◌∙◌, List, [], ◌∷◌, ◌++◌, ◌&&◌, Option, none, some, inl,
  inr, length, length-set, length-copy_to, set, ltb, leb, Bool-cases, arith,
}
use decada_embedded_example.Optiga.DataLink.Machine.{Status, success, failure}
use decada_embedded_example.Optiga.Physical.Machine.{
  Negotiate, set_freq_default, get_freq_reg, set_freq_reg, read_freq, verify_freq, agree_freq,
  set_data_reg_len, get_data_reg_len, verify_data_reg, done, Physical, Env, Output, i2c_read,
  deliver, read_register, write_register, reg_i2c_mode, word_of,
}
use decada_embedded_example.Optiga.Physical.Negotiation.{
  set_bit_rate, dispatch, choose_mode, rounds, negotiate, prepend, mode_persistent, mode_fm_plus,
  mode_sm_fm, sm_fm_max_frequency,
}
use decada_embedded_example.Optiga.Physical.Negotiation.Outcome.{negotiate_ends}

-- DL_MAX_FRAME_SIZE
abbrev pub max_frame_size : ℕ
max_frame_size = 300

-- The sizes of the state agree with the buffer's, which is one more than the largest frame's.
abbrev pub InBuffer : Physical → Type 0
InBuffer p =
    (length p.buffer ≡ max_frame_size + 1)
    × (p.buffer_tx_len ≤ max_frame_size + 1)
    × (p.buffer_rx_len ≤ max_frame_size + 1)
    × (p.frame_size ≤ max_frame_size)
    × (length p.tx_frame ≤ max_frame_size)

-- The driver is asked for no more bytes than fit, and no more are handed on than are there.
abbrev pub Within : Output → Type 0
Within (i2c_read n) = n ≤ max_frame_size + 1
Within (deliver n held) = n ≤ length held
Within _ = Unit

abbrev pub AllWithin : List Output → Type 0
AllWithin [] = Unit
AllWithin (o ∷ out) = Within o × AllWithin out

abbrev pub Good : Physical × List Output → Type 0
Good (p, out) = InBuffer p × AllWithin out

pub read_register-Good :
    (addr n : ℕ) (p : Physical)
    → n ≤ max_frame_size + 1
    → InBuffer p
    → Good (read_register addr n p)
unfolding read_register
read_register-Good addr n p h (b, tx, rx, fs, tf) =
    ((length-set p.buffer 0 addr ∙ b, omega arith, h, fs, tf), (tt, tt))

pub write_register-Good :
    (addr : ℕ) (content : List ℕ) (p : Physical)
    → length content ≤ max_frame_size
    → InBuffer p
    → Good (write_register addr content p)
unfolding write_register
write_register-Good addr content p h (b, tx, rx, fs, tf) =
    let buffer = set p.buffer 0 addr in
    (
      (length-copy_to buffer content 1 ∙ length-set p.buffer 0 addr ∙ b, omega arith, rx, fs, tf),
      (tt, tt),
    )

set_bit_rate-Good :
    (env : Env) (rate : ℕ) (p : Physical)
    → InBuffer p
    → Good ((set_bit_rate env rate p).1, (set_bit_rate env rate p).2)
unfolding set_bit_rate
set_bit_rate-Good env rate p h = ground arith

choose_mode-Good :
    (event : Status) (p : Physical)
    → InBuffer p
    → Good ((choose_mode event p).physical, (choose_mode event p).outputs)
unfolding choose_mode write_register
choose_mode-Good event p h =
    let fm_plus =
      write_register-Good reg_i2c_mode (mode_persistent ∷ mode_fm_plus ∷ []) p (omega arith) h in
    let sm_fm =
      write_register-Good reg_i2c_mode (mode_persistent ∷ mode_sm_fm ∷ []) p (omega arith) h in
    let slave_frequency = word_of p 2 3 in
    elim (Bool-cases
      (ltb sm_fm_max_frequency p.frequency && leb slave_frequency sm_fm_max_frequency)) [
        | inl up ↦ rw up fm_plus
        | inr other ↦
            elim (Bool-cases
              (leb p.frequency sm_fm_max_frequency && ltb sm_fm_max_frequency slave_frequency)) [
                | inl down ↦ rw (other, down) sm_fm
                | inr stays ↦ rw (other, stays) (h, tt)
              ]
      ]

dispatch-Good :
    (s : Negotiate) (env : Env) (event : Status) (p : Physical)
    → InBuffer p
    → Good ((dispatch s env event p).physical, (dispatch s env event p).outputs)
unfolding dispatch
dispatch-Good set_freq_default env event p h = ground arith
dispatch-Good get_freq_reg env event p h = read_register-Good _ 4 p (omega arith) h
dispatch-Good set_freq_reg env event p h = choose_mode-Good event p h
dispatch-Good read_freq env event p h = read_register-Good _ 4 p (omega arith) h
dispatch-Good verify_freq env event p h = (h, tt)
dispatch-Good agree_freq env event p h = ground arith
dispatch-Good set_data_reg_len env event p h = write_register-Good _ _ p (omega arith) h
dispatch-Good get_data_reg_len env event p h = read_register-Good _ 2 p (omega arith) h
dispatch-Good verify_data_reg env event p h = ground arith
dispatch-Good done env success p h = (h, (tt, tt))
dispatch-Good done env _ p h = (h, (tt, tt))

pub AllWithin-append : (a b : List Output) → AllWithin a → AllWithin b → AllWithin (a ++ b)
AllWithin-append [] b h k = k
AllWithin-append (o ∷ a) b (h, hs) k = (h, AllWithin-append a b hs k)

abbrev pub IfEnds : Option (Physical × List Output) → Type 0
IfEnds none = Unit
IfEnds (some e) = Good e

IfEnds-prepend :
    (out : List Output) (s : Option (Physical × List Output))
    → AllWithin out
    → IfEnds s
    → IfEnds (prepend out s)
IfEnds-prepend out none h k = tt
IfEnds-prepend out (some (p, later)) h (k, ks) = (k, AllWithin-append out later h ks)

rounds-IfEnds :
    (fuel : ℕ) (env : Env) (event : Status) (p : Physical)
    → InBuffer p
    → IfEnds (rounds fuel env event p)
unfolding rounds
rounds-IfEnds zero env event p h = tt
rounds-IfEnds (suc fuel) env event p h =
    let r = dispatch p.negotiate_state env event p in
    let (sound, within) = dispatch-Good p.negotiate_state env event p h in
    elim (Bool-cases r.more) [
      | inl more ↦
          rw more
            (IfEnds-prepend r.outputs _ within (rounds-IfEnds fuel env r.event r.physical sound))
      | inr stop ↦ rw stop (sound, within)
    ]

-- A step that ends, within the bounds.
abbrev pub GoodStep : Option (Physical × List Output) → Type 0
GoodStep s = (e : Physical × List Output) × (s ≡ some e) × Good e

pub negotiate-GoodStep : (env : Env) (p : Physical) → InBuffer p → GoodStep (negotiate env p)
unfolding negotiate
negotiate-GoodStep env p h =
    let (e, ends) = negotiate_ends env p in
    (e, ends, subst IfEnds ends (rounds-IfEnds 4 env failure p h))

pub now : (e : Physical × List Output) → Good e → GoodStep (some e)
now e h = (e, refl, h)
