-- ===== src/Optiga/Physical/Negotiation/Activations.antt =====
-- What the negotiation does in one activation, for a bit rate that can be set and a device whose
-- mode fits the requested frequency.
use decada_embedded_example.Base.{ℕ, ◌≤◌, ◌<◌, ◌≡◌, refl, ap, ◌∙◌, [], ◌∷◌, true, some, arith, ◌⊎◌}
use decada_embedded_example.Optiga.DataLink.Machine.{Status, success, failure}
use decada_embedded_example.Optiga.Physical.Machine.{
  ready, set_freq_default, get_freq_reg, set_freq_reg, verify_freq, agree_freq, set_data_reg_len,
  get_data_reg_len, verify_data_reg, done, Physical, Env, set_bitrate, report, word_of,
  read_register, write_register, reg_max_scl_frequ, reg_len_max_scl_frequ, reg_data_reg_len,
  reg_len_data_reg_len,
}
use decada_embedded_example.Optiga.Physical.Negotiation.{
  go_on, after_bit_rate, set_bit_rate, dispatch, negotiate, choose_mode, check_frame_size, conclude,
  prepend, default_frequency, sm_fm_max_frequency, frame_size_bytes,
}
use decada_embedded_example.Optiga.Physical.Negotiation.Outcome.{rounds-goes_on, rounds-waits}

set_bit_rate-accepted :
    (env : Env) (rate : ℕ) (p : Physical)
    → env.bitrate_set ≡ true
    → set_bit_rate env rate p ≡ (success, p, set_bitrate rate ∷ [])
unfolding set_bit_rate
set_bit_rate-accepted env rate p accepted = rw accepted

-- It starts with the default frequency, and asks for the device's.
pub negotiate_starts :
    (env : Env) (p : Physical)
    → p.negotiate_state ≡ set_freq_default
    → env.bitrate_set ≡ true
    → negotiate env p
      ≡ prepend (set_bitrate default_frequency ∷ []) (
          some (
            read_register reg_max_scl_frequ reg_len_max_scl_frequ
              (record p { negotiate_state = set_freq_reg })))
unfolding negotiate dispatch read_register
negotiate_starts env p at accepted =
    let set =
      ap (after_bit_rate get_freq_reg) (set_bit_rate-accepted env default_frequency p accepted) in
    let q : Physical = record p { negotiate_state = get_freq_reg } in
    let asked = read_register reg_max_scl_frequ reg_len_max_scl_frequ q in
    rounds-goes_on 3 env failure p set_freq_default get_freq_reg success p _ at set
    ∙ ap (prepend (set_bitrate default_frequency ∷ []))
        (rounds-waits 2 env success q get_freq_reg set_freq_reg success asked refl refl)

-- The mode of the device fits: both frequencies are at most the limit of the slow modes, or the
-- requested one is above.
abbrev pub Fits : ℕ → ℕ → Type 0
Fits wanted offered =
    (wanted ≤ offered) × ((offered ≤ sm_fm_max_frequency) ⊎ (sm_fm_max_frequency < wanted))

choose_mode-Fits :
    (event : Status) (p : Physical)
    → Fits p.frequency (word_of p 2 3)
    → choose_mode event p ≡ go_on verify_freq event p []
unfolding choose_mode
choose_mode-Fits event p (low, mode) = ground arith

verify-Fits :
    (env : Env) (event : Status) (p : Physical)
    → Fits p.frequency (word_of p 2 3)
    → dispatch verify_freq env event p ≡ go_on agree_freq event p []
unfolding dispatch
verify-Fits env event p (low, mode) = ground arith

-- With the answer, the frequency is set, and the frame size is asked for.
pub negotiate_agrees :
    (env : Env) (p : Physical)
    → p.negotiate_state ≡ set_freq_reg
    → env.bitrate_set ≡ true
    → Fits p.frequency (word_of p 2 3)
    → negotiate env p
      ≡ prepend (set_bitrate p.frequency ∷ []) (
          some (
            write_register reg_data_reg_len
              (frame_size_bytes p)
              (record p { negotiate_state = get_data_reg_len })))
unfolding negotiate dispatch write_register
negotiate_agrees env p at accepted fits =
    let verifying : Physical = record p { negotiate_state = verify_freq } in
    let agreeing : Physical = record p { negotiate_state = agree_freq } in
    let asking : Physical = record p { negotiate_state = set_data_reg_len } in
    let asked = write_register reg_data_reg_len (frame_size_bytes p) asking in
    let set =
      ap (after_bit_rate set_data_reg_len)
        (set_bit_rate-accepted env p.frequency agreeing accepted) in
    let frequency_set =
      rounds-goes_on 1 env failure agreeing agree_freq set_data_reg_len success agreeing _ refl set
      ∙ ap (prepend (set_bitrate p.frequency ∷ [])) (
          rounds-waits 0 env success asking set_data_reg_len get_data_reg_len success asked refl
            refl) in
    let verified =
      rounds-goes_on 2 env failure verifying verify_freq agree_freq failure verifying [] refl
        (verify-Fits env failure verifying fits) in
    rounds-goes_on 3 env failure p set_freq_reg verify_freq failure p [] at
      (choose_mode-Fits failure p fits)
    ∙ ap (prepend []) (verified ∙ ap (prepend []) frequency_set)

-- After the write, the frame size is read back.
pub negotiate_reads :
    (env : Env) (p : Physical)
    → p.negotiate_state ≡ get_data_reg_len
    → negotiate env p
      ≡ some (
          read_register reg_data_reg_len reg_len_data_reg_len
            (record p { negotiate_state = verify_data_reg }))
unfolding negotiate dispatch read_register
negotiate_reads env p at =
    rounds-waits 3 env failure p get_data_reg_len verify_data_reg failure
      (read_register reg_data_reg_len reg_len_data_reg_len p) at refl

-- The device's frame size is taken over, and the data link layer is told.
pub negotiate_finishes :
    (env : Env) (p : Physical)
    → p.negotiate_state ≡ verify_data_reg
    → word_of p 0 1 ≤ p.frame_size
    → negotiate env p
      ≡ some (
        record p { frame_state = ready; frame_size = word_of p 0 1; negotiate_state = done },
        report success ∷ [],
      )
unfolding negotiate dispatch check_frame_size conclude
negotiate_finishes env p at fits =
    let q : Physical = record p { frame_size = word_of p 0 1 } in
    let ended : Physical = record q { frame_state = ready; negotiate_state = done } in
    let taken : dispatch verify_data_reg env failure p ≡ go_on done success q [] = ground arith in
    rounds-goes_on 3 env failure p verify_data_reg done success q [] at taken
    ∙ ap (prepend []) (
        rounds-waits 2 env success (record q { negotiate_state = done }) done done success
          (ended, report success ∷ []) refl refl)
