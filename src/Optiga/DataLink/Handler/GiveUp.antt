-- ===== src/Optiga/DataLink/Handler/GiveUp.antt =====
-- The end of a transmission that does not get through in time.
use decada_embedded_example.Base.{
  ℕ, ◌≤◌, ◌≡◌, refl, ap, ◌∙◌, List, [], ◌∷◌, true, false, ◌⊎◌, none, some, arith, length,
}
use decada_embedded_example.Base.Word.{sub32}
use decada_embedded_example.Optiga.DataLink.Frame.{
  no_fields, header_size, control_fctr, seqctr_resync,
}
use decada_embedded_example.Optiga.DataLink.Frame.Buffer.{take-seal_in}
use decada_embedded_example.Optiga.DataLink.Machine.{
  idle, tx, rx, resend, error, Status, failure, DataLink, Env, transmit, notify, on_error,
  send_internal, resend_frame, resync, exit_timeout, max_frame_nr,
}
use decada_embedded_example.Optiga.DataLink.Handler.{
  continue_in, stop_with, dispatch, round, handle, on_resend, on_failure, prepend,
}
use decada_embedded_example.Optiga.DataLink.Handler.Total.{rounds-stop, rounds-more}
use decada_embedded_example.Optiga.DataLink.Handler.Exchange.{control_frame}
use decada_embedded_example.Optiga.DataLink.Handler.Repeat.{round-failed}

round-late :
    (env : Env) (d : DataLink)
    → exit_timeout ≤ sub32 env.now env.api_start_time
    → d.state ≡ resend
    → round env failure [] no_fields d ≡ continue_in d no_fields error
unfolding round dispatch on_resend resend_frame
round-late env d late st = ground arith

-- The layer after its last re-sync.
abbrev given_up : DataLink → DataLink
given_up d = record (resync (record d { state = error })).0 { state = error; error_flag = false }

round-resync :
    (env : Env) (d : DataLink)
    → d.state ≡ error
    → d.resynced ≡ false
    → round env failure [] no_fields d
      ≡ stop_with
          (record (resync d).0 { state = error; error_flag = false })
          no_fields
          (transmit (resync d).1 ∷ [])
unfolding round dispatch on_failure
round-resync env d st synced = ground arith

resync_bytes :
    (d : DataLink) → header_size ≤ length d.rx_frame → (resync d).1 ≡ control_frame seqctr_resync 0
unfolding resync send_internal
resync_bytes d room = take-seal_in (control_fctr seqctr_resync 0) 0 d.rx_frame room

reports :
    (env : Env) (event : Status) (p_data : List ℕ) (d : DataLink)
    → d.state ≡ error
    → d.resynced ≡ true
    → d.error_flag ≡ false
    → handle env event p_data d ≡ some (record d { state = idle }, notify on_error none ∷ [])
unfolding handle round dispatch on_failure
reports env event p_data d st synced clear =
    rounds-stop 3 env event p_data no_fields d
      (stop_with (record d { state = idle }) no_fields (notify on_error none ∷ [])) (ground arith)
      refl

-- Once the time for the exchange is up, a failure with no re-sync pending is not followed by
-- another repetition: the layer sends a re-sync, with its frame numbers reset, and at the next
-- event, whatever it is, reports the error to the transport layer and is idle.
pub gives_up :
    (env later : Env) (event : Status) (p_data : List ℕ) (d : DataLink)
    → (d.state ≡ tx) ⊎ (d.state ≡ rx)
    → d.resynced ≡ false
    → exit_timeout ≤ sub32 env.now env.api_start_time
    → header_size ≤ length d.rx_frame
    → (mid : DataLink) × (after : DataLink) × (handle env failure [] d
        ≡ some (mid, transmit (control_frame seqctr_resync 0) ∷ []))
      × (handle later event p_data mid ≡ some (after, notify on_error none ∷ []))
      × (after.state ≡ idle)
      × (after.tx_seq_nr ≡ max_frame_nr)
      × (after.rx_seq_nr ≡ max_frame_nr)
unfolding handle resync send_internal
gives_up env later event p_data d waits synced late room =
    let failing : DataLink = record d { state = error } in
    let mid = given_up d in
    (
      mid,
      record mid { state = idle },
      rounds-more 3 env failure [] no_fields d (continue_in d no_fields resend)
            (round-failed env d waits) refl
          ∙ ap (prepend []) (
              rounds-more 2 env failure [] no_fields (record d { state = resend })
                (continue_in d no_fields error)
                (round-late env (record d { state = resend }) late refl) refl
              ∙ ap (prepend []) (
                  rounds-stop 1 env failure [] no_fields failing
                    (stop_with mid no_fields (transmit (resync failing).1 ∷ []))
                    (round-resync env failing refl synced) refl))
          ∙ ap (λ (b : List ℕ). some (mid, transmit b ∷ [])) (resync_bytes failing room),
      reports later event p_data mid refl refl refl,
      refl,
      refl,
      refl,
    )
