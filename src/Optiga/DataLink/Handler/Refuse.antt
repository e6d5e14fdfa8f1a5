-- ===== src/Optiga/DataLink/Handler/Refuse.antt =====
-- Frames that are not taken in.
use decada_embedded_example.Base.{
  ℕ, ◌+◌, ◌^◌, ◌≤◌, ◌<◌, ◌≡◌, ◌≢◌, refl, ap, sym, ◌∙◌, List, [], ◌∷◌, ◌++◌, false, ◌⊎◌, inl, inr,
  some, arith, length,
}
use decada_embedded_example.Base.Word.{u8, ◌>>>◌}
use decada_embedded_example.Optiga.DataLink.Crc.{calc_crc}
use decada_embedded_example.Optiga.DataLink.Frame.{
  Fields, no_fields, next_nr, header_size, analyse, data_fctr, seqctr_ack,
}
use decada_embedded_example.Optiga.DataLink.Frame.Layout.{layout, analyse-sum}
use decada_embedded_example.Optiga.DataLink.Machine.{
  State, discard, rx, ack, rx_df, rx_cf, success, DataLink, Env, Output, transmit, listen,
  send_internal, resend_frame, resend_or_resync, resync,
}
use decada_embedded_example.Optiga.DataLink.Handler.{
  stop_with, stop_sending, dispatch, round, handle, on_resend, override, on_data_frame,
}
use decada_embedded_example.Optiga.DataLink.Handler.Total.{rounds-stop, rounds_rule}
use decada_embedded_example.Optiga.DataLink.Handler.Exchange.{
  control_frame, send_ack, length-layout,
}
use decada_embedded_example.Optiga.DataLink.Handler.Receive.{
  calc_crc-lt, analyse-data, handle-data_frame,
}
use decada_embedded_example.Optiga.DataLink.Crc.Detection.{
  IsBytes, IsBytes-append, calc_crc-detects_burst,
}

-- Where a data frame whose checksum is wrong can lead from round to round.
abbrev Spoiled : Fields → DataLink → Type 0
Spoiled f d =
    (d.state ≢ ack) × ((d.state ≡ rx_df) ⊎ (d.state ≡ rx_cf) → f.crc_received ≢ f.crc_calculated)

module _ (env : Env) (p_data : List ℕ)
    (wrong : (analyse p_data).crc_received ≢ (analyse p_data).crc_calculated) where
  resend_frame-not_ack : (d : DataLink) → (resend_frame env d seqctr_ack).0.state ≢ ack
  unfolding resend_frame resend_or_resync resync send_internal
  resend_frame-not_ack d h = ground arith

  dispatch-Spoiled :
      (s : State) (f : Fields) (d : DataLink)
      → d.state ≡ s
      → Spoiled f d
      → Spoiled (dispatch s env success p_data f d).fields (dispatch s env success p_data f d).link
  unfolding dispatch on_resend resend_frame resend_or_resync resync send_internal
  dispatch-Spoiled rx f d st (p, q) = (λ h. ground arith, λ h. ground arith)
  dispatch-Spoiled ack f d st (p, q) = absurd (p st)
  dispatch-Spoiled _ f d st (p, q) = (λ h. ground arith, λ h. ground arith)

  override-Spoiled : (f : Fields) (d : DataLink) → Spoiled f d → Spoiled f (override success d)
  override-Spoiled f d s = s

  -- A frame whose checksum does not agree is never taken in: whatever the handler does on it, it
  -- does not come to acknowledge it.
  pub wrong_crc_refused :
      (d : DataLink) (e : DataLink × List Output)
      → d.state ≡ rx
      → handle env success p_data d ≡ some e
      → e.0.state ≢ ack
  unfolding handle round
  wrong_crc_refused d e st h =
      rounds_rule Spoiled (λ d'. d'.state ≢ ack) env success p_data
        (λ f d' s more. dispatch-Spoiled d'.state f d' refl s)
        (λ f d' s stop. (dispatch-Spoiled d'.state f d' refl s).0) 4 no_fields d e
        ((λ a. ground arith), λ o. ground arith) h

-- If the layer waits in the receive state and two neighbouring bytes of a frame are altered on the
-- way, control byte and length included, and its checksum is not, then the frame is not taken in:
-- the handler does not end in the state that follows an accepted frame.
pub burst_refused :
    (env : Env) (link : DataLink) (e : DataLink × List Output) (pre post : List ℕ) (a b c d : ℕ)
    → IsBytes pre
    → IsBytes post
    → IsBytes (a ∷ b ∷ c ∷ d ∷ [])
    → (a ≢ c) ⊎ (b ≢ d)
    → link.state ≡ rx
    → let crc = calc_crc (pre ++ (a ∷ b ∷ post)) in
      handle env success ((pre ++ (c ∷ d ∷ post)) ++ (u8 (crc >>> 8) ∷ u8 crc ∷ [])) link ≡ some e
      → e.0.state ≢ ack
burst_refused env link e pre post a b c d hpre hpost h altered st run =
    let crc = calc_crc (pre ++ (a ∷ b ∷ post)) in
    let body = pre ++ (c ∷ d ∷ post) in
    let (read, computed) = analyse-sum body crc (
      calc_crc-lt (pre ++ (a ∷ b ∷ post))
        (IsBytes-append pre (a ∷ b ∷ post) hpre (h.0, (h.1.0, hpost)))) in
    wrong_crc_refused env (body ++ (u8 (crc >>> 8) ∷ u8 crc ∷ []))
      (λ same.
        differs altered
          (calc_crc-detects_burst pre post a b c d hpre hpost h (sym read ∙ same ∙ computed)))
      link e st run
  where
    differs : (a ≢ c) ⊎ (b ≢ d) → (a ≡ c) × (b ≡ d) → ⊥
    differs (inl p) q = p q.0
    differs (inr p) q = p q.1

on_data_frame-other :
    (d : DataLink) (f : Fields) (p_data : List ℕ)
    → f.crc_received ≡ f.crc_calculated
    → f.packet_len ≢ 0
    → length p_data ≡ header_size + f.packet_len
    → f.seqctr < 2
    → f.fr_nr ≢ next_nr d.rx_seq_nr
    → on_data_frame d f p_data ≡ stop_sending (record d { state = discard }) f seqctr_ack
unfolding on_data_frame
on_data_frame-other d f p_data c l s q n = ground arith

-- A sound data frame out of sequence that reaches a layer in the receive state, such as one that
-- the sender repeats because the ACK was lost, is answered with the ACK of the last frame taken
-- in; nothing is stored or handed on, and at the next successful event the layer listens again.
pub out_of_sequence :
    (env later : Env) (d : DataLink) (seqctr ack_nr fr_nr : ℕ) (payload : List ℕ)
    → d.state ≡ rx
    → seqctr < 2
    → ack_nr < 4
    → fr_nr < 4
    → fr_nr ≢ next_nr d.rx_seq_nr
    → IsBytes payload
    → length payload ≢ 0
    → length payload < 2 ^ 16
    → header_size ≤ length d.tx_frame
    → (mid : DataLink) × (after : DataLink) × (handle env success
          (layout (data_fctr seqctr ack_nr fr_nr) payload)
          d
        ≡ some (mid, transmit (control_frame seqctr_ack d.rx_seq_nr) ∷ []))
      × (handle later success [] mid ≡ some (after, listen ∷ []))
      × (after.state ≡ rx)
      × (after.rx_seq_nr ≡ d.rx_seq_nr)
      × (after.tx_seq_nr ≡ d.tx_seq_nr)
      × (after.rx_frame ≡ d.rx_frame)
unfolding handle round dispatch send_internal
out_of_sequence env later d s a n payload st hs ha hn other bytes filled small room =
    let frame = layout (data_fctr s a n) payload in
    let reading : DataLink = record d { state = rx_df } in
    let dropped : DataLink = record d { state = discard } in
    let f = analyse frame in
    let read = analyse-data s a n payload (omega arith) ha hn bytes small in
    let size = length-layout (data_fctr s a n) payload in
    let mid = (send_internal dropped 0 seqctr_ack false).0 in
    let answers : on_data_frame reading f frame ≡ stop_sending dropped f seqctr_ack =
      on_data_frame-other reading f frame (rw read) (rw read filled) (rw read size) (rw read hs)
        (rw read other) in
    (
      mid,
      record mid { state = rx },
      handle-data_frame env frame d (stop_sending dropped f seqctr_ack) st (omega arith) (rw read)
            answers refl
          ∙ ap (λ (b : List ℕ). some (mid, transmit b ∷ [])) (send_ack dropped room),
      rounds-stop 3 later success [] no_fields mid
          (stop_with (record mid { state = rx }) no_fields (listen ∷ [])) refl refl,
      refl,
      refl,
      refl,
      refl,
    )
