-- ===== src/Optiga/Dtls/Alert/Sending.antt =====
-- The state of the record layer while an alert is sent.
use decada_embedded_example.Base.{
  ℕ, ◌+◌, ◌^◌, ◌<◌, ◌≡◌, refl, sym, subst, List, [], ◌++◌, length, Bool, true, false, ◌&&◌, ◌||◌,
  Option, none, some, ltb, ◌==◌, Bool-cases, inl, inr, if◌then◌else◌, arith,
}
use decada_embedded_example.Base.Word.{u16, sub16}
use decada_embedded_example.Optiga.Dtls.Record.{
  RecordLayer, RecordStatus, transport_error, handed_over, rl_ok, rl_error, invalid_record_length,
  sequence_overflow, header, cipher_error, Ciphered, ciphered, not_ciphered, enc_dec_enabled,
  alert_record, rl_header_len, send, prepare_record, moved_on, number_now, counted, is_enabled,
}
use decada_embedded_example.Optiga.Dtls.Alert.{
  Cause, form_message, goes_before, enc_dec_disabled, send_alert,
}

-- The epoch and the flag of a layer, which only a change of the cipher moves on.
pub record Same (a b : RecordLayer) : Type 0 where
  pub next_epoch : a.client_next_epoch ≡ b.client_next_epoch
  pub flag : a.enc_dec_flag ≡ b.enc_dec_flag

counted-Same : (next : Bool) (rl : RecordLayer) → Same (counted next rl) rl
counted-Same true rl = record { next_epoch = refl; flag = refl }
counted-Same false rl = record { next_epoch = refl; flag = refl }

chosen :
    (rl : RecordLayer) (b : Bool) (x y : RecordStatus × RecordLayer × List ℕ)
    → Same (x.1) rl
    → Same (y.1) rl
    → Same ((if b then x else y).1) rl
chosen rl true x y p q = p
chosen rl false x y p q = q

abbrev by_cipher : RecordLayer → Ciphered → RecordStatus × RecordLayer × List ℕ
by_cipher rl (ciphered bytes) = (rl_ok, counted (moved_on rl) rl, bytes)
by_cipher rl (not_ciphered status) = (cipher_error status, rl, [])

by_cipher-Same : (rl : RecordLayer) (c : Ciphered) → Same ((by_cipher rl c).1) rl
by_cipher-Same rl (ciphered bytes) = counted-Same (moved_on rl) rl
by_cipher-Same rl (not_ciphered status) = record { next_epoch = refl; flag = refl }

prepared-Same :
    (encrypt : List ℕ → Ciphered) (rl : RecordLayer) (bytes : List ℕ) (room : ℕ)
    → Same ((prepare_record encrypt rl alert_record bytes room).1) rl
unfolding prepare_record
prepared-Same encrypt rl bytes room =
    let same : Same rl rl = record { next_epoch = refl; flag = refl } in
    let number = number_now rl in
    let plain =
      header alert_record rl.tls_version rl.client_next_epoch number (length bytes) ++ bytes in
    let clear : RecordStatus × RecordLayer × List ℕ = (rl_ok, counted (moved_on rl) rl, plain) in
    let secret = by_cipher rl (encrypt plain) in
    let refused : RecordStatus → RecordStatus × RecordLayer × List ℕ = λ status. (status, rl, []) in
    let r4 = if is_enabled rl then secret else clear in
    let r3 =
      if number.higher == 0x10000 && number.lower == 0 then refused sequence_overflow else r4 in
    let r2 = if ltb room 11 then refused rl_error else r3 in
    let r1 = if ltb rl.client_next_epoch rl.client_epoch then refused rl_error else r2 in
    chosen rl (room == 0 || length bytes == 0) (refused invalid_record_length) r1 same (
      chosen rl (ltb rl.client_next_epoch rl.client_epoch) (refused rl_error) r2 same (
        chosen rl (ltb room 11) (refused rl_error) r3 same (
          chosen rl (number.higher == 0x10000 && number.lower == 0) (refused sequence_overflow) r4
            same
            (chosen rl (is_enabled rl) secret clear (by_cipher-Same rl (encrypt plain))
              (counted-Same (moved_on rl) rl)))))

given_out :
    (o : Option ℕ) (after : RecordLayer) (sent : List ℕ)
    → (elim o as (λ o. RecordStatus × RecordLayer × Option (List ℕ)) [
      | none ↦ (rl_ok, after, some sent)
      | some error ↦ (transport_error error, after, some sent)
    ]).1
      ≡ after
given_out none after sent = refl
given_out (some error) after sent = refl

handed_over-layer :
    (transport : List ℕ → Option ℕ) (status : RecordStatus) (after : RecordLayer) (sent : List ℕ)
    → (handed_over transport status after sent).1 ≡ after
handed_over-layer transport rl_ok after sent = given_out (transport sent) after sent
handed_over-layer transport other after sent = refl

sent-Same :
    (encrypt : List ℕ → Ciphered) (transport : List ℕ → Option ℕ) (heap : Bool) (rl : RecordLayer)
    (bytes : List ℕ)
    → Same ((send encrypt transport heap rl false false alert_record bytes).1) rl
unfolding send
sent-Same encrypt transport false rl bytes = record { next_epoch = refl; flag = refl }
sent-Same encrypt transport true rl bytes =
    let room =
      if rl.enc_dec_flag == enc_dec_enabled
      then u16 (length bytes + rl_header_len + 16 + 19)
      else u16 (length bytes + rl_header_len) in
    let r = prepare_record encrypt rl alert_record bytes room in
    subst (λ l. Same l rl) (sym (handed_over-layer transport (r.0) (r.1) (r.2)))
      (prepared-Same encrypt rl bytes room)

-- The epochs of a layer are words. An alert that is sent, whatever its cause and whatever becomes of it, leaves
-- the layer's epoch and its flag for encryption as they were, when no flight is sent again.
pub send_alert-Same :
    (encrypt : List ℕ → Ciphered) (transport : List ℕ → Option ℕ) (heap : Bool) (rl : RecordLayer)
    (cause : Cause)
    → rl.client_next_epoch < 2 ^ 16
    → Same ((send_alert encrypt transport heap rl false cause).0) rl
unfolding send_alert
send_alert-Same encrypt transport heap rl cause word =
    let before = record rl {
      enc_dec_flag = enc_dec_disabled;
      client_next_epoch = sub16 rl.client_next_epoch 1;
    } in
    elim (Bool-cases (goes_before rl cause)) [
      | inl lowered ↦
          let kept = sent-Same encrypt transport heap before (form_message cause) in
          rw (send_alert, lowered)
            (record { next_epoch = omega (arith, kept.next_epoch); flag = refl })
      | inr straight ↦
          rw (send_alert, straight) (sent-Same encrypt transport heap rl (form_message cause))
    ]
