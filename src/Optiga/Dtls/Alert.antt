-- ===== src/Optiga/Dtls/Alert.antt =====
-- lib/optiga/dtls/AlertProtocol.c: alerts for errors, and errors for received alerts.
pub mod Sending
mod Tests
use decada_embedded_example.Base.{
  ℕ, suc, ◌+◌, ◌-◌, ◌^◌, ◌<◌, ◌≡◌, refl, sym, ap, subst, ◌∙◌, List, [], ◌∷◌, ◌++◌, length, Bool,
  true, false, not, ◌&&◌, ◌||◌, Option, none, some, ltb, ◌==◌, Bool-cases, inl, inr, if◌then◌else◌,
  arith,
}
use decada_embedded_example.Base.Word.{u16, sub16}
use decada_embedded_example.Optiga.Util.Uint64.{Uint64}
use decada_embedded_example.Optiga.Dtls.Record.{
  RecordLayer, RecordStatus, transport_error, handed_over, rl_ok, rl_error, invalid_record_length,
  sequence_overflow, header, cipher_error, Ciphered, ciphered, not_ciphered, enc_dec_enabled,
  alert_record, send, prepare_record, moved_on, number_now, counted, changed, is_enabled,
  retransmitted,
}

-- The error codes that the mapping tells apart: OCP_RL_ERROR, OCP_FL_MSG_MAXCOUNT, CMD_DEV_ERROR with the
-- device's code, OCP_FL_HS_ERROR, OCP_FL_INT_ERROR, OCP_LIB_NO_RENEGOTIATE, and the others.
pub data Cause : Type 0 where
  record_error msg_maxcount hs_error int_error no_renegotiate other_error : Cause
  device_error : ℕ → Cause

-- eWARNING and eFATAL
abbrev pub warning : ℕ
warning = 0x01

abbrev pub fatal : ℕ
fatal = 0x02

abbrev pub level_of : Cause → ℕ
level_of no_renegotiate = warning
level_of other = fatal

-- The device's codes.
abbrev pub device_alert : ℕ → ℕ
device_alert code =
    if code == 0x21 || code == 0x25 || code == 0x22
    then 0x2f
    else if code == 0x23
    then 0x47
    else if code == 0x24
    then 0x6e
    else if code == 0x26
    then 0x30
    else if code == 0x27
    then 0x2d
    else if code == 0x28
    then 0x2b
    else if code == 0x29
    then 0x2a
    else if code == 0x2a
    then 0x2b
    else if code == 0x2b
    then 0x2d
    else if code == 0x2c
    then 0x33
    else 0x50

abbrev pub alert_of : Cause → ℕ
alert_of record_error = 0x00
alert_of msg_maxcount = 0x00
alert_of hs_error = 0x2f
alert_of int_error = 0x50
alert_of no_renegotiate = 0x64
alert_of other_error = 0x50
alert_of (device_error code) = device_alert code

-- `DtlsErrorAlertMapping` and `Alert_FormMsg`
unfoldable pub form_message : Cause → List ℕ
form_message cause = level_of cause ∷ alert_of cause ∷ []

-- OCP_AL_ERROR, or OCP_AL_OK with OCP_AL_FATAL_ERROR or OCP_AL_WARNING_ERROR.
pub data Received : Type 0 where
  al_error fatal_error warning_error : Received

abbrev pub is_in : ℕ → List ℕ → Bool
is_in x [] = false
is_in x (y ∷ ys) = x == y || is_in x ys

abbrev pub fatal_alerts : List ℕ
fatal_alerts =
    0x00 ∷ 0x0a ∷ 0x14 ∷ 0x15 ∷ 0x16 ∷ 0x1e ∷ 0x28 ∷ 0x2a ∷ 0x2b ∷ 0x29 ∷ 0x2c ∷ 0x2d ∷ 0x2e ∷ 0x5a
    ∷ 0x64 ∷ 0x2f ∷ 0x30 ∷ 0x31 ∷ 0x32 ∷ 0x33 ∷ 0x3c ∷ 0x46 ∷ 0x47 ∷ 0x50 ∷ 0x6e ∷ []

abbrev pub warning_alerts : List ℕ
warning_alerts = 0x2a ∷ 0x2b ∷ 0x2c ∷ 0x2d ∷ 0x2e ∷ 0x5a ∷ 0x64 ∷ []

-- `DtlsAlertErrorMapping`
unfoldable pub alert_error : ℕ → ℕ → Received
alert_error level alert =
    if level == fatal
    then (if is_in alert fatal_alerts then fatal_error else al_error)
    else if level == warning
    then (if is_in alert warning_alerts then warning_error else al_error)
    else al_error

-- `Alert_ProcessMsg`
unfoldable pub process_message : List ℕ → Received
process_message (level ∷ alert ∷ []) = alert_error level alert
process_message other = al_error

abbrev pub expected_error : Cause → Received
expected_error no_renegotiate = warning_error
expected_error other = fatal_error

device_alert-known : (code : ℕ) → is_in (device_alert code) fatal_alerts ≡ true
device_alert-known code = ground arith

-- Every alert that is formed for an error is understood where it is received: as a warning if it
-- refuses a renegotiation, and as fatal otherwise.
pub process_message-form_message :
    (cause : Cause) → process_message (form_message cause) ≡ expected_error cause
unfolding process_message form_message alert_error
process_message-form_message record_error = refl
process_message-form_message msg_maxcount = refl
process_message-form_message hs_error = refl
process_message-form_message int_error = refl
process_message-form_message no_renegotiate = refl
process_message-form_message other_error = refl
process_message-form_message (device_error code) = rw (device_alert-known code) refl

abbrev pub is_lowering : Cause → Bool
is_lowering int_error = true
is_lowering hs_error = true
is_lowering other = false

-- The alert goes in the epoch before, and not encrypted, while the change to the next epoch is under way.
abbrev pub goes_before : RecordLayer → Cause → Bool
goes_before rl cause =
    ((not (rl.server_epoch == rl.client_next_epoch) && not (rl.dec == 1)) || is_lowering cause)
    && (rl.enc_dec_flag == enc_dec_enabled && not (rl.client_epoch == rl.client_next_epoch))

-- ENC_DEC_DISABLED
abbrev pub enc_dec_disabled : ℕ
enc_dec_disabled = 0x6a

-- `Alert_Send`, with what `DtlsRL_Send` gets: the layer after it, and the record that is handed over.
unfoldable pub send_alert :
    (List ℕ → Ciphered)
    → (List ℕ → Option ℕ)
    → Bool
    → RecordLayer
    → Bool
    → Cause
    → RecordLayer × Option (List ℕ)
send_alert encrypt transport heap rl retransmit cause =
    let before = record rl {
      enc_dec_flag = enc_dec_disabled;
      client_next_epoch = sub16 rl.client_next_epoch 1;
    } in
    let lowered = goes_before rl cause in
    let (status, after, sent) =
      send encrypt transport heap (if lowered then before else rl) retransmit false alert_record
        (form_message cause) in
    (
      if lowered
          then record after {
            enc_dec_flag = rl.enc_dec_flag;
            client_next_epoch = u16 (after.client_next_epoch + 1);
          }
          else after,
      sent,
    )
