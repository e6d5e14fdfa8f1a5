-- ===== src/Optiga/Dtls/Alert/Tests.antt =====
-- Alerts with concrete causes.
use decada_embedded_example.Base.{◌≡◌, none, true, false, arith}
use decada_embedded_example.Optiga.Dtls.Record.{RecordLayer, ciphered}
use decada_embedded_example.Optiga.Dtls.Alert.{
  device_error, hs_error, fatal_error, process_message, form_message, process_message-form_message,
  send_alert,
}
use decada_embedded_example.Optiga.Dtls.Alert.Sending.{Same, send_alert-Same}

process_message-form_message_example :
    process_message (form_message (device_error 0x2c)) ≡ fatal_error
process_message-form_message_example = process_message-form_message (device_error 0x2c)

-- A handshake that fails while the client has moved on to the next epoch.
abbrev changing : RecordLayer
changing = record {
  server_epoch = 0;
  tls_version = 0xfefd;
  client_epoch = 0;
  client_next_epoch = 1;
  client_seq_number = record { higher = 0; lower = 7 };
  client_next_seq_number = record { higher = 0; lower = 2 };
  enc_dec_flag = 0xb5;
  dec = 0;
  recv_ccs_record = 0;
}

send_alert-Same_example :
    Same
      ((send_alert (λ bytes. ciphered bytes) (λ bytes. none) true changing false hs_error).0)
      changing
send_alert-Same_example =
    send_alert-Same (λ bytes. ciphered bytes) (λ bytes. none) true changing hs_error (omega arith)
