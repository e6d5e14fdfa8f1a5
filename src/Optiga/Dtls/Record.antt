-- ===== src/Optiga/Dtls/Record.antt =====
-- The record layer of lib/optiga/dtls/DtlsRecordLayer.c: records are prepared and sent, and the records of
-- a datagram are counted and processed.
pub mod Header
pub mod RoundTrip
pub mod Receive
pub mod Fresh
mod Tests
use decada_embedded_example.Base.{
  ℕ, zero, suc, ◌+◌, ◌-◌, List, [], ◌∷◌, ◌++◌, Bool, true, false, not, ◌&&◌, ◌||◌, Option, none,
  some, bit_and, length, take, drop, get_or, ltb, ◌==◌, if◌then◌else◌,
}
use decada_embedded_example.Base.Word.{u8, u16, sub16, ◌>>>◌}
use decada_embedded_example.Optiga.Util.Uint64.{Uint64, increment_uint64}
use decada_embedded_example.Optiga.Util.Bytes.{get_uint16}

-- OCP_RL_OK and the errors; `cipher_error` and `transport_error` are statuses of the encryption and of the
-- transport layer, which are handed on.
pub data RecordStatus : Type 0 where
  rl_ok rl_error invalid_record_length invalid_protocol_version bad_record : RecordStatus
  invalid_dec_payload_len rl_malloc_failure sequence_overflow : RecordStatus
  cipher_error transport_error : ℕ → RecordStatus

-- What `fEncDecRecord` makes of a record: the record with the other fragment, or its status.
pub data Ciphered : Type 0 where
  ciphered : List ℕ → Ciphered
  not_ciphered : ℕ → Ciphered

-- `sRecordLayer_d`, without the windows and the callback.
pub record RecordLayer : Type 0 where
  pub server_epoch : ℕ
  pub tls_version : ℕ
  pub client_epoch : ℕ
  pub client_next_epoch : ℕ
  pub client_seq_number : Uint64
  pub client_next_seq_number : Uint64
  pub enc_dec_flag : ℕ
  pub dec : ℕ
  pub recv_ccs_record : ℕ

-- ENC_DEC_ENABLED, LENGTH_RL_HEADER, MIN_DEC_PAYLOAD and the content types.
abbrev pub enc_dec_enabled : ℕ
enc_dec_enabled = 0xb5

abbrev pub rl_header_len : ℕ
rl_header_len = 13

abbrev pub min_dec_payload : ℕ
min_dec_payload = 17

abbrev pub cipher_spec : ℕ
cipher_spec = 0x14

abbrev pub alert_record : ℕ
alert_record = 0x15

abbrev pub handshake_record : ℕ
handshake_record = 0x16

abbrev pub app_data : ℕ
app_data = 0x17

abbrev pub is_enabled : RecordLayer → Bool
is_enabled rl = bit_and enc_dec_enabled rl.enc_dec_flag == enc_dec_enabled

abbrev pub word_bytes : ℕ → List ℕ
word_bytes n = u8 (n >>> 8) ∷ u8 n ∷ []

-- The header of a record: type, version, epoch, number, and the length of the fragment.
abbrev pub header : ℕ → ℕ → ℕ → Uint64 → ℕ → List ℕ
header content version epoch number len =
    content
    ∷ u8 (version >>> 8)
    ∷ u8 version
    ∷ u8 (epoch >>> 8)
    ∷ u8 epoch
    ∷ u8 (u16 number.higher >>> 8)
    ∷ u8 (u16 number.higher)
    ∷ u8 (number.lower >>> 24)
    ∷ u8 (number.lower >>> 16)
    ∷ u8 (number.lower >>> 8)
    ∷ u8 number.lower
    ∷ u8 (len >>> 8)
    ∷ u8 len
    ∷ []

-- The client has moved on to the next epoch.
abbrev pub moved_on : RecordLayer → Bool
moved_on rl = ltb rl.client_epoch rl.client_next_epoch

abbrev pub number_now : RecordLayer → Uint64
number_now rl = if moved_on rl then rl.client_next_seq_number else rl.client_seq_number

-- The number of the epoch `next` or the other one is counted up.
abbrev pub counted : Bool → RecordLayer → RecordLayer
counted true rl = record rl { client_next_seq_number = increment_uint64 rl.client_next_seq_number }
counted false rl = record rl { client_seq_number = increment_uint64 rl.client_seq_number }

-- A change of the cipher is on its way: the next epoch begins.
abbrev pub changed : ℕ → RecordLayer → RecordLayer
changed content rl =
    if content == cipher_spec
    then record rl {
      client_next_epoch = u16 (rl.client_next_epoch + 1);
      enc_dec_flag = enc_dec_enabled;
    }
    else rl

-- `DtlsRL_Record_PrepareRecord` with the type, the data and wLen of the buffer: the status, and the
-- record, or nothing. The buffer has room for the record, as its callers see to.
unfoldable pub prepare_record :
    (List ℕ → Ciphered) → RecordLayer → ℕ → List ℕ → ℕ → RecordStatus × RecordLayer × List ℕ
prepare_record encrypt rl content bytes room =
    let number = number_now rl in
    let plain = header content rl.tls_version rl.client_next_epoch number (length bytes) ++ bytes in
    if room == 0 || length bytes == 0
    then (invalid_record_length, rl, [])
    else if ltb rl.client_next_epoch rl.client_epoch
    then (rl_error, rl, [])
    else if ltb room 11
    then (rl_error, rl, [])
    else if number.higher == 0x10000 && number.lower == 0
    then (sequence_overflow, rl, [])
    else if is_enabled rl
    then (elim (encrypt plain) [
      | ciphered bytes ↦ (rl_ok, counted (moved_on rl) rl, bytes)
      | not_ciphered status ↦ (cipher_error status, rl, [])
    ])
    else (rl_ok, counted (moved_on rl) (changed content rl), plain)

-- What `DtlsRL_Record_ProcessRecord` writes: the type and the data of the record.
pub record Processed : Type 0 where
  pub status : RecordStatus
  pub layer : RecordLayer
  pub content : ℕ
  pub bytes : List ℕ

-- `DtlsRL_Record_ProcessRecord` with the expected type and the room for the data; the flag is whether
-- there is memory to decrypt.
unfoldable pub process_record :
    (List ℕ → Ciphered) → Bool → RecordLayer → ℕ → ℕ → List ℕ → Processed
process_record decrypt heap rl expected room bytes =
    let content = get_or bytes 0 0 in
    let epoch = get_uint16 bytes 3 in
    let len = get_uint16 bytes 11 in
    let reset = record rl { dec = 0 } in
    let fragment = take len (drop rl_header_len bytes) in
    let failed : RecordStatus → RecordLayer → Processed =
      λ status layer. record { status = status; layer = layer; content = expected; bytes = [] } in
    if length bytes == 0 || room == 0
    then failed invalid_record_length rl
    else if not (rl.tls_version == get_uint16 bytes 1)
    then failed invalid_protocol_version rl
    else if ltb (length bytes) (len + rl_header_len)
    then failed bad_record reset
    else if content == cipher_spec
    then (if not (len == 1)
          || not (rl.client_next_epoch == rl.server_epoch + 1)
          || not (epoch == 0)
          || not (expected == handshake_record)
        then failed bad_record reset
        else record {
          status = rl_ok;
          layer = record reset { recv_ccs_record = 1 };
          content = content;
          bytes = fragment;
        })
    else if expected == handshake_record && content == app_data
    then failed bad_record reset
    else if is_enabled rl && epoch == rl.client_next_epoch
    then (if ltb len min_dec_payload
        then failed invalid_dec_payload_len reset
        else if not heap
        then failed rl_malloc_failure reset
        else elim (decrypt bytes) [
          | ciphered plain ↦ record {
            status = rl_ok;
            layer = record reset { dec = 1 };
            content = content;
            bytes = drop rl_header_len plain;
          }
          | not_ciphered status ↦ failed (cipher_error status) reset
        ])
    else record { status = rl_ok; layer = reset; content = content; bytes = fragment }

abbrev pub is_content : ℕ → Bool
is_content c = c == cipher_spec || c == alert_record || c == handshake_record || c == app_data

-- The loop of `DtlsRL_GetRecordCount`, with fuel, and the count so far.
unfoldable pub count_records : ℕ → List ℕ → ℕ → ℕ
count_records zero bytes n = n
count_records (suc fuel) bytes n =
    let len = get_uint16 bytes 11 in
    let rest = count_records fuel (drop (len + rl_header_len) bytes) (u8 (n + 1)) in
    if not (ltb rl_header_len (length bytes))
    then n
    else if not (is_content (get_or bytes 0 0))
    then n
    else if ltb (length bytes) (len + rl_header_len)
    then n
    else rest

-- `DtlsRL_GetRecordCount`; `none` is OCP_RL_ERROR.
unfoldable pub record_count : List ℕ → Option ℕ
record_count bytes = let n = count_records (length bytes) bytes 0 in if n == 0 then none else some n

-- A flight that is sent again goes back to the epoch before.
abbrev pub retransmitted : Bool → RecordLayer → RecordLayer
retransmitted true rl = record rl {
  client_next_epoch = sub16 rl.client_next_epoch 1;
  enc_dec_flag = 0;
}
retransmitted false rl = rl

-- What was prepared goes to the transport layer.
abbrev pub handed_over :
    (List ℕ → Option ℕ)
    → RecordStatus
    → RecordLayer
    → List ℕ
    → RecordStatus × RecordLayer × Option (List ℕ)
handed_over transport rl_ok after sent = elim (transport sent) [
  | none ↦ (rl_ok, after, some sent)
  | some error ↦ (transport_error error, after, some sent)
]
handed_over transport error after sent = (error, after, none)

-- `DtlsRL_Send` with fRetransmit, which is FALSE after it, bMemoryAllocated, the type and the data;
-- `transport` is pfSend, which gives an error or nothing. With bMemoryAllocated the data stands behind the
-- room for its header. In the last component is the record that is handed to the transport layer.
unfoldable pub send :
    (List ℕ → Ciphered)
    → (List ℕ → Option ℕ)
    → Bool
    → RecordLayer
    → Bool
    → Bool
    → ℕ
    → List ℕ
    → RecordStatus × RecordLayer × Option (List ℕ)
send encrypt transport heap rl retransmit allocated content bytes =
    let now = retransmitted retransmit rl in
    let enabled = now.enc_dec_flag == enc_dec_enabled in
    let given = if allocated then length bytes + rl_header_len else length bytes in
    let room =
      if enabled
      then u16 (given + rl_header_len + 16 + 19)
      else u16 (length bytes + rl_header_len) in
    let (status, after, sent) = prepare_record encrypt now content bytes room in
    if (not allocated || enabled) && not heap
    then (rl_malloc_failure, now, none)
    else handed_over transport status after sent
