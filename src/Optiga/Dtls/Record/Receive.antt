-- ===== src/Optiga/Dtls/Record/Receive.antt =====
-- `DtlsRL_Recv`: the records of a datagram, one in each call, against the windows of two epochs.
use decada_embedded_example.Base.{
  ℕ, ◌+◌, ◌-◌, List, [], Bool, not, ◌&&◌, ◌||◌, none, some, length, take, drop, ltb, ◌==◌,
  if◌then◌else◌,
}
use decada_embedded_example.Base.Word.{u16}
use decada_embedded_example.Optiga.Util.Uint64.{Uint64}
use decada_embedded_example.Optiga.Util.Bytes.{get_uint16, get_uint32}
use decada_embedded_example.Optiga.Dtls.Windowing.{
  Window, Verdict, validated, decrypt_failure, malloc_failure, rejected, Outcome, ignored,
  decrypt_failed, malloc_failed, check_replay,
}
use decada_embedded_example.Optiga.Dtls.Windowing.Refine.{is_accepted}
use decada_embedded_example.Optiga.Dtls.Record.{
  RecordLayer, RecordStatus, rl_ok, rl_error, invalid_record_length, rl_malloc_failure,
  cipher_error, Ciphered, Processed, process_record, record_count, alert_record, app_data,
  rl_header_len,
}

-- `sRecordLayer_d` with its windows, and of `sRL_d` the expected type, the number of records that are
-- left of a datagram, and their bytes. They stay in the caller's buffer, behind the data of the records before.
pub record Receiver : Type 0 where
  pub layer : RecordLayer
  pub window : Window
  pub next_window : Window
  pub expected : ℕ
  pub multiple_record : ℕ
  pub next_record : List ℕ

-- What `pfRecv` of the transport layer gives.
pub data Incoming : Type 0 where
  nothing_came : Incoming
  failed_with : ℕ → Incoming
  came : List ℕ → Incoming

-- OCP_RL_NO_DATA, a status of the transport layer, OCP_RL_INCORRECT_EPOCH, another error, and the three
-- ways to take a record in: OCP_RL_OK, OCP_RL_ALERT_RECEIVED and OCP_RL_APPDATA_RECEIVED.
pub data RecvStatus : Type 0 where
  no_data incorrect_epoch : RecvStatus
  tl_error : ℕ → RecvStatus
  recv_failed : RecordStatus → RecvStatus
  record_received alert_received appdata_received : RecvStatus

-- CMD_LIB_DECRYPT_FAILURE
abbrev pub decrypt_failure_status : ℕ
decrypt_failure_status = 0x80001009

-- OCP_RL_MALLOC_FAILURE, which the decryption may return as well.
abbrev pub malloc_failure_status : ℕ
malloc_failure_status = 0x8000090c

-- The largest datagram: MAX_PMTU without UDP_OVERHEAD.
abbrev pub max_datagram : ℕ
max_datagram = 1500 - 28

abbrev pub verdict_of : RecordStatus → Verdict
verdict_of rl_ok = validated
verdict_of rl_malloc_failure = malloc_failure
verdict_of (cipher_error s) =
    if s == decrypt_failure_status
    then decrypt_failure
    else if s == malloc_failure_status
    then malloc_failure
    else rejected
verdict_of other = rejected

-- The bytes of the first record of some.
abbrev pub first_len : List ℕ → ℕ
first_len bytes = u16 (rl_header_len + get_uint16 bytes 11)

abbrev pub advanced : Receiver → ℕ → List ℕ → Receiver
advanced r n bytes = record r { multiple_record = n; next_record = drop (first_len bytes) bytes }

-- The first part: the number of records left with this one, the bytes from this one on, and the room for
-- its data; or an error.
pub data Picked : Type 0 where
  no_record : RecvStatus → Picked
  picked : (n : ℕ) (bytes : List ℕ) (room : ℕ) → Picked

unfoldable pub pick : Receiver → Incoming → ℕ → Picked
pick r incoming room =
    if r.multiple_record == 0
    then elim incoming [
      | nothing_came ↦ no_record no_data
      | failed_with status ↦ no_record (tl_error status)
      | came bytes ↦
          if ltb max_datagram (length bytes)
          then no_record (recv_failed invalid_record_length)
          else elim (record_count bytes) [
            | none ↦ no_record (recv_failed rl_error)
            | some n ↦ picked n bytes (length bytes)
          ]
    ]
    else picked r.multiple_record r.next_record room

abbrev pub epoch_of : List ℕ → ℕ
epoch_of bytes = get_uint16 bytes 3

abbrev pub number_in : List ℕ → Uint64
number_in bytes = record { higher = get_uint16 bytes 5; lower = get_uint32 bytes 7 }

-- The window for an epoch: the current one, the next one, or none.
pub data Place : Type 0 where
  current next_epoch nowhere : Place

unfoldable pub place_of : RecordLayer → ℕ → Place
place_of rl epoch =
    if ltb epoch rl.server_epoch || ltb (rl.server_epoch + 1) epoch
    then nowhere
    else if epoch == rl.server_epoch + 1 && not (rl.client_next_epoch == epoch)
    then nowhere
    else if epoch == rl.client_epoch
    then current
    else if epoch == rl.client_epoch + 1
    then next_epoch
    else nowhere

-- How a record that was taken in is reported.
abbrev pub received_as : ℕ → RecvStatus
received_as content =
    if content == alert_record
    then alert_received
    else if content == app_data
    then appdata_received
    else record_received

-- The status and the data, from the outcome of the check.
abbrev pub reported : Outcome → Processed → RecvStatus × List ℕ
reported decrypt_failed p = (recv_failed (cipher_error decrypt_failure_status), [])
reported malloc_failed p = (recv_failed rl_malloc_failure, [])
reported ignored p = (recv_failed rl_error, [])
reported accepted p = (received_as p.content, p.bytes)

-- The check of a record against a window. The record is processed, and the layer changed by that, only
-- where the window asks for the validation: where it would take a valid record.
unfoldable pub check_record :
    (List ℕ → Ciphered)
    → Bool
    → RecordLayer
    → ℕ
    → ℕ
    → List ℕ
    → Window
    → (RecvStatus × List ℕ) × RecordLayer × Window
check_record decrypt heap rl expected room bytes w =
    let arrived : Window = record w { recv_seq_number = number_in bytes } in
    let p = process_record decrypt heap rl expected room bytes in
    let asked = is_accepted ((check_replay validated arrived).0) in
    let out = check_replay (verdict_of p.status) arrived in
    (reported (out.0) p, if asked then p.layer else rl, out.1)

-- The second part: the check against the window of the record's epoch.
unfoldable pub recv_at :
    (List ℕ → Ciphered) → Bool → Receiver → List ℕ → ℕ → Place → (RecvStatus × List ℕ) × Receiver
recv_at decrypt heap r bytes room current =
    let (out, layer, w) = check_record decrypt heap r.layer r.expected room bytes r.window in
    (out, record r { layer = layer; window = w })
recv_at decrypt heap r bytes room next_epoch =
    let (out, layer, w) = check_record decrypt heap r.layer r.expected room bytes r.next_window in
    (out, record r { layer = layer; next_window = w })
recv_at decrypt heap r bytes room nowhere = ((incorrect_epoch, []), r)

unfoldable pub recv_from :
    (List ℕ → Ciphered) → Bool → Receiver → Picked → (RecvStatus × List ℕ) × Receiver
recv_from decrypt heap r (no_record status) = ((status, []), r)
recv_from decrypt heap r (picked n bytes room) =
    recv_at decrypt heap (advanced r (n - 1) bytes) (take (first_len bytes) bytes) room
      (place_of r.layer (epoch_of bytes))

-- `DtlsRL_Recv`
unfoldable pub recv :
    (List ℕ → Ciphered) → Bool → Receiver → Incoming → ℕ → (RecvStatus × List ℕ) × Receiver
recv decrypt heap r incoming room = recv_from decrypt heap r (pick r incoming room)

-- `DtlsRL_CB_ChangeServerState`
unfoldable pub change_server_state : RecordLayer → RecordLayer
change_server_state rl = record rl { server_epoch = u16 (rl.server_epoch + 1); recv_ccs_record = 0 }
