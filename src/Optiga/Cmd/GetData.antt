-- ===== src/Optiga/Cmd/GetData.antt =====
-- `CmdLib_GetDataObject`: a data object is read in pieces that fit the device's buffer.
pub mod Serve
pub mod Read
use decada_embedded_example.Base.{
  ℕ, zero, suc, ◌+◌, ◌-◌, List, [], ◌∷◌, ◌++◌, Bool, true, false, not, ◌&&◌, ◌||◌, Option, none,
  some, length, take, drop, copy_to, min, ltb, ◌==◌, if◌then◌else◌,
}
use decada_embedded_example.Base.Word.{u16, sub16}
use decada_embedded_example.Optiga.Cmd.Apdu.{
  CmdStatus, cmd_ok, null_param, len_zero, insufficient_memory, dev_exec_error, dev_error, Device,
  cmd_getdata, two_bytes, transceive_apdu, invalid_max_comms_buff_size,
}
use decada_embedded_example.Optiga.Cmd.SetData.{DataOrMetadata, e_data, e_meta_data}

-- `sGetData_d`
pub record GetData : Type 0 where
  pub oid : ℕ
  pub offset : ℕ
  pub wanted : ℕ
  pub data_or_mdata : DataOrMetadata

-- LEN_APDUHEADER and ERR_DATA_OUT_OF_BOUND
abbrev pub len_apduheader : ℕ
len_apduheader = 4

abbrev pub err_data_out_of_bound : ℕ
err_data_out_of_bound = 8

-- `sCmdResponse_d` while it is filled: the buffer and the bytes in it so far. `buffer_length` is
-- wBufferLength, which stays.
pub record Reading : Type 0 where
  pub status : CmdStatus
  pub buffer : List ℕ
  pub total : ℕ
  pub history : List (List ℕ)

-- PARAM_GET_DATA and PARAM_GET_METADATA
abbrev pub get_param : DataOrMetadata → ℕ
get_param e_data = 0x00
get_param e_meta_data = 0x01

-- The length to read in a round; it is left at 0 for metadata. When more has come than was wanted,
-- the difference of the two is a negative number, which the cast wraps.
abbrev pub read_len_of : DataOrMetadata → ℕ → ℕ → ℕ → ℕ
read_len_of e_data max_comms wanted total =
    if ltb total wanted
    then min (max_comms - len_apduheader) (wanted - total)
    else sub16 wanted total
read_len_of e_meta_data max_comms wanted total = 0

abbrev pub read_payload : DataOrMetadata → ℕ → ℕ → ℕ → List ℕ
read_payload e_data oid offset read_len = two_bytes oid ++ (two_bytes offset ++ two_bytes read_len)
read_payload e_meta_data oid offset read_len = two_bytes oid

abbrev pub start_of : DataOrMetadata → ℕ → ℕ
start_of e_data offset = offset
start_of e_meta_data offset = 0

-- The inner loop, with fuel; `none` means that the fuel ran out. The device's buffer holds more than
-- the header.
unfoldable pub read_pieces :
    ℕ → Device → ℕ → GetData → ℕ → List ℕ → List (List ℕ) → ℕ → ℕ → Option Reading
read_pieces zero device max_comms v buffer_length buffer history total offset = none
read_pieces (suc fuel) device max_comms v buffer_length buffer history total offset =
    let read_len = read_len_of v.data_or_mdata max_comms v.wanted total in
    let (status, response, after) =
      transceive_apdu device true history cmd_getdata (get_param v.data_or_mdata)
        (read_payload v.data_or_mdata v.oid offset read_len) in
    let response_length = sub16 (length response) len_apduheader in
    let filled = copy_to buffer total (take response_length (drop len_apduheader response)) in
    let now = u16 (total + response_length) in
    let rest =
      read_pieces fuel device max_comms v buffer_length filled after now
        (u16 (offset + response_length)) in
    let ended : Reading = record {
      status = cmd_ok;
      buffer = filled;
      total = now;
      history = after;
    } in
    elim status [
      | cmd_ok ↦
          if ltb (buffer_length - total) response_length
          then some (record {
            status = insufficient_memory;
            buffer = buffer;
            total = total;
            history = after;
          })
          else if now == v.wanted
          then some ended
          else if read_len == response_length
          then rest
          else some ended
      | error ↦ some (record { status = error; buffer = buffer; total = total; history = after })
    ]

abbrev pub is_out_of_bound : CmdStatus → Bool
is_out_of_bound (dev_error code) = code == err_data_out_of_bound
is_out_of_bound _ = false

abbrev pub is_ok : CmdStatus → Bool
is_ok cmd_ok = true
is_ok _ = false

abbrev pub zeros : ℕ → List ℕ
zeros zero = []
zeros (suc n) = 0 ∷ zeros n

-- What follows the loop: the status, the buffer and wRespLength.
unfoldable pub finish : Reading → CmdStatus × List ℕ × ℕ
finish r =
    if not (is_ok r.status) && (r.total == 0 || not (is_out_of_bound r.status))
    then (r.status, copy_to r.buffer 0 (zeros r.total), 0)
    else (cmd_ok, r.buffer, r.total)

-- `CmdLib_GetDataObject`; `none` for the buffer is a null pointer, and in the result wRespLength stands
-- beside the buffer.
unfoldable pub get_data_object :
    ℕ
    → Device
    → ℕ
    → Bool
    → List (List ℕ)
    → GetData
    → Option (List ℕ)
    → ℕ
    → ℕ
    → Option (CmdStatus × List ℕ × ℕ)
get_data_object fuel device max_comms heap history v none buffer_length resp_length =
    if max_comms == invalid_max_comms_buff_size
    then some (dev_exec_error, [], resp_length)
    else if not heap
    then some (insufficient_memory, [], resp_length)
    else some (null_param, [], resp_length)
get_data_object fuel device max_comms heap history v (some buffer) buffer_length resp_length =
    let read =
      read_pieces fuel device max_comms v buffer_length buffer history 0
        (start_of v.data_or_mdata v.offset) in
    if max_comms == invalid_max_comms_buff_size
    then some (dev_exec_error, buffer, resp_length)
    else if not heap
    then some (insufficient_memory, buffer, resp_length)
    else if buffer_length == 0
    then some (len_zero, buffer, resp_length)
    else elim read [ none ↦ none | some r ↦ some (finish r) ]
