-- ===== src/Optiga/Cmd/SetData.antt =====
-- `CmdLib_SetDataObject`: a data object is written in pieces that fit the device's buffer.
pub mod Effect
pub mod Store
use decada_embedded_example.Base.{
  ℕ, zero, suc, ◌+◌, ◌-◌, List, [], ◌∷◌, ◌++◌, Bool, true, false, not, ◌&&◌, Option, none, some,
  length, take, drop, min, ◌==◌, if◌then◌else◌,
}
use decada_embedded_example.Base.Word.{u16}
use decada_embedded_example.Optiga.Cmd.Apdu.{
  CmdStatus, cmd_ok, null_param, len_zero, invalid_param, insufficient_memory, dev_exec_error,
  dev_error, Device, cmd_setdata, two_bytes, transceive_apdu, invalid_max_comms_buff_size,
}

-- eDataOrMedata_d and eWriteOption_d
pub data DataOrMetadata : Type 0 where
  e_data e_meta_data : DataOrMetadata

pub data WriteOption : Type 0 where
  e_write e_erase_and_write : WriteOption

-- `sSetData_d`; `none` for the data is a null pointer.
pub record SetData : Type 0 where
  pub oid : ℕ
  pub offset : ℕ
  pub bytes : Option (List ℕ)
  pub data_or_mdata : DataOrMetadata
  pub write_option : WriteOption

-- PARAM_SET_DATA, PARAM_SET_METADATA and PARAM_SET_DATA_ERASE
abbrev pub param_set_data : ℕ
param_set_data = 0x00

abbrev pub param_set_metadata : ℕ
param_set_metadata = 0x01

abbrev pub param_set_data_erase : ℕ
param_set_data_erase = 0x40

-- The choice of the parameter; `none` is CMD_LIB_INVALID_PARAM.
abbrev pub param_of : DataOrMetadata → WriteOption → Option ℕ
param_of e_data e_write = some param_set_data
param_of e_data e_erase_and_write = some param_set_data_erase
param_of e_meta_data e_write = some param_set_metadata
param_of e_meta_data e_erase_and_write = none

-- OVERHEAD
abbrev pub overhead : ℕ
overhead = 8

-- The parameter of the next piece.
abbrev pub chained : ℕ → ℕ → ℕ
chained param total =
    if param == param_set_data_erase && not (total == 0) then param_set_data else param

-- The loop, with fuel; `none` means that the fuel ran out. `total` is what has been written of
-- `bytes`. The device's buffer holds more than the overhead.
unfoldable pub write_pieces :
    ℕ → Device → ℕ → ℕ → List ℕ → List (List ℕ) → ℕ → ℕ → ℕ → Option (CmdStatus × List (List ℕ))
write_pieces zero device max_comms oid bytes history param total offset = none
write_pieces (suc fuel) device max_comms oid bytes history param total offset =
    let param = chained param total in
    let write_len = min (max_comms - overhead) (length bytes - total) in
    let payload = two_bytes oid ++ (two_bytes offset ++ take write_len (drop total bytes)) in
    let (status, response, after) = transceive_apdu device true history cmd_setdata param payload in
    let total = u16 (total + write_len) in
    let rest =
      write_pieces fuel device max_comms oid bytes after param total (u16 (offset + write_len)) in
    elim status [
      | cmd_ok ↦ if total == length bytes then some (cmd_ok, after) else rest
      | error ↦ some (error, after)
    ]

-- `CmdLib_SetDataObject`; `max_comms` is wMaxCommsBuffer, `heap` says whether the buffer is allocated.
unfoldable pub set_data_object :
    Device → ℕ → Bool → List (List ℕ) → SetData → Option (CmdStatus × List (List ℕ))
set_data_object device max_comms heap history v =
    if max_comms == invalid_max_comms_buff_size
    then some (dev_exec_error, history)
    else if not heap
    then some (insufficient_memory, history)
    else elim v.bytes [
      | none ↦ some (null_param, history)
      | some bytes ↦
          if length bytes == 0
          then some (len_zero, history)
          else elim (param_of v.data_or_mdata v.write_option) [
            | none ↦ some (invalid_param, history)
            | some param ↦
                write_pieces (length bytes) device max_comms v.oid bytes history param 0 v.offset
          ]
    ]
