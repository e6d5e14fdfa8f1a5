-- ===== src/Optiga/Objects.antt =====
-- lib/optiga/util/optiga_util.c: the data objects of the device for the application.
pub mod RoundTrip
mod Tests
use decada_embedded_example.Base.{
  ℕ, List, [], ◌∷◌, Bool, not, ◌&&◌, Option, none, some, length, ◌==◌, if◌then◌else◌,
}
use decada_embedded_example.Optiga.Status.{
  LibStatus, lib_success, lib_failure, invalid_input, from_command, handed_on,
}
use decada_embedded_example.Optiga.Cmd.Apdu.{CmdStatus, cmd_ok, Device}
use decada_embedded_example.Optiga.Cmd.SetData.{
  DataOrMetadata, e_data, e_meta_data, WriteOption, e_write, e_erase_and_write, SetData,
  set_data_object,
}
use decada_embedded_example.Optiga.Cmd.GetData.{GetData, get_data_object}

-- OPTIGA_UTIL_WRITE_ONLY, OPTIGA_UTIL_ERASE_AND_WRITE and LENGTH_METADATA
abbrev pub write_only : ℕ
write_only = 0x00

abbrev pub erase_and_write : ℕ
erase_and_write = 0x40

abbrev pub length_metadata : ℕ
length_metadata = 0x1c

-- The common part of the two reads: the status, the buffer and the new *buffer_size.
abbrev pub read_by :
    Device → ℕ → Bool → List (List ℕ) → GetData → List ℕ → ℕ → Option (LibStatus × List ℕ × ℕ)
read_by device max_comms heap history v buffer buffer_size =
    elim (get_data_object v.wanted device max_comms heap history v (some buffer) buffer_size 0) [
      | none ↦ none
      | some (status, filled, resp_length) ↦ elim status [
        | cmd_ok ↦ some (lib_success, filled, resp_length)
        | error ↦ some (from_command error, filled, buffer_size)
      ]
    ]

-- `optiga_util_read_data`; `none` for the buffer or its size is a null pointer, and in the result no
-- buffer.
unfoldable pub read_data :
    Device
    → ℕ
    → Bool
    → List (List ℕ)
    → ℕ
    → ℕ
    → Option (List ℕ)
    → Option ℕ
    → Option (LibStatus × List ℕ × ℕ)
read_data device max_comms heap history oid offset none size = some (lib_failure, [], 0)
read_data device max_comms heap history oid offset (some buffer) none =
    some (lib_failure, buffer, 0)
read_data device max_comms heap history oid offset (some buffer) (some size) =
    if size == 0
    then some (lib_failure, buffer, size)
    else read_by device max_comms heap history
        (record { oid = oid; offset = offset; wanted = size; data_or_mdata = e_data }) buffer size

-- `optiga_util_read_metadata`
unfoldable pub read_metadata :
    Device → ℕ → Bool → List (List ℕ) → ℕ → Option (List ℕ) → ℕ → Option (LibStatus × List ℕ × ℕ)
read_metadata device max_comms heap history oid none size = some (lib_failure, [], size)
read_metadata device max_comms heap history oid (some buffer) size =
    if size == 0
    then some (lib_failure, buffer, size)
    else read_by device max_comms heap history
        (record { oid = oid; offset = 0; wanted = length_metadata; data_or_mdata = e_meta_data })
        buffer size

-- What follows a write.
abbrev pub written_by : Option (CmdStatus × List (List ℕ)) → Option (LibStatus × List (List ℕ))
written_by none = none
written_by (some (status, after)) = some (handed_on status, after)

-- `optiga_util_write_data`
unfoldable pub write_data :
    Device
    → ℕ
    → Bool
    → List (List ℕ)
    → ℕ
    → ℕ
    → ℕ
    → Option (List ℕ)
    → Option (LibStatus × List (List ℕ))
write_data device max_comms heap history oid write_type offset none = some (lib_failure, history)
write_data device max_comms heap history oid write_type offset (some bytes) =
    if length bytes == 0
    then some (lib_failure, history)
    else if not (write_type == write_only) && not (write_type == erase_and_write)
    then some (invalid_input, history)
    else written_by (
        set_data_object device max_comms heap history (record {
          oid = oid;
          offset = offset;
          bytes = some bytes;
          data_or_mdata = e_data;
          write_option = if write_type == erase_and_write then e_erase_and_write else e_write;
        }))

-- `optiga_util_write_metadata`
unfoldable pub write_metadata :
    Device → ℕ → Bool → List (List ℕ) → ℕ → Option (List ℕ) → Option (LibStatus × List (List ℕ))
write_metadata device max_comms heap history oid bytes = written_by (
    set_data_object device max_comms heap history (record {
      oid = oid;
      offset = 0;
      bytes = bytes;
      data_or_mdata = e_meta_data;
      write_option = e_write;
    }))
