-- ===== src/Optiga/Cmd/Apdu.antt =====
-- A command and its answer: `TransceiveAPDU` and `CmdLib_GetDeviceError`.
use decada_embedded_example.Base.{
  ℕ, List, [], ◌∷◌, ◌++◌, Bool, Option, none, some, length, get_or, ◌==◌, if◌then◌else◌,
}
use decada_embedded_example.Base.Word.{u8, ◌>>>◌}

-- CMD_LIB_OK and the errors. `dev_error` is CMD_DEV_ERROR with the device's code in it.
pub data CmdStatus : Type 0 where
  cmd_ok null_param len_zero invalid_param insufficient_memory dev_exec_error : CmdStatus
  lib_error invalid_len invalid_sessionid : CmdStatus
  dev_error : ℕ → CmdStatus

-- What `optiga_comms_transceive` and its completion make of a command after the commands before it:
-- the answer in the response buffer, or `none`, when either reports an error.
abbrev pub Device : Type 0
Device = List (List ℕ) → List ℕ → Option (List ℕ)

-- CMD_GETDATA, CMD_SETDATA, OID_ERROR, OFFSET_PAYLOAD and INVALID_MAX_COMMS_BUFF_SIZE.
abbrev pub cmd_getdata : ℕ
cmd_getdata = 0x01

abbrev pub cmd_setdata : ℕ
cmd_setdata = 0x02

abbrev pub oid_error : ℕ
oid_error = 0xf1c2

abbrev pub offset_payload : ℕ
offset_payload = 4

abbrev pub invalid_max_comms_buff_size : ℕ
invalid_max_comms_buff_size = 0xffff

-- The bytes of a number of 16 bits, the high one first.
abbrev pub two_bytes : ℕ → List ℕ
two_bytes n = u8 (n >>> 8) ∷ u8 n ∷ []

-- The bytes of a command: its header, with the length of the payload, and the payload.
abbrev pub apdu : ℕ → ℕ → List ℕ → List ℕ
apdu cmd param payload = cmd ∷ param ∷ two_bytes (length payload) ++ payload

-- `CmdLib_GetDeviceError`. In the second component are the commands sent.
unfoldable pub get_device_error : Device → List (List ℕ) → CmdStatus × List (List ℕ)
get_device_error device history =
    let command = apdu cmd_getdata 0 (two_bytes oid_error) in
    let after = history ++ (command ∷ []) in
    elim (device history command) [
      | none ↦ (dev_exec_error, after)
      | some response ↦
          if get_or response 0 0 == 0
          then (dev_error (get_or response offset_payload 0), after)
          else (dev_exec_error, after)
    ]

-- `TransceiveAPDU`; the flag is bGetError. In the second component is the response.
unfoldable pub transceive_apdu :
    Device → Bool → List (List ℕ) → ℕ → ℕ → List ℕ → CmdStatus × List ℕ × List (List ℕ)
transceive_apdu device get_error history cmd param payload =
    let command = apdu cmd param payload in
    let after = history ++ (command ∷ []) in
    let (error, later) = get_device_error device after in
    elim (device history command) [
      | none ↦ (dev_exec_error, [], after)
      | some response ↦
          if get_or response 0 0 == 0
          then (cmd_ok, response, after)
          else if get_error
          then (error, response, later)
          else (lib_error, response, after)
    ]
