-- ===== src/Optiga/Cmd/Opening.antt =====
-- `CmdLib_OpenApplication`, and the size of the device's buffer, which is read once.
use decada_embedded_example.Base.{
  ℕ, List, [], ◌∷◌, true, false, get_or, copy_to, bit_or, ◌==◌, if◌then◌else◌,
}
use decada_embedded_example.Base.Word.{u16, ◌<<<◌}
use decada_embedded_example.Optiga.Cmd.Apdu.{
  CmdStatus, cmd_ok, Device, cmd_getdata, two_bytes, apdu, transceive_apdu,
  invalid_max_comms_buff_size,
}

-- OID_MAX_COMMS_SIZE, CMD_OPEN_APP with CMD_CODE_MSB_SET, and UNIQUE_APP_IDENTIFIER
abbrev pub oid_max_comms_size : ℕ
oid_max_comms_size = 0xe0c6

abbrev pub cmd_open_app : ℕ
cmd_open_app = 0xf0

abbrev pub unique_app_identifier : List ℕ
unique_app_identifier =
    0xd2 ∷ 0x76 ∷ 0x00 ∷ 0x00 ∷ 0x04 ∷ 0x47 ∷ 0x65 ∷ 0x6e ∷ 0x41 ∷ 0x75 ∷ 0x74 ∷ 0x68 ∷ 0x41 ∷ 0x70
    ∷ 0x70 ∷ 0x6c ∷ []

-- `GetMaxCommsBuffer`: the status, the new wMaxCommsBuffer and the commands sent. The answer comes into
-- the buffer of the command.
unfoldable pub get_max_comms_buffer : Device → ℕ → List (List ℕ) → CmdStatus × ℕ × List (List ℕ)
get_max_comms_buffer device max_comms history =
    let payload = two_bytes oid_max_comms_size in
    let (status, response, after) = transceive_apdu device true history cmd_getdata 0x00 payload in
    let bytes = copy_to (apdu cmd_getdata 0x00 payload) 0 response in
    elim status [
      | cmd_ok ↦ (cmd_ok, u16 (bit_or (get_or bytes 4 0 <<< 8) (get_or bytes 5 0)), after)
      | error ↦ (error, max_comms, after)
    ]

-- `CmdLib_OpenApplication` with eInit, its only option.
unfoldable pub open_application : Device → ℕ → List (List ℕ) → CmdStatus × ℕ × List (List ℕ)
open_application device max_comms history =
    let (status, response, after) =
      transceive_apdu device false history cmd_open_app 0x00 unique_app_identifier in
    let asked = get_max_comms_buffer device max_comms after in
    elim status [
      | cmd_ok ↦
          if max_comms == invalid_max_comms_buff_size then asked else (cmd_ok, max_comms, after)
      | error ↦ (error, max_comms, after)
    ]
