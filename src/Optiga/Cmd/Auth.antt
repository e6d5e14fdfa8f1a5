-- ===== src/Optiga/Cmd/Auth.antt =====
-- `CmdLib_SetAuthScheme`, `CmdLib_GetSignature` and `CmdLib_GetRandom`.
use decada_embedded_example.Base.{
  ℕ, ◌+◌, List, [], ◌++◌, Bool, true, ◌||◌, Option, none, some, length, take, drop, copy_to, ltb,
  ◌==◌, if◌then◌else◌,
}
use decada_embedded_example.Base.Word.{u8, sub16}
use decada_embedded_example.Optiga.Cmd.Apdu.{
  CmdStatus, cmd_ok, null_param, len_zero, insufficient_memory, invalid_len, invalid_sessionid,
  Device, two_bytes, transceive_apdu,
}
use decada_embedded_example.Optiga.Cmd.Request.{transact}

-- eAuthScheme_d
pub data AuthKind : Type 0 where
  ecdsa dtls_client : AuthKind

-- `sAuthScheme_d`
pub record AuthScheme : Type 0 where
  pub private_oid : ℕ
  pub session_oid : ℕ
  pub kind : AuthKind

-- `sCmdResponse_d`; `none` for the bytes is a null pointer.
pub record CmdResponse : Type 0 where
  pub stream : Option (List ℕ)
  pub room : ℕ
  pub resp_len : ℕ

abbrev pub cmd_setauth_scm : ℕ
cmd_setauth_scm = 0x10

abbrev pub cmd_setauth_msg : ℕ
cmd_setauth_msg = 0x19

abbrev pub cmd_getauth_msg : ℕ
cmd_getauth_msg = 0x18

abbrev pub cmd_get_rnd : ℕ
cmd_get_rnd = 0x0c

abbrev pub scheme_value : AuthKind → ℕ
scheme_value ecdsa = 0x91
scheme_value dtls_client = 0x99

abbrev pub only_status : CmdStatus × List ℕ × List (List ℕ) → CmdStatus × List (List ℕ)
only_status (status, response, after) = (status, after)

-- `CmdLib_SetAuthScheme`
unfoldable pub set_auth_scheme : Device → List (List ℕ) → AuthScheme → CmdStatus × List (List ℕ)
set_auth_scheme device history v = elim v.kind [
  | dtls_client ↦
      if ltb v.session_oid 0xe100 || ltb 0xe103 v.session_oid
      then (invalid_sessionid, history)
      else only_status (
          transceive_apdu device true history cmd_setauth_scm (scheme_value dtls_client)
            (two_bytes v.private_oid ++ two_bytes v.session_oid))
  | ecdsa ↦ only_status (
      transceive_apdu device true history cmd_setauth_scm (scheme_value ecdsa)
        (two_bytes v.private_oid))
]

-- CHALLENGE_MIN_LEN and CHALLENGE_MAX_LEN
abbrev pub challenge_min_len : ℕ
challenge_min_len = 0x08

abbrev pub challenge_max_len : ℕ
challenge_max_len = 0x100

-- The answer without its header goes to the caller.
abbrev pub deliver_response : CmdResponse → List ℕ → ℕ → List ℕ → CmdStatus × CmdResponse
deliver_response out stream resp_len response =
    let n = sub16 (length response) 4 in
    if ltb out.room n then (insufficient_memory, record out { resp_len = resp_len }) else (
      cmd_ok,
      record out { stream = some (copy_to stream 0 (take n (drop 4 response))); resp_len = n },
    )

-- The exchanges of `CmdLib_GetSignature`: the scheme, the challenge and the answer.
unfoldable pub challenge : Device → List (List ℕ) → ℕ → List ℕ → CmdStatus × List ℕ × List (List ℕ)
challenge device history private_oid rnd =
    let (chosen, h1) =
      set_auth_scheme device history
        (record { private_oid = private_oid; session_oid = 0; kind = ecdsa }) in
    let (given, r2, h2) = transceive_apdu device true h1 cmd_setauth_msg 0x01 rnd in
    elim chosen [
      | cmd_ok ↦ elim given [
        | cmd_ok ↦ transceive_apdu device true h2 cmd_getauth_msg 0x02 []
        | error ↦ (error, r2, h2)
      ]
      | error ↦ (error, [], h1)
    ]

-- `CmdLib_GetSignature`
unfoldable pub get_signature :
    Device
    → List (List ℕ)
    → ℕ
    → Option (List ℕ)
    → CmdResponse
    → CmdStatus × CmdResponse × List (List ℕ)
get_signature device history private_oid none out = (null_param, out, history)
get_signature device history private_oid (some rnd) out = elim out.stream [
  | none ↦ (null_param, out, history)
  | some stream ↦
      let (status, response, after) = challenge device history private_oid rnd in
      let (s, filled) = deliver_response out stream (sub16 (length response) 4) response in
      if ltb (length rnd) challenge_min_len || ltb challenge_max_len (length rnd)
      then (invalid_len, out, history)
      else elim status [ cmd_ok ↦ (s, filled, after) | error ↦ (error, out, after) ]
]

-- `CmdLib_GetRandom`, with the type and the number of bytes; `none` is as for `transact`.
unfoldable pub get_random :
    Device
    → ℕ
    → Bool
    → List (List ℕ)
    → ℕ
    → ℕ
    → CmdResponse
    → Option (CmdStatus × CmdResponse × List (List ℕ))
get_random device max_comms heap history kind n out = elim out.stream [
  | none ↦ some (null_param, out, history)
  | some stream ↦
      let empty = record out { resp_len = 0 } in
      if out.room == 0
      then some (len_zero, out, history)
      else if ltb max_comms (4 + n)
      then some (insufficient_memory, out, history)
      else elim (transact device max_comms heap history (record {
        allocated = 4 + 2 + n;
        cmd = cmd_get_rnd;
        param = u8 kind;
        payload = two_bytes n;
      })) [
        | none ↦ none
        | some (status, response, after) ↦ elim status [
          | cmd_ok ↦
              let (s, filled) = deliver_response empty stream 0 response in some (s, filled, after)
          | error ↦ some (error, empty, after)
        ]
      ]
]
