-- ===== src/Optiga/Cmd/KeyPair.antt =====
-- `CmdLib_GenerateKeyPair`
pub mod Parse
pub mod Generate
mod Tests
use decada_embedded_example.Base.{
  ℕ, zero, suc, ◌+◌, ◌*◌, List, [], ◌∷◌, Bool, true, false, ◌&&◌, Option, none, some, length, take,
  drop, get_or, copy_to, ltb, ◌==◌, if◌then◌else◌,
}
use decada_embedded_example.Base.Word.{u8, u16}
use decada_embedded_example.Optiga.Util.Bytes.{get_uint16}
use decada_embedded_example.Optiga.Cmd.Apdu.{
  CmdStatus, cmd_ok, null_param, insufficient_memory, lib_error, Device, two_bytes,
}
use decada_embedded_example.Optiga.Cmd.Request.{
  Request, Prepared, refused, ready, written, held, transact,
}
use decada_embedded_example.Optiga.Cmd.Toolbox.{Blob}

-- CMD_GENERATE_KEY_PAIR
abbrev pub cmd_generate_key_pair : ℕ
cmd_generate_key_pair = 0x38

-- eKeyExport_d and `sKeyPairOption_d`
pub data KeyExport : Type 0 where
  store_private export_pair : KeyExport

pub record KeyPairOptions : Type 0 where
  pub alg : ℕ
  pub key_export : KeyExport
  pub private_oid : ℕ
  pub usage : ℕ

-- `sOutKeyPair_d`
pub record KeyPair : Type 0 where
  pub public_key : Blob
  pub private_key : Blob

-- `Get_KeySize` on its table: eECC_NIST_P256 and eECC_NIST_P384.
abbrev pub key_size : ℕ → Option ℕ
key_size alg = if alg == 0x03 then some 32 else if alg == 0x04 then some 48 else none

abbrev pub is_null : Blob → Bool
is_null blob = elim blob.stream [ none ↦ true | some _ ↦ false ]

abbrev pub is_export : KeyExport → Bool
is_export store_private = false
is_export export_pair = true

unfoldable pub key_layout : KeyPairOptions → ℕ → Request
key_layout v size = record {
  allocated = u16 (
      (if is_export v.key_export then 4 + 4 + 3 + 3 else 4 + 9)
      + (size * (if is_export v.key_export then 3 else 2) + 2));
  cmd = cmd_generate_key_pair;
  param = u8 v.alg;
  payload = written (
      if is_export v.key_export
      then (0x07, []) ∷ []
      else (0x01, two_bytes v.private_oid) ∷ (0x02, u8 v.usage ∷ []) ∷ []);
}

unfoldable pub key_request : KeyPairOptions → KeyPair → Prepared
key_request v out =
    if is_null out.public_key
    then refused null_param
    else if is_export v.key_export && is_null out.private_key
    then refused null_param
    else elim (key_size v.alg) [ none ↦ refused lib_error | some size ↦ ready (key_layout v size) ]

-- The loop over the answer, with fuel, from the place `pos`. `none` means that the fuel ran out, that a
-- byte behind the buffer is read, or that a key is written through a pointer that is not set.
unfoldable pub read_keys : ℕ → List ℕ → ℕ → ℕ → KeyPair → Option (CmdStatus × KeyPair)
read_keys zero memory resp_len pos out = none
read_keys (suc fuel) memory resp_len pos out =
    let n = get_uint16 memory (pos + 1) in
    let is_public = get_or memory pos 0 == 0x02 in
    let blob = if is_public then out.public_key else out.private_key in
    let next = u16 (pos + (n + 3)) in
    if ltb (length memory) (pos + 3)
    then none
    else if ltb blob.len n
    then some (insufficient_memory, out)
    else if ltb (length memory) (pos + (n + 3))
    then none
    else elim blob.stream [
      | none ↦ none
      | some stream ↦
          let filled : Blob = record {
            stream = some (copy_to stream 0 (take n (drop (pos + 3) memory)));
            len = n;
          } in
          let now =
            if is_public
            then record out { public_key = filled }
            else record out { private_key = filled } in
          let rest = read_keys fuel memory resp_len next now in
          if next == resp_len then some (cmd_ok, now) else rest
    ]

-- `CmdLib_GenerateKeyPair`; `none` is as for `transact` and `read_keys`.
unfoldable pub generate_key_pair :
    Device
    → ℕ
    → Bool
    → List (List ℕ)
    → KeyPairOptions
    → KeyPair
    → Option (CmdStatus × KeyPair × List (List ℕ))
generate_key_pair device max_comms heap history v out = elim (key_request v out) [
  | refused error ↦ some (error, out, history)
  | ready r ↦ elim (transact device max_comms heap history r) [
    | none ↦ none
    | some (status, response, after) ↦ elim status [
      | cmd_ok ↦ elim (read_keys r.allocated (held r response) (length response) 4 out) [
        | none ↦ none
        | some (s, keys) ↦ some (s, keys, after)
      ]
      | error ↦ some (error, out, after)
    ]
  ]
]
