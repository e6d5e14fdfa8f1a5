-- ===== src/Optiga/Cmd/Toolbox.antt =====
-- `CmdLib_VerifySign`, `CmdLib_CalculateSign`, `CmdLib_CalculateSharedSecret` and `CmdLib_DeriveKey`.
pub mod Layout
mod Tests
use decada_embedded_example.Base.{
  ℕ, ◌+◌, ◌-◌, List, [], ◌∷◌, ◌++◌, Bool, Option, none, some, length, max, take, drop, copy_to, ltb,
  ◌==◌, if◌then◌else◌,
}
use decada_embedded_example.Base.Word.{u8, u16, sub16}
use decada_embedded_example.Optiga.Cmd.Apdu.{
  CmdStatus, cmd_ok, null_param, insufficient_memory, Device, two_bytes,
}
use decada_embedded_example.Optiga.Cmd.Request.{
  Request, Prepared, refused, ready, sized, written, transact,
}

-- CMD_VERIFYSIGN, CMD_CALC_SIGN, CMD_CALC_SHARED_SEC and CMD_DERIVE_KEY.
abbrev pub cmd_verify_sign : ℕ
cmd_verify_sign = 0x32

abbrev pub cmd_calc_sign : ℕ
cmd_calc_sign = 0x31

abbrev pub cmd_calc_shared_sec : ℕ
cmd_calc_shared_sec = 0x33

abbrev pub cmd_derive_key : ℕ
cmd_derive_key = 0x34

-- The public key of `sVerifyOption_d`: eDataStream with the algorithm and the key, or eOIDData. A null
-- pointer is `none`, here and below.
pub data KeySource : Type 0 where
  from_host : ℕ → Option (List ℕ) → KeySource
  from_device : ℕ → KeySource

-- The checks and the layout of `CmdLib_VerifySign`. The size is added up in 16 bits.
unfoldable pub verify_layout : ℕ → ℕ → KeySource → List ℕ → List ℕ → Prepared
verify_layout max_comms scheme (from_host alg none) digest signature = refused null_param
verify_layout max_comms scheme (from_host alg (some key)) digest signature =
    sized max_comms (record {
      allocated = u16 (4 + 13 + length digest + length signature + length key);
      cmd = cmd_verify_sign;
      param = u8 scheme;
      payload =
          written ((0x01, digest) ∷ (0x02, signature) ∷ (0x05, u8 alg ∷ []) ∷ (0x06, key) ∷ []);
    })
verify_layout max_comms scheme (from_device oid) digest signature = sized max_comms (record {
  allocated = u16 (4 + 11 + length digest + length signature);
  cmd = cmd_verify_sign;
  param = u8 scheme;
  payload = written ((0x01, digest) ∷ (0x02, signature) ∷ (0x04, two_bytes oid) ∷ []);
})

unfoldable pub verify_request : ℕ → ℕ → KeySource → Option (List ℕ) → Option (List ℕ) → Prepared
verify_request max_comms scheme source none signature = refused null_param
verify_request max_comms scheme source (some digest) none = refused null_param
verify_request max_comms scheme source (some digest) (some signature) =
    verify_layout max_comms scheme source digest signature

-- `CmdLib_VerifySign`; `none` is as for `transact`.
unfoldable pub verify_sign :
    Device
    → ℕ
    → Bool
    → List (List ℕ)
    → ℕ
    → KeySource
    → Option (List ℕ)
    → Option (List ℕ)
    → Option (CmdStatus × List (List ℕ))
verify_sign device max_comms heap history scheme source digest signature =
    elim (verify_request max_comms scheme source digest signature) [
      | refused error ↦ some (error, history)
      | ready r ↦ elim (transact device max_comms heap history r) [
        | none ↦ none
        | some (status, response, after) ↦ some (status, after)
      ]
    ]

-- `sbBlob_d` for an output: the bytes, and wLen, which is the room before the call.
pub record Blob : Type 0 where
  pub stream : Option (List ℕ)
  pub len : ℕ

-- The answer without its header goes into the blob.
unfoldable pub deliver : Blob → List ℕ → List ℕ → CmdStatus × Blob
deliver out stream response =
    let n = sub16 (length response) 4 in
    if ltb out.len n
    then (insufficient_memory, out)
    else (cmd_ok, record { stream = some (copy_to stream 0 (take n (drop 4 response))); len = n })

-- A request whose answer is delivered, if the flag is set.
unfoldable pub fetch :
    Device
    → ℕ
    → Bool
    → List (List ℕ)
    → Prepared
    → Bool
    → Blob
    → Option (CmdStatus × Blob × List (List ℕ))
fetch device max_comms heap history prepared exported out = elim prepared [
  | refused error ↦ some (error, out, history)
  | ready r ↦ elim (transact device max_comms heap history r) [
    | none ↦ none
    | some (status, response, after) ↦ elim status [
      | cmd_ok ↦
          if exported
          then (elim out.stream [
            | none ↦ none
            | some stream ↦ let (s, filled) = deliver out stream response in some (s, filled, after)
          ])
          else some (cmd_ok, out, after)
      | error ↦ some (error, out, after)
    ]
  ]
]

-- `sCalcSignOptions_d`
pub record SignOptions : Type 0 where
  pub scheme : ℕ
  pub key_oid : ℕ
  pub digest : Option (List ℕ)

unfoldable pub sign_layout : ℕ → ℕ → ℕ → List ℕ → Prepared
sign_layout max_comms scheme key_oid digest = sized max_comms (record {
  allocated = u16 (4 + max (8 + length digest) 0x77);
  cmd = cmd_calc_sign;
  param = u8 scheme;
  payload = written ((0x01, digest) ∷ (0x03, two_bytes key_oid) ∷ []);
})

unfoldable pub sign_request : ℕ → SignOptions → Blob → Prepared
sign_request max_comms v out = elim out.stream [
  | none ↦ refused null_param
  | some stream ↦ elim v.digest [
    | none ↦ refused null_param
    | some digest ↦ sign_layout max_comms v.scheme v.key_oid digest
  ]
]

-- `CmdLib_CalculateSign`
unfoldable pub calculate_sign :
    Device
    → ℕ
    → Bool
    → List (List ℕ)
    → SignOptions
    → Blob
    → Option (CmdStatus × Blob × List (List ℕ))
calculate_sign device max_comms heap history v out =
    fetch device max_comms heap history (sign_request max_comms v out) Bool.true out

-- Where the result of a command goes: to the host, or, for an object other than 0, to the object.
abbrev pub target : ℕ → ℕ × List ℕ
target oid = if oid == 0 then (0x07, []) else (0x08, two_bytes oid)

abbrev pub target_size : ℕ → ℕ → ℕ
target_size oid n = if oid == 0 then sub16 n 2 else n

abbrev pub null_target : ℕ → Option (List ℕ) → Bool
null_target oid none = oid == 0
null_target oid (some stream) = Bool.false

-- `sCalcSSecOptions_d`
pub record SecretOptions : Type 0 where
  pub agreement : ℕ
  pub key_alg : ℕ
  pub private_oid : ℕ
  pub secret_oid : ℕ
  pub public_key : Option (List ℕ)

unfoldable pub secret_request : ℕ → SecretOptions → Blob → Prepared
secret_request max_comms v out = elim v.public_key [
  | none ↦ refused null_param
  | some key ↦
      if null_target v.secret_oid out.stream
      then refused null_param
      else sized max_comms (record {
        allocated = target_size v.secret_oid (u16 (4 + (15 + length key + 2)));
        cmd = cmd_calc_shared_sec;
        param = u8 v.agreement;
        payload = written (
            (0x01, two_bytes v.private_oid)
            ∷ (0x05, u8 v.key_alg ∷ [])
            ∷ (0x06, key)
            ∷ target v.secret_oid
            ∷ []);
      })
]

-- `CmdLib_CalculateSharedSecret`
unfoldable pub calculate_shared_secret :
    Device
    → ℕ
    → Bool
    → List (List ℕ)
    → SecretOptions
    → Blob
    → Option (CmdStatus × Blob × List (List ℕ))
calculate_shared_secret device max_comms heap history v out =
    fetch device max_comms heap history (secret_request max_comms v out) (v.secret_oid == 0) out

-- `sDeriveKeyOptions_d`
pub record DeriveOptions : Type 0 where
  pub method : ℕ
  pub secret_oid : ℕ
  pub key_len : ℕ
  pub key_oid : ℕ
  pub seed : Option (List ℕ)

unfoldable pub derive_request : ℕ → DeriveOptions → Blob → Prepared
derive_request max_comms v out = elim v.seed [
  | none ↦ refused null_param
  | some seed ↦
      if null_target v.key_oid out.stream
      then refused null_param
      else sized max_comms (record {
        allocated = target_size v.key_oid (u16 (4 + (16 + 2) + max (length seed) v.key_len));
        cmd = cmd_derive_key;
        param = u8 v.method;
        payload = written (
            (0x01, two_bytes v.secret_oid)
            ∷ (0x02, seed)
            ∷ (0x03, two_bytes v.key_len)
            ∷ target v.key_oid
            ∷ []);
      })
]

-- `CmdLib_DeriveKey`
unfoldable pub derive_key :
    Device
    → ℕ
    → Bool
    → List (List ℕ)
    → DeriveOptions
    → Blob
    → Option (CmdStatus × Blob × List (List ℕ))
derive_key device max_comms heap history v out =
    fetch device max_comms heap history (derive_request max_comms v out) (v.key_oid == 0) out
