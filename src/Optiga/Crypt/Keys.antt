-- ===== src/Optiga/Crypt/Keys.antt =====
-- The functions of optiga_crypt.c beside the hash: each fills in the options of one command.
pub mod Sign
mod Tests
use decada_embedded_example.Base.{
  ℕ, List, Bool, true, false, Option, none, some, length, ltb, ◌==◌, if◌then◌else◌,
}
use decada_embedded_example.Optiga.Cmd.Apdu.{CmdStatus, cmd_ok, Device}
use decada_embedded_example.Optiga.Status.{
  LibStatus, lib_success, lib_failure, succeeded, handed_on,
}
use decada_embedded_example.Optiga.Cmd.Auth.{CmdResponse, get_random}
use decada_embedded_example.Optiga.Cmd.KeyPair.{
  KeyPairOptions, KeyPair, store_private, export_pair, generate_key_pair,
}
use decada_embedded_example.Optiga.Cmd.Toolbox.{
  Blob, KeySource, SignOptions, SecretOptions, DeriveOptions, verify_sign, calculate_sign,
  calculate_shared_secret, derive_key,
}

-- `optiga_crypt_random`
unfoldable pub random :
    Device
    → ℕ
    → Bool
    → List (List ℕ)
    → ℕ
    → Option (List ℕ)
    → ℕ
    → Option (LibStatus × Option (List ℕ) × List (List ℕ))
random device max_comms heap history kind bytes n =
    elim (get_random device max_comms heap history kind n
      (record { stream = bytes; room = n; resp_len = 0 })) [
        | none ↦ none
        | some (status, out, after) ↦ some (succeeded status, out.stream, after)
      ]

-- Where a result goes: to a buffer of the host, or to the object whose identifier the pointer holds.
pub data ResultTarget : Type 0 where
  to_host : Option (List ℕ) → ResultTarget
  to_object : ℕ → ResultTarget

-- The length of the output changes only when the command succeeds.
abbrev pub output_len : CmdStatus → ℕ → ℕ → ℕ
output_len cmd_ok now before = now
output_len error now before = before

abbrev pub export_options : ℕ → ℕ → KeyPairOptions
export_options curve usage = record {
  alg = curve;
  key_export = export_pair;
  private_oid = 0;
  usage = usage;
}

abbrev pub store_options : ℕ → ℕ → ℕ → KeyPairOptions
store_options curve usage oid = record {
  alg = curve;
  key_export = store_private;
  private_oid = oid;
  usage = usage;
}

-- `optiga_crypt_ecc_generate_keypair`, with the target of the private key, the buffer of the public key
-- and its length. When the private key is stored, its blob is not set; as `none` with the greatest
-- length, a write through it is the undefined case of `generate_key_pair`.
unfoldable pub generate_keypair :
    Device
    → ℕ
    → Bool
    → List (List ℕ)
    → ℕ
    → ℕ
    → ResultTarget
    → Option (List ℕ)
    → ℕ
    → Option (LibStatus × KeyPair × ℕ × List (List ℕ))
generate_keypair device max_comms heap history curve usage target public_key n =
    let (options, stream) = elim target as (λ t. KeyPairOptions × Option (List ℕ)) [
      | to_host bytes ↦ (export_options curve usage, bytes)
      | to_object oid ↦ (store_options curve usage oid, none)
    ] in
    elim (generate_key_pair device max_comms heap history options (record {
      public_key = record { stream = public_key; len = n };
      private_key = record { stream = stream; len = 0xffff };
    })) [
      | none ↦ none
      | some (status, keys, after) ↦
          some (succeeded status, keys, output_len status keys.public_key.len n, after)
    ]

-- `optiga_crypt_ecdsa_sign`, with the buffer of the signature and its length.
unfoldable pub ecdsa_sign :
    Device
    → ℕ
    → Bool
    → List (List ℕ)
    → Option (List ℕ)
    → ℕ
    → Option (List ℕ)
    → ℕ
    → Option (LibStatus × Option (List ℕ) × ℕ × List (List ℕ))
ecdsa_sign device max_comms heap history digest private_oid signature n =
    elim (calculate_sign device max_comms heap history
      (record { scheme = 0x11; key_oid = private_oid; digest = digest })
      (record { stream = signature; len = n })) [
        | none ↦ none
        | some (status, out, after) ↦
            some (succeeded status, out.stream, output_len status out.len n, after)
      ]

-- `optiga_crypt_ecdsa_verify`, with a key of the host or of the device.
unfoldable pub ecdsa_verify :
    Device
    → ℕ
    → Bool
    → List (List ℕ)
    → Option (List ℕ)
    → Option (List ℕ)
    → KeySource
    → Option (LibStatus × List (List ℕ))
ecdsa_verify device max_comms heap history digest signature key =
    elim (verify_sign device max_comms heap history 0x11 key digest signature) [
      | none ↦ none
      | some (status, after) ↦ some (handed_on status, after)
    ]

-- An export to the object 0 is one to the host through a pointer that is not set. It is undefined from
-- the check of that pointer on, which comes behind the check of the input.
abbrev pub is_unset : ResultTarget → Option (List ℕ) → Bool
is_unset (to_object oid) (some input) = oid == 0
is_unset target input = false

-- The status and the buffer after a command.
abbrev pub exported :
    Bool
    → Option (CmdStatus × Blob × List (List ℕ))
    → Option (LibStatus × Option (List ℕ) × List (List ℕ))
exported true result = none
exported false none = none
exported false (some (status, out, after)) = some (handed_on status, out.stream, after)

abbrev pub object_of : ResultTarget → ℕ
object_of (to_host bytes) = 0
object_of (to_object oid) = oid

abbrev pub buffer_of : ResultTarget → Option (List ℕ)
buffer_of (to_host bytes) = bytes
buffer_of (to_object oid) = none

-- `optiga_crypt_ecdh`, with the curve and the bytes of the public key.
unfoldable pub ecdh :
    Device
    → ℕ
    → Bool
    → List (List ℕ)
    → ℕ
    → ℕ
    → Option (List ℕ)
    → ResultTarget
    → Option (LibStatus × Option (List ℕ) × List (List ℕ))
ecdh device max_comms heap history private_oid curve public_key target =
    exported (is_unset target public_key) (
      calculate_shared_secret device max_comms heap history
        (record {
          agreement = 0x01;
          key_alg = curve;
          private_oid = private_oid;
          secret_oid = object_of target;
          public_key = public_key;
        })
        (record { stream = buffer_of target; len = if curve == 0x03 then 32 else 64 }))

-- The length that is derived.
abbrev pub derived_len : ℕ → ℕ
derived_len n = if ltb n 16 then 16 else n

-- `optiga_crypt_tls_prf_sha256`, which does not use its label.
unfoldable pub tls_prf_sha256 :
    Device
    → ℕ
    → Bool
    → List (List ℕ)
    → ℕ
    → List ℕ
    → Option (List ℕ)
    → ℕ
    → ResultTarget
    → Option (LibStatus × Option (List ℕ) × List (List ℕ))
tls_prf_sha256 device max_comms heap history secret label seed n target =
    exported (is_unset target seed) (
      derive_key device max_comms heap history
        (record {
          method = 0x01;
          secret_oid = secret;
          key_len = derived_len n;
          key_oid = object_of target;
          seed = seed;
        })
        (record { stream = buffer_of target; len = derived_len n }))
