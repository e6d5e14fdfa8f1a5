-- ===== src/Optiga/Crypt/Keys/Sign.antt =====
-- Signatures that the secure element makes and checks.
use decada_embedded_example.Base.{
  ℕ, ◌+◌, ◌^◌, ◌≤◌, ◌<◌, ◌≡◌, refl, sym, ap, subst, ◌∙◌, List, [], ◌∷◌, ◌++◌, true, false, some,
  length, max, take, take_all, take-append, drop, copy_to, copy_to_start, ltb, ltb-eq-false, arith,
}
use decada_embedded_example.Base.Word.{u8, sub16}
use decada_embedded_example.Optiga.Cmd.Apdu.{
  cmd_ok, Device, apdu, two_bytes, invalid_max_comms_buff_size,
}
use decada_embedded_example.Optiga.Cmd.Request.{Request, ready, sized, Field, written}
use decada_embedded_example.Optiga.Cmd.Request.Fields.{
  AllShort, fields_of, fields_of-written, count-le-written, size, length-written, transact-answered,
}
use decada_embedded_example.Optiga.Cmd.Toolbox.{
  KeySource, from_host, from_device, sign_request, sign_layout, calculate_sign, fetch, deliver,
  verify_request, verify_layout, verify_sign,
}
use decada_embedded_example.Optiga.Status.{lib_success}
use decada_embedded_example.Optiga.Crypt.Keys.{ecdsa_sign, ecdsa_verify}

-- A public key that the application hands over, or an object of the device with one.
pub data PublicKey : Type 0 where
  key_bytes : (curve : ℕ) (bytes : List ℕ) → PublicKey
  key_object : (oid : ℕ) → PublicKey

abbrev pub source_of : PublicKey → KeySource
source_of (key_bytes curve bytes) = from_host curve (some bytes)
source_of (key_object oid) = from_device oid

abbrev pub key_fields : PublicKey → List Field
key_fields (key_bytes curve bytes) = (5, u8 curve ∷ []) ∷ (6, bytes) ∷ []
key_fields (key_object oid) = (4, two_bytes oid) ∷ []

-- A device that signs with the private key of an object, and that accepts the signatures of the public
-- key. A signature has at most 115 bytes.
pub record Signs (device : Device) (private_oid : ℕ) (key : PublicKey)
    (Signed : List ℕ → List ℕ → Type 0) : Type 0 where
  pub signs :
      (history : List (List ℕ)) (payload digest : List ℕ)
      → fields_of (length payload) payload ≡ some ((1, digest) ∷ (3, two_bytes private_oid) ∷ [])
      → (a : ℕ) × (b : ℕ) × (c : ℕ) × (signature : List ℕ) × Signed digest signature
        × (length signature ≤ 115)
        × (device history (apdu 0x31 0x11 payload) ≡ some (0 ∷ a ∷ b ∷ c ∷ signature))
  pub accepts :
      (history : List (List ℕ)) (payload digest signature : List ℕ)
      → Signed digest signature
      → fields_of (length payload) payload ≡ some ((1, digest) ∷ (2, signature) ∷ key_fields key)
      → (a : ℕ) × (b : ℕ) × (c : ℕ) × (device history (apdu 0x32 0x11 payload)
          ≡ some (0 ∷ a ∷ b ∷ c ∷ []))

abbrev sign_command : ℕ → List ℕ → Request
sign_command private_oid digest = record {
  allocated = 4 + max (8 + length digest) 0x77;
  cmd = 0x31;
  param = 0x11;
  payload = written ((1, digest) ∷ (3, two_bytes private_oid) ∷ []);
}

abbrev verify_fields : PublicKey → List ℕ → List ℕ → List Field
verify_fields key digest signature = (1, digest) ∷ (2, signature) ∷ key_fields key

abbrev verify_command : PublicKey → List ℕ → List ℕ → Request
verify_command key digest signature = record {
  allocated = 4 + size (verify_fields key digest signature);
  cmd = 0x32;
  param = 0x11;
  payload = written (verify_fields key digest signature);
}

sign_prepared :
    (max_comms private_oid : ℕ) (digest buffer : List ℕ) (n : ℕ)
    → 131 + length digest ≤ max_comms
    → length digest < 256
    → sign_request max_comms
        (record { scheme = 0x11; key_oid = private_oid; digest = some digest })
        (record { stream = some buffer; len = n })
      ≡ ready (sign_command private_oid digest)
unfolding sign_request sign_layout sized
sign_prepared max_comms private_oid digest buffer n fits small = ground arith

verify_prepared :
    (max_comms : ℕ) (key : PublicKey) (digest signature : List ℕ)
    → 4 + size (verify_fields key digest signature) ≤ max_comms
    → max_comms < invalid_max_comms_buff_size
    → verify_request max_comms 0x11 (source_of key) (some digest) (some signature)
      ≡ ready (verify_command key digest signature)
unfolding verify_request verify_layout sized
verify_prepared max_comms (key_bytes curve bytes) digest signature fits small = ground arith
verify_prepared max_comms (key_object oid) digest signature fits small = ground arith

delivered :
    (buffer : List ℕ) (n a b c : ℕ) (answer : List ℕ)
    → length answer ≤ n
    → n < 2 ^ 16
    → deliver (record { stream = some buffer; len = n }) buffer (0 ∷ a ∷ b ∷ c ∷ answer)
      ≡ (cmd_ok, record { stream = some (copy_to buffer 0 answer); len = length answer })
unfolding deliver
delivered buffer n a b c answer fits small =
    let all_taken : sub16 (length (0 ∷ a ∷ b ∷ c ∷ answer)) 4 ≡ length answer = omega arith in
    let enough : ltb n (length answer) ≡ false = ltb-eq-false _ _ fits in
    let whole : take (length answer) answer ≡ answer =
      take_all (length answer) answer (omega arith) in
    rw (deliver, all_taken, enough, whole) refl

-- A signature that is made is in the caller's buffer.
pub sign_run :
    (device : Device) (max_comms private_oid : ℕ) (history : List (List ℕ)) (digest buffer : List ℕ)
    (n a b c : ℕ) (signature : List ℕ)
    → 131 + length digest ≤ max_comms
    → max_comms < invalid_max_comms_buff_size
    → length digest < 256
    → length signature ≤ 115
    → 115 ≤ n
    → n < 2 ^ 16
    → let command = apdu 0x31 0x11 (sign_command private_oid digest).payload in
      device history command ≡ some (0 ∷ a ∷ b ∷ c ∷ signature)
      → ecdsa_sign device max_comms true history (some digest) private_oid (some buffer) n
        ≡ some (
          lib_success,
          some (copy_to buffer 0 signature),
          length signature,
          history ++ (command ∷ []),
        )
unfolding ecdsa_sign calculate_sign fetch
sign_run device max_comms private_oid history digest buffer n a b c signature fits known small
      bounded room size16 e =
    let r = sign_command private_oid digest in
    let prepared = sign_prepared max_comms private_oid digest buffer n fits small in
    let len = length-written ((1, digest) ∷ (3, two_bytes private_oid) ∷ []) in
    let sent =
      transact-answered device max_comms history r (a ∷ b ∷ c ∷ signature) known
        (omega (arith, len)) e (omega arith) in
    let filled = delivered buffer n a b c signature (omega arith) size16 in
    rw (ecdsa_sign, calculate_sign, prepared, fetch, sent, filled) refl

-- A signature of the private key is accepted.
pub verify_run :
    (device : Device) (max_comms : ℕ) (key : PublicKey) (history : List (List ℕ))
    (digest signature : List ℕ) (a b c : ℕ)
    → 4 + size (verify_fields key digest signature) ≤ max_comms
    → max_comms < invalid_max_comms_buff_size
    → let command = apdu 0x32 0x11 (verify_command key digest signature).payload in
      device history command ≡ some (0 ∷ a ∷ b ∷ c ∷ [])
      → ecdsa_verify device max_comms true history (some digest) (some signature) (source_of key)
        ≡ some (lib_success, history ++ (command ∷ []))
unfolding ecdsa_verify verify_sign
verify_run device max_comms key history digest signature a b c fits known e =
    let r = verify_command key digest signature in
    let prepared = verify_prepared max_comms key digest signature fits known in
    let len = length-written (verify_fields key digest signature) in
    let sent =
      transact-answered device max_comms history r (a ∷ b ∷ c ∷ []) known (omega (arith, len)) e
        (omega arith) in
    rw (ecdsa_verify, verify_sign, prepared, sent) refl

-- The bytes of fields that are short are read back.
read_back : (fs : List Field) → AllShort fs → fields_of (length (written fs)) (written fs) ≡ some fs
read_back fs short = fields_of-written fs (length (written fs)) (count-le-written fs) short

verify_fields-AllShort :
    (key : PublicKey) (digest signature : List ℕ)
    → size (verify_fields key digest signature) < 2 ^ 16
    → AllShort (verify_fields key digest signature)
verify_fields-AllShort (key_bytes curve bytes) digest signature h = ground arith
verify_fields-AllShort (key_object oid) digest signature h = ground arith

start_taken :
    (buffer bytes : List ℕ)
    → length bytes ≤ length buffer
    → take (length bytes) (copy_to buffer 0 bytes) ≡ bytes
start_taken buffer bytes fits =
    ap (λ b. take (length bytes) b) (copy_to_start buffer bytes fits)
    ∙ take-append bytes (drop (length bytes) buffer)

-- The device signs with a private key and accepts its signatures with the public key; both commands fit
-- its buffer, and the caller's buffer has room for a signature. Then signing succeeds, and the bytes that
-- it leaves in the caller's buffer, in the length that it sets, are a signature of the digest which
-- the verification accepts, after any commands.
pub ecdsa_verify-ecdsa_sign :
    (device : Device) (max_comms private_oid : ℕ) (key : PublicKey)
    (Signed : List ℕ → List ℕ → Type 0) (history later : List (List ℕ)) (digest buffer : List ℕ)
    (n : ℕ)
    → Signs device private_oid key Signed
    → 131 + length digest ≤ max_comms
    → 119 + size (verify_fields key digest []) ≤ max_comms
    → max_comms < invalid_max_comms_buff_size
    → length digest < 256
    → 115 ≤ n
    → n ≤ length buffer
    → n < 2 ^ 16
    → (filled : List ℕ) × (len : ℕ) × (after : List (List ℕ)) × Signed digest (take len filled)
      × (ecdsa_sign device max_comms true history (some digest) private_oid (some buffer) n
          ≡ some (lib_success, some filled, len, after))
      × (last : List (List ℕ)) × (ecdsa_verify device max_comms true later
            (some digest)
            (some (take len filled))
            (source_of key)
          ≡ some (lib_success, last))
ecdsa_verify-ecdsa_sign device max_comms private_oid key Signed history later digest buffer n signs
      fits fits_verify known small room enough size16 =
    let sign_fields : List Field = (1, digest) ∷ (3, two_bytes private_oid) ∷ [] in
    let (a, b, c, signature, good, bounded, e) =
      signs.signs history (written sign_fields) digest
        (read_back sign_fields (omega arith, (omega arith, tt))) in
    let run =
      sign_run device max_comms private_oid history digest buffer n a b c signature fits known small
        bounded room size16 e in
    let within : size (verify_fields key digest signature)
        ≤ size (verify_fields key digest []) + 115 =
      omega arith in
    let short = verify_fields-AllShort key digest signature (omega (arith, within)) in
    let (p, q, r, accepted) =
      signs.accepts later (written (verify_fields key digest signature)) digest signature good
        (read_back (verify_fields key digest signature) short) in
    let last =
      verify_run device max_comms key later digest signature p q r (omega (arith, within)) known
        accepted in
    let back : take (length signature) (copy_to buffer 0 signature) ≡ signature =
      start_taken buffer signature (omega arith) in
    (
      copy_to buffer 0 signature,
      length signature,
      history ++ (apdu 0x31 0x11 (sign_command private_oid digest).payload ∷ []),
      subst (λ s. Signed digest s) (sym back) good,
      run,
      later ++ (apdu 0x32 0x11 (verify_command key digest signature).payload ∷ []),
      ap (λ s. ecdsa_verify device max_comms true later (some digest) (some s) (source_of key)) back
          ∙ last,
    )
