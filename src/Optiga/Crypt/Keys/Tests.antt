-- ===== src/Optiga/Crypt/Keys/Tests.antt =====
-- A signature with a concrete device.
use decada_embedded_example.Base.{
  ℕ, ◌≡◌, refl, ap, ◌∙◌, List, [], ◌∷◌, true, Option, some, length, take, drop, get_or, ◌==◌,
  if◌then◌else◌, arith,
}
use decada_embedded_example.Optiga.Cmd.Apdu.{Device}
use decada_embedded_example.Optiga.Cmd.Request.{Field, unwritten}
use decada_embedded_example.Optiga.Cmd.Request.Fields.{fields_of}
use decada_embedded_example.Optiga.Status.{lib_success}
use decada_embedded_example.Optiga.Crypt.Keys.{ecdsa_sign, ecdsa_verify}
use decada_embedded_example.Optiga.Crypt.Keys.Sign.{
  key_object, Signs, source_of, ecdsa_verify-ecdsa_sign,
}

-- Its signature of a digest is the digest's first byte.
abbrev first_byte : List ℕ → List ℕ
first_byte digest = get_or digest 0 0 ∷ []

abbrev FirstByte : List ℕ → List ℕ → Type 0
FirstByte digest signature = signature ≡ first_byte digest

abbrev check_answer : List ℕ → List Field → List ℕ
check_answer digest ((tag, signature) ∷ fs) =
    if get_or signature 0 0 == get_or digest 0 0 then 0 ∷ 0 ∷ 0 ∷ 0 ∷ [] else 0xff ∷ []
check_answer digest [] = 0xff ∷ []

abbrev signer_answer : ℕ → Option (List Field) → List ℕ
signer_answer cmd (some ((tag, digest) ∷ fs)) =
    if cmd == 0x31 then 0 ∷ 0 ∷ 0 ∷ 1 ∷ first_byte digest else check_answer digest fs
signer_answer cmd other = 0xff ∷ []

abbrev signer : Device
signer history command =
    some (signer_answer (get_or command 0 0) (fields_of (length (drop 4 command)) (drop 4 command)))

same_byte : (x : ℕ) → (x == x) ≡ true
same_byte x = ground arith

signer-Signs : Signs signer 0xe0f0 (key_object 0xe0e0) FirstByte
signer-Signs = record {
  signs = λ history payload digest e.
      (0, 0, 1, first_byte digest, refl, omega arith, ap (λ f. some (signer_answer 0x31 f)) e);
  accepts = λ history payload digest signature good e. (
    0,
    0,
    0,
    ap (λ f. some (signer_answer 0x32 f)) e ∙ rw (good, same_byte (get_or digest 0 0)) refl,
  );
}

ecdsa_verify-ecdsa_sign_example :
    (filled : List ℕ) × (len : ℕ) × (after : List (List ℕ)) × FirstByte
      (7 ∷ 8 ∷ [])
      (take len filled)
    × (ecdsa_sign signer 300 true [] (some (7 ∷ 8 ∷ [])) 0xe0f0 (some (unwritten 120)) 120
        ≡ some (lib_success, some filled, len, after))
    × (last : List (List ℕ)) × (ecdsa_verify signer 300 true []
          (some (7 ∷ 8 ∷ []))
          (some (take len filled))
          (source_of (key_object 0xe0e0))
        ≡ some (lib_success, last))
ecdsa_verify-ecdsa_sign_example =
    ecdsa_verify-ecdsa_sign signer 300 0xe0f0 (key_object 0xe0e0) FirstByte [] [] (7 ∷ 8 ∷ [])
      (unwritten 120) 120 signer-Signs (omega arith) (omega arith) (omega arith) (omega arith)
      (omega arith) (omega arith) (omega arith)
