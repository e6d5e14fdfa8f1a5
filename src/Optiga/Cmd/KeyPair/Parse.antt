-- ===== src/Optiga/Cmd/KeyPair/Parse.antt =====
-- What `CmdLib_GenerateKeyPair` makes of a well-formed answer.
use mathlib.Core.List.{append_assoc}
use decada_embedded_example.Base.{
  ℕ, zero, suc, ◌+◌, ◌*◌, ◌/◌, ◌%◌, ◌^◌, ◌≤◌, ◌<◌, ◌≡◌, refl, sym, ap, ◌∙◌, List, [], ◌∷◌, ◌++◌,
  true, false, some, length, length-append, take, take-append, drop, drop-append, drop-drop, get_or,
  get_or-append, copy_to, ltb, ltb-eq-false, ◌==◌, Bool-cases, inl, inr, if◌then◌else◌, arith,
}
use decada_embedded_example.Base.Word.{u8, u16, ◌>>>◌, ◌<<<◌}
use decada_embedded_example.Base.Word.Bits.{or_fields}
use decada_embedded_example.Optiga.Util.Bytes.{get_uint16}
use decada_embedded_example.Optiga.Cmd.Apdu.{CmdStatus, cmd_ok, insufficient_memory}
use decada_embedded_example.Optiga.Cmd.Request.{tlv, Field, written}
use decada_embedded_example.Optiga.Cmd.Request.Fields.{AllShort, count, size}
use decada_embedded_example.Optiga.Cmd.KeyPair.{KeyPair, read_keys}

-- The memory of the caller: two buffers with their room.
pub record Keys : Type 0 where
  pub public_bytes : List ℕ
  pub public_room : ℕ
  pub private_bytes : List ℕ
  pub private_room : ℕ

abbrev pub as_pair : Keys → KeyPair
as_pair k = record {
  public_key = record { stream = some k.public_bytes; len = k.public_room };
  private_key = record { stream = some k.private_bytes; len = k.private_room };
}

-- A field with tag 2 is the public key, any other the private key.
abbrev pub room_for : ℕ → Keys → ℕ
room_for tag k = if tag == 2 then k.public_room else k.private_room

abbrev pub with_key : ℕ → List ℕ → Keys → Keys
with_key tag value k =
    if tag == 2
    then record k { public_bytes = copy_to k.public_bytes 0 value; public_room = length value }
    else record k { private_bytes = copy_to k.private_bytes 0 value; private_room = length value }

-- The keys of the fields are taken in order, up to the first that has no room.
abbrev pub keys_from : List Field → Keys → CmdStatus × Keys
keys_from [] k = (cmd_ok, k)
keys_from ((tag, value) ∷ fs) k =
    let rest = keys_from fs (with_key tag value k) in
    if ltb (room_for tag k) (length value) then (insufficient_memory, k) else rest

abbrev pub paired : CmdStatus × Keys → CmdStatus × KeyPair
paired (s, k) = (s, as_pair k)

tag_at : (pre rest : List ℕ) (t : ℕ) → get_or (pre ++ (t ∷ rest)) (length pre) 0 ≡ t
tag_at [] rest t = refl
tag_at (x ∷ pre) rest t = tag_at pre rest t

len_at :
    (pre rest : List ℕ) (t n : ℕ)
    → n < 2 ^ 16
    → get_uint16 (pre ++ (t ∷ u8 (n >>> 8) ∷ u8 n ∷ rest)) (length pre + 1) ≡ n
unfolding get_uint16
len_at pre rest t n small =
    let bytes = t ∷ u8 (n >>> 8) ∷ u8 n ∷ rest in
    let high = get_or-append pre bytes 1 0 in
    let low : get_or (pre ++ bytes) (length pre + 1 + 1) 0 ≡ u8 n =
      ap (λ i. get_or (pre ++ bytes) i 0) (omega arith) ∙ get_or-append pre bytes 2 0 in
    let small_low : u16 (u8 n) ≡ n % 2 ^ 8 = omega arith in
    let large : u16 (u8 (n >>> 8) <<< 8) ≡ n / 2 ^ 8 * 2 ^ 8 = omega arith in
    rw (get_uint16, high, low, small_low, large)
      (or_fields 8 (n / 2 ^ 8) (n % 2 ^ 8) (omega arith) ∙ omega arith)

value_at :
    (pre value rest : List ℕ) (t : ℕ)
    → take (length value) (drop (length pre + 3) (pre ++ (tlv t value ++ rest))) ≡ value
value_at pre value rest t =
    ap (λ b. take (length value) b)
      (sym (drop-drop 3 (length pre) (pre ++ (tlv t value ++ rest)))
        ∙ ap (λ b. drop 3 b) (drop-append pre (tlv t value ++ rest)))
    ∙ take-append value rest

key_step :
    (fuel resp_len tag : ℕ) (pre value tail : List ℕ) (k : Keys)
    → length value < 2 ^ 16
    → let memory = pre ++ (tlv tag value ++ tail) in
      let next = u16 (length pre + (length value + 3)) in
      read_keys (suc fuel) memory resp_len (length pre) (as_pair k) ≡ (
        if ltb (room_for tag k) (length value)
        then some (insufficient_memory, as_pair k)
        else if next == resp_len
        then some (cmd_ok, as_pair (with_key tag value k))
        else read_keys fuel memory resp_len next (as_pair (with_key tag value k)))
unfolding read_keys
key_step fuel resp_len tag pre value tail k short =
    let memory = pre ++ (tlv tag value ++ tail) in
    let long = length-append pre (tlv tag value ++ tail) in
    let more = length-append value tail in
    let tag_is = tag_at pre (u8 (length value >>> 8) ∷ u8 (length value) ∷ (value ++ tail)) tag in
    let len_is = len_at pre (value ++ tail) tag (length value) short in
    let value_is = value_at pre value tail tag in
    let header : ltb (length memory) (length pre + 3) ≡ false =
      ltb-eq-false _ _ (omega (arith, long, more)) in
    let whole : ltb (length memory) (length pre + (length value + 3)) ≡ false =
      ltb-eq-false _ _ (omega (arith, long, more)) in
    elim (Bool-cases (tag == 2)) [
      | inl public_key ↦
          rw (read_keys, tag_is, public_key, tag_is, public_key, len_is, value_is, header, whole)
            refl
      | inr private_key ↦
          rw (read_keys, tag_is, private_key, tag_is, private_key, len_is, value_is, header, whole)
            refl
    ]

-- Fields with what follows them.
abbrev pub laid : List Field → List ℕ → List ℕ
laid [] post = post
laid ((tag, value) ∷ fs) post = tlv tag value ++ laid fs post

pub laid_lem : (fs : List Field) (post : List ℕ) → laid fs post ≡ written fs ++ post
laid_lem [] post = refl
laid_lem ((tag, value) ∷ fs) post =
    ap (λ r. tlv tag value ++ r) (laid_lem fs post)
    ∙ sym (append_assoc (tlv tag value) (written fs) post)

pub read_fields :
    (tag : ℕ) (value : List ℕ) (fs : List Field) (fuel : ℕ) (pre post : List ℕ) (k : Keys)
    → AllShort ((tag, value) ∷ fs)
    → length pre + size ((tag, value) ∷ fs) < 2 ^ 16
    → count ((tag, value) ∷ fs) ≤ fuel
    → read_keys fuel
        (pre ++ laid ((tag, value) ∷ fs) post)
        (length pre + size ((tag, value) ∷ fs))
        (length pre)
        (as_pair k)
      ≡ some (paired (keys_from ((tag, value) ∷ fs) k))
read_fields tag value fs zero pre post k short fits enough = absurd (omega arith)
read_fields tag value [] (suc fuel) pre post k (short, _) fits enough =
    let step = key_step fuel (length pre + size ((tag, value) ∷ [])) tag pre value post k short in
    let last : (u16 (length pre + (length value + 3)) == length pre + (3 + length value + 0))
        ≡ true =
      ground arith in
    elim (Bool-cases (ltb (room_for tag k) (length value))) [
      | inl tight ↦ step ∙ rw tight refl
      | inr fits_room ↦ step ∙ rw (fits_room, last) refl
    ]
read_fields tag value ((t, v) ∷ fs) (suc fuel) pre post k (short, shorts) fits enough =
    let all = length pre + size ((tag, value) ∷ (t, v) ∷ fs) in
    let rest = laid ((t, v) ∷ fs) post in
    let step = key_step fuel all tag pre value rest k short in
    let next_is : u16 (length pre + (length value + 3)) ≡ length pre + (length value + 3) =
      omega arith in
    let more : (length pre + (length value + 3) == all) ≡ false = ground arith in
    let here = pre ++ tlv tag value in
    let pos : length here ≡ length pre + (length value + 3) =
      omega (arith, length-append pre (tlv tag value)) in
    let total : length here + size ((t, v) ∷ fs) ≡ all = omega (arith, pos) in
    let ih =
      read_fields t v fs fuel here post (with_key tag value k) shorts (omega (arith, pos))
        (omega arith) in
    let same : here ++ rest ≡ pre ++ (tlv tag value ++ rest) =
      append_assoc pre (tlv tag value) rest in
    let later : read_keys fuel (pre ++ (tlv tag value ++ rest)) all
          (length pre + (length value + 3)) (as_pair (with_key tag value k))
        ≡ some (paired (keys_from ((t, v) ∷ fs) (with_key tag value k))) =
      rw (← same, ← total, ← pos) ih in
    elim (Bool-cases (ltb (room_for tag k) (length value))) [
      | inl tight ↦ step ∙ rw tight refl
      | inr fits_room ↦ step ∙ rw (fits_room, next_is, more) later
    ]
