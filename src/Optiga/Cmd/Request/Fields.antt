-- ===== src/Optiga/Cmd/Request/Fields.antt =====
-- The tagged fields of a payload, read from its bytes, and the requests whose bytes hold given fields.
use decada_embedded_example.Base.{
  ℕ, zero, suc, ◌+◌, ◌-◌, ◌*◌, ◌≤◌, ◌<◌, ◌^◌, ◌≡◌, refl, sym, ap, subst, ◌∙◌, List, [], ◌∷◌, ◌++◌,
  true, false, Option, none, some, length, length-append, copy_to_start, take, take-append, drop,
  drop-append, ltb, ltb-eq-false, ◌==◌, if◌then◌else◌, arith,
}
use decada_embedded_example.Base.Word.{u8, ◌>>>◌}
use decada_embedded_example.Optiga.Cmd.Apdu.{
  apdu, cmd_ok, Device, transceive_apdu, invalid_max_comms_buff_size,
}
use decada_embedded_example.Optiga.Cmd.Request.{
  tlv, Field, written, Request, ready, sized, unwritten, held, transact,
}

abbrev pub prepend : Field → Option (List Field) → Option (List Field)
prepend f none = none
prepend f (some fs) = some (f ∷ fs)

-- A reader of tags with two bytes of length; `none` when the bytes end inside a field.
unfoldable pub fields_of : ℕ → List ℕ → Option (List Field)
fields_of fuel [] = some []
fields_of (suc fuel) (tag ∷ l1 ∷ l0 ∷ rest) =
    let n = l1 * 256 + l0 in
    let more = fields_of fuel (drop n rest) in
    if ltb (length rest) n then none else prepend (tag, take n rest) more
fields_of fuel bytes = none

abbrev pub AllShort : List Field → Type 0
AllShort [] = Unit
AllShort ((tag, value) ∷ fs) = (length value < 2 ^ 16) × AllShort fs

abbrev pub count : List Field → ℕ
count [] = 0
count (f ∷ fs) = suc (count fs)

fields_of-tlv :
    (fuel tag : ℕ) (value rest : List ℕ)
    → length value < 2 ^ 16
    → fields_of (suc fuel) (tlv tag value ++ rest) ≡ prepend (tag, value) (fields_of fuel rest)
unfolding fields_of
fields_of-tlv fuel tag value rest short =
    let n_is : u8 (length value >>> 8) * 256 + u8 (length value) ≡ length value = omega arith in
    let enough : ltb (length (value ++ rest)) (length value) ≡ false =
      ground (arith, length-append value rest) in
    rw (n_is, enough, take-append value rest, drop-append value rest) refl

-- Fields that are written are read back.
pub fields_of-written :
    (fs : List Field) (fuel : ℕ)
    → count fs ≤ fuel
    → AllShort fs
    → fields_of fuel (written fs) ≡ some fs
unfolding fields_of
fields_of-written [] fuel enough short = refl
fields_of-written ((tag, value) ∷ fs) zero enough short = absurd (omega arith)
fields_of-written ((tag, value) ∷ fs) (suc fuel) enough (short, shorts) =
    fields_of-tlv fuel tag value (written fs) short
    ∙ rw (fields_of-written fs fuel (omega arith) shorts) refl

-- A request that is within its buffer and the device's, and whose payload reads back as the fields.
pub record Holds (max_comms : ℕ) (r : Request) (fs : List Field) : Type 0 where
  pub in_buffer : 4 + length r.payload ≤ r.allocated
  pub in_device : 4 + length r.payload ≤ max_comms
  pub fields : fields_of (length r.payload) r.payload ≡ some fs

-- The number of bytes of fields.
abbrev pub size : List Field → ℕ
size [] = 0
size ((tag, value) ∷ fs) = 3 + length value + size fs

pub length-written : (fs : List Field) → length (written fs) ≡ size fs
length-written [] = refl
length-written ((tag, value) ∷ fs) =
    omega (arith, length-written fs, length-append value (written fs))

count-le-size : (fs : List Field) → count fs ≤ size fs
count-le-size [] = omega arith
count-le-size ((tag, value) ∷ fs) = omega (arith, count-le-size fs)

pub count-le-written : (fs : List Field) → count fs ≤ length (written fs)
count-le-written fs = omega (arith, length-written fs, count-le-size fs)

-- A request with the fields as its payload.
pub written-Holds :
    (max_comms : ℕ) (r : Request) (fs : List Field)
    → r.payload ≡ written fs
    → 4 + size fs ≤ r.allocated
    → 4 + size fs ≤ max_comms
    → AllShort fs
    → Holds max_comms r fs
written-Holds max_comms r fs e fits fits_device short =
    let long = length-written fs in
    let len : length r.payload ≡ size fs = ap length e ∙ long in
    record {
      in_buffer = omega (arith, len);
      in_device = omega (arith, len);
      fields =
          subst (λ p. fields_of (length p) p ≡ some fs) (sym e)
            (fields_of-written fs (length (written fs)) (omega (arith, long, count-le-size fs))
              short);
    }

pub sized-ready :
    (max_comms : ℕ) (r s : Request)
    → sized max_comms r ≡ ready s
    → (r ≡ s) × (r.allocated ≤ max_comms)
unfolding sized
sized-ready max_comms r s h = ground arith

length-unwritten : (n : ℕ) → length (unwritten n) ≡ n
length-unwritten zero = refl
length-unwritten (suc n) = ap suc (length-unwritten n)

pub held_room :
    (command : List ℕ) (allocated n : ℕ)
    → n ≤ allocated
    → n ≤ length (command ++ unwritten (allocated - length command))
held_room command allocated n h = omega (
  arith,
  length-append command (unwritten (allocated - length command)),
  length-unwritten (allocated - length command),
)

-- The buffer starts with the answer.
pub held_start :
    (r : Request) (response : List ℕ)
    → length response ≤ r.allocated
    → let command = apdu r.cmd r.param r.payload in
      let buffer = command ++ unwritten (r.allocated - length command) in
      held r response ≡ response ++ drop (length response) buffer
held_start r response fits =
    let command = apdu r.cmd r.param r.payload in
    let buffer = command ++ unwritten (r.allocated - length command) in
    copy_to_start buffer response (held_room command r.allocated (length response) fits)

-- A command in its buffer, whose answer fits it too.
pub transact-answered :
    (device : Device) (max_comms : ℕ) (history : List (List ℕ)) (r : Request) (answer : List ℕ)
    → max_comms < invalid_max_comms_buff_size
    → 4 + length r.payload ≤ r.allocated
    → device history (apdu r.cmd r.param r.payload) ≡ some (0 ∷ answer)
    → suc (length answer) ≤ r.allocated
    → transact device max_comms true history r
      ≡ some (cmd_ok, 0 ∷ answer, history ++ (apdu r.cmd r.param r.payload ∷ []))
unfolding transact transceive_apdu
transact-answered device max_comms history r answer known fits e fits_answer =
    let known_size : (max_comms == invalid_max_comms_buff_size) ≡ false = ground arith in
    let inside : ltb r.allocated (4 + length r.payload) ≡ false = ltb-eq-false _ _ fits in
    let answered : ltb r.allocated (suc (length answer)) ≡ false = ltb-eq-false _ _ fits_answer in
    rw (transact, known_size, inside, transceive_apdu, e, answered) refl
