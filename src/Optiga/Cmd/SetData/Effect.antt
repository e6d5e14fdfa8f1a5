-- ===== src/Optiga/Cmd/SetData/Effect.antt =====
-- What the commands of `CmdLib_SetDataObject` do to a data object, read from their bytes.
use decada_embedded_example.Base.{
  ℕ, suc, ◌+◌, ◌*◌, ◌^◌, ◌≤◌, ◌<◌, ◌≡◌, ◌≢◌, refl, sym, ap, ◌∙◌, List, [], ◌∷◌, ◌++◌, true, ◌&&◌,
  some, length, get_or, copy_to, set, ◌==◌, if◌then◌else◌, arith,
}
use decada_embedded_example.Base.Word.{u8, ◌>>>◌}
use decada_embedded_example.Optiga.Cmd.Apdu.{
  cmd_ok, Device, cmd_setdata, two_bytes, apdu, transceive_apdu,
}
use decada_embedded_example.Optiga.Cmd.SetData.{chained, overhead}

-- What a command writes into the data object `oid`, read from its bytes.
abbrev pub put : ℕ → List ℕ → List ℕ → List ℕ
put oid object (cmd ∷ param ∷ l1 ∷ l0 ∷ o1 ∷ o0 ∷ f1 ∷ f0 ∷ bytes) =
    if cmd == 2 && o1 * 256 + o0 == oid then copy_to object (f1 * 256 + f0) bytes else object
put oid object command = object

abbrev pub stored : ℕ → List ℕ → List (List ℕ) → List ℕ
stored oid object [] = object
stored oid object (command ∷ rest) = stored oid (put oid object command) rest

abbrev pub AllFit : ℕ → List (List ℕ) → Type 0
AllFit size [] = Unit
AllFit size (command ∷ rest) = (length command ≤ size) × AllFit size rest

-- The parameter of the first command, and that of those after it.
abbrev pub Params : ℕ → ℕ → List (List ℕ) → Type 0
Params first later [] = Unit
Params first later (command ∷ rest) = (get_or command 1 0 ≡ first) × Params later later rest

-- The parameter of the commands after the first: they only write.
abbrev pub no_erase : ℕ → ℕ
no_erase param = if param == 0x40 then 0 else param

-- The device takes every command that writes.
abbrev pub Accepts : Device → Type 0
Accepts device =
    (history : List (List ℕ)) (param : ℕ) (payload : List ℕ)
    → (rest : List ℕ) × (device history (apdu cmd_setdata param payload) ≡ some (0 ∷ rest))

-- The commands `sent` write `bytes` from `offset` on.
pub record Writes (size oid offset first later : ℕ) (bytes : List ℕ) (sent : List (List ℕ))
    : Type 0 where
  pub fit : AllFit size sent
  pub params : Params first later sent
  pub effect : (object : List ℕ) → stored oid object sent ≡ copy_to object offset bytes

pub copy_to-append_source :
    (buf xs ys : List ℕ) (i : ℕ)
    → copy_to buf i (xs ++ ys) ≡ copy_to (copy_to buf i xs) (i + length xs) ys
copy_to-append_source buf [] ys i = ap (λ j. copy_to buf j ys) (omega arith)
copy_to-append_source buf (x ∷ xs) ys i =
    copy_to-append_source (set buf i x) xs ys (suc i)
    ∙ ap (λ j. copy_to (copy_to (set buf i x) (suc i) xs) j ys) (omega arith)

abbrev pub piece : ℕ → ℕ → ℕ → List ℕ → List ℕ
piece oid param offset bytes = apdu cmd_setdata param (two_bytes oid ++ (two_bytes offset ++ bytes))

put-piece :
    (oid param offset : ℕ) (object bytes : List ℕ)
    → oid < 2 ^ 16
    → offset < 2 ^ 16
    → put oid object (piece oid param offset bytes) ≡ copy_to object offset bytes
put-piece oid param offset object bytes small_oid small_offset =
    let oid_is : u8 (oid >>> 8) * 256 + u8 oid ≡ oid = omega arith in
    let offset_is : u8 (offset >>> 8) * 256 + u8 offset ≡ offset = omega arith in
    rw offset_is (ground (arith, oid_is))

pub transceive-accepted :
    (device : Device) (history : List (List ℕ)) (param : ℕ) (payload : List ℕ)
    → Accepts device
    → (response : List ℕ) × (transceive_apdu device true history cmd_setdata param payload
        ≡ (cmd_ok, response, history ++ (apdu cmd_setdata param payload ∷ [])))
unfolding transceive_apdu
transceive-accepted device history param payload accepts =
    let (rest, e) = accepts history param payload in (0 ∷ rest, rw (transceive_apdu, e) refl)

chained-later : (param total : ℕ) → total ≢ 0 → chained param total ≡ chained param 1
chained-later param total h = ground arith

pub chained-chained :
    (param total more : ℕ) → more ≢ 0 → chained (chained param total) more ≡ chained param 1
chained-chained param total more h = ground arith

-- A piece before the commands that write what follows it.
pub one_more :
    (size oid first later offset : ℕ) (part rest : List ℕ) (sent : List (List ℕ))
    → oid < 2 ^ 16
    → offset < 2 ^ 16
    → length part + overhead ≤ size
    → Writes size oid (offset + length part) later later rest sent
    → Writes size oid offset first later (part ++ rest) (piece oid first offset part ∷ sent)
one_more size oid first later offset part rest sent small_oid small fits w = record {
  fit = (omega arith, w.fit);
  params = (refl, w.params);
  effect = λ object.
      ap (λ o. stored oid o sent) (put-piece oid first offset object part small_oid small)
      ∙ w.effect (copy_to object offset part)
      ∙ sym (copy_to-append_source object part rest offset);
}

-- The last piece.
pub last_one :
    (size oid first later offset : ℕ) (part : List ℕ)
    → oid < 2 ^ 16
    → offset < 2 ^ 16
    → length part + overhead ≤ size
    → Writes size oid offset first later part (piece oid first offset part ∷ [])
last_one size oid first later offset part small_oid small fits = record {
  fit = (omega arith, tt);
  params = (refl, tt);
  effect = λ object. put-piece oid first offset object part small_oid small;
}
