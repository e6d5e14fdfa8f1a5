-- ===== src/Optiga/Objects/Tests.antt =====
-- A write and a read with a device that keeps an object.
use decada_embedded_example.Base.{
  ℕ, zero, suc, ◌+◌, ◌*◌, ◌≡◌, refl, List, [], ◌∷◌, ◌++◌, true, false, some, length, take, drop,
  ltb, if◌then◌else◌, arith,
}
use decada_embedded_example.Base.Word.{u8, ◌>>>◌}
use decada_embedded_example.Optiga.Status.{lib_success}
use decada_embedded_example.Optiga.Cmd.Apdu.{Device}
use decada_embedded_example.Optiga.Cmd.SetData.Effect.{stored}
use decada_embedded_example.Optiga.Objects.{read_data, write_data}
use decada_embedded_example.Optiga.Objects.RoundTrip.{Stores, read_data-write_data}

-- It takes every write, and answers a read from what the writes before made of the object.
abbrev keeper : ℕ → List ℕ → Device
keeper oid initial history (suc zero ∷ param ∷ l1 ∷ l0 ∷ o1 ∷ o0 ∷ f1 ∷ f0 ∷ n1 ∷ n0 ∷ []) =
    let object = stored oid initial history in
    if ltb (f1 * 256 + f0) (length object)
    then some (0 ∷ 0 ∷ 0 ∷ 0 ∷ take (n1 * 256 + n0) (drop (f1 * 256 + f0) object))
    else some (255 ∷ [])
keeper oid initial history command = some (0 ∷ 0 ∷ 0 ∷ 1 ∷ 8 ∷ [])

keeper-Stores : (oid : ℕ) (initial : List ℕ) → Stores (keeper oid initial) oid initial
keeper-Stores oid initial = record {
  accepts = λ history param payload. (0 ∷ 0 ∷ 1 ∷ 8 ∷ [], refl);
  inside = λ history offset n plain small small_n h.
      let offset_is : u8 (offset >>> 8) * 256 + u8 offset ≡ offset = omega arith in
      let n_is : u8 (n >>> 8) * 256 + u8 n ≡ n = omega arith in
      let there : ltb offset (length (stored oid initial history)) ≡ true = ground arith in
      (0, 0, 0, rw (offset_is, n_is, there) refl);
  behind = λ history offset n plain small small_n h.
      let offset_is : u8 (offset >>> 8) * 256 + u8 offset ≡ offset = omega arith in
      let gone : ltb offset (length (stored oid initial history)) ≡ false = ground arith in
      (254, [], rw (offset_is, gone) refl);
  error = λ history plain. (0, 0, 1, [], refl);
}

abbrev zeros_of_five : List ℕ
zeros_of_five = 0 ∷ 0 ∷ 0 ∷ 0 ∷ 0 ∷ []

abbrev three : List ℕ
three = 21 ∷ 22 ∷ 23 ∷ []

-- The device's buffer has room for two bytes of a write and six of a read.
read_data-write_data_example :
    (sent : List (List ℕ)) × (write_data
        (keeper 0xf1d0 zeros_of_five)
        10
        true
        []
        0xf1d0
        0
        1
        (some three)
      ≡ some (lib_success, [] ++ sent))
    × (read_data
          (keeper 0xf1d0 zeros_of_five)
          10
          true
          ([] ++ sent)
          0xf1d0
          1
          (some (7 ∷ 7 ∷ 7 ∷ 7 ∷ []))
          (some 3)
        ≡ some (lib_success, 21 ∷ 22 ∷ 23 ∷ 7 ∷ [], 3))
read_data-write_data_example =
    read_data-write_data (keeper 0xf1d0 zeros_of_five) 0xf1d0 10 1 zeros_of_five three
      (7 ∷ 7 ∷ 7 ∷ 7 ∷ []) [] (keeper-Stores 0xf1d0 zeros_of_five) tt (omega arith) (omega arith)
      (omega arith) (omega arith) (omega arith) (omega arith) (omega arith)
