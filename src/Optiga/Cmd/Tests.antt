-- ===== src/Optiga/Cmd/Tests.antt =====
-- Writes of data objects with concrete devices.
use decada_embedded_example.Base.Word.{u8, ◌>>>◌}
use decada_embedded_example.Base.{
  ◌*◌, ◌+◌, ltb, take, drop, false, ℕ, ◌≡◌, refl, List, [], ◌∷◌, ◌++◌, true, some, length, ◌==◌,
  if◌then◌else◌, arith,
}
use decada_embedded_example.Optiga.Cmd.Apdu.{
  cmd_ok, dev_error, Device, transceive_apdu, get_device_error,
}
use decada_embedded_example.Optiga.Cmd.SetData.{
  SetData, e_data, e_erase_and_write, param_set_data_erase, write_pieces, set_data_object,
}
use decada_embedded_example.Optiga.Cmd.SetData.Effect.{Accepts, Writes}
use decada_embedded_example.Optiga.Cmd.SetData.Store.{set_data_object-Writes}
use decada_embedded_example.Optiga.Cmd.GetData.{GetData, get_data_object, read_pieces, finish}
use decada_embedded_example.Optiga.Cmd.GetData.Serve.{Serves}
use decada_embedded_example.Optiga.Cmd.GetData.Read.{reads_object}

-- It takes every command.
abbrev open_device : Device
open_device history command = some (0 ∷ 0 ∷ 0 ∷ 0 ∷ [])

open_device-Accepts : Accepts open_device
open_device-Accepts history param payload = (0 ∷ 0 ∷ 0 ∷ [], refl)

abbrev five_bytes : List ℕ
five_bytes = 11 ∷ 12 ∷ 13 ∷ 14 ∷ 15 ∷ []

abbrev five_to_write : SetData
five_to_write = record {
  oid = 0xf1d0;
  offset = 3;
  bytes = some five_bytes;
  data_or_mdata = e_data;
  write_option = e_erase_and_write;
}

-- In a buffer of 10 bytes there is room for pieces of 2; only the first command erases.
five_in_three :
    set_data_object open_device 10 true [] five_to_write
    ≡ some (
      cmd_ok,
      (2 ∷ 0x40 ∷ 0 ∷ 6 ∷ 0xf1 ∷ 0xd0 ∷ 0 ∷ 3 ∷ 11 ∷ 12 ∷ [])
          ∷ (2 ∷ 0 ∷ 0 ∷ 6 ∷ 0xf1 ∷ 0xd0 ∷ 0 ∷ 5 ∷ 13 ∷ 14 ∷ [])
          ∷ (2 ∷ 0 ∷ 0 ∷ 5 ∷ 0xf1 ∷ 0xd0 ∷ 0 ∷ 7 ∷ 15 ∷ [])
          ∷ [],
    )
unfolding set_data_object write_pieces transceive_apdu get_device_error
five_in_three = refl

-- It refuses the second command and then gives 8 as its error.
abbrev full_device : Device
full_device history command =
    if length history == 1 then some (0xff ∷ []) else some (0 ∷ 0 ∷ 0 ∷ 1 ∷ 8 ∷ [])

stops_at_refusal :
    set_data_object full_device 10 true [] five_to_write
    ≡ some (
      dev_error 8,
      (2 ∷ 0x40 ∷ 0 ∷ 6 ∷ 0xf1 ∷ 0xd0 ∷ 0 ∷ 3 ∷ 11 ∷ 12 ∷ [])
          ∷ (2 ∷ 0 ∷ 0 ∷ 6 ∷ 0xf1 ∷ 0xd0 ∷ 0 ∷ 5 ∷ 13 ∷ 14 ∷ [])
          ∷ (1 ∷ 0 ∷ 0 ∷ 2 ∷ 0xf1 ∷ 0xc2 ∷ [])
          ∷ [],
    )
unfolding set_data_object write_pieces transceive_apdu get_device_error
stops_at_refusal = refl

set_data_object-Writes_example :
    (sent : List (List ℕ)) × (set_data_object open_device 10 true [] five_to_write
      ≡ some (cmd_ok, [] ++ sent))
    × Writes 10 0xf1d0 3 param_set_data_erase 0 five_bytes sent
set_data_object-Writes_example =
    set_data_object-Writes open_device 10 [] five_to_write five_bytes param_set_data_erase
      open_device-Accepts (omega arith) (omega arith) refl (omega arith) refl (omega arith)
      (omega arith)

-- It holds one object, and answers a question for its error with 8.
abbrev holder : List ℕ → Device
holder object history (cmd ∷ param ∷ l1 ∷ l0 ∷ o1 ∷ o0 ∷ f1 ∷ f0 ∷ n1 ∷ n0 ∷ []) =
    if ltb (f1 * 256 + f0) (length object)
    then some (0 ∷ 0 ∷ 0 ∷ 0 ∷ take (n1 * 256 + n0) (drop (f1 * 256 + f0) object))
    else some (255 ∷ [])
holder object history command = some (0 ∷ 0 ∷ 0 ∷ 1 ∷ 8 ∷ [])

holder-Serves :
    (oid : ℕ) (object : List ℕ) → Serves (holder object) oid object (λ history. Unit {0})
holder-Serves oid object = record {
  inside = λ history offset n good small small_n h.
      let offset_is : u8 (offset >>> 8) * 256 + u8 offset ≡ offset = omega arith in
      let n_is : u8 (n >>> 8) * 256 + u8 n ≡ n = omega arith in
      let there : ltb offset (length object) ≡ true = ground arith in
      (0, 0, 0, rw (offset_is, n_is, there) refl);
  behind = λ history offset n good small small_n h.
      let offset_is : u8 (offset >>> 8) * 256 + u8 offset ≡ offset = omega arith in
      let gone : ltb offset (length object) ≡ false = ground arith in
      (254, [], rw (offset_is, gone) refl);
  error = λ history good. (0, 0, 1, [], refl);
  kept = λ history param payload good. tt;
}

abbrev six_to_read : GetData
six_to_read = record { oid = 0xf1d0; offset = 1; wanted = 6; data_or_mdata = e_data }

abbrev room_of_six : List ℕ
room_of_six = 90 ∷ 91 ∷ 92 ∷ 93 ∷ 94 ∷ 95 ∷ []

-- In a buffer of 6 bytes there is room for answers of 2; the third read is behind the end.
four_of_six :
    get_data_object 6 (holder five_bytes) 6 true [] six_to_read (some room_of_six) 6 0
    ≡ some (cmd_ok, 12 ∷ 13 ∷ 14 ∷ 15 ∷ 94 ∷ 95 ∷ [], 4)
unfolding get_data_object read_pieces finish transceive_apdu get_device_error
four_of_six = refl

reads_object_example :
    get_data_object 6 (holder five_bytes) 6 true [] six_to_read (some room_of_six) 6 0
    ≡ some (cmd_ok, take 6 (drop 1 five_bytes) ++ drop 4 room_of_six, 4)
reads_object_example =
    reads_object (holder five_bytes) five_bytes (λ history. Unit {0}) 6 [] six_to_read room_of_six 6
      0 (holder-Serves 0xf1d0 five_bytes) tt refl (omega arith) (omega arith) (omega arith)
      (omega arith) (omega arith) (omega arith) (omega arith) (omega arith)
