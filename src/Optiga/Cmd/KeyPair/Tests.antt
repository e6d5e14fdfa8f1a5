-- ===== src/Optiga/Cmd/KeyPair/Tests.antt =====
-- A pair of keys from a concrete device.
use decada_embedded_example.Base.{◌≤◌, ◌≡◌, refl, [], ◌∷◌, true, some, arith}
use decada_embedded_example.Optiga.Cmd.Apdu.{Device, insufficient_memory}
use decada_embedded_example.Optiga.Cmd.KeyPair.{
  KeyPairOptions, export_pair, generate_key_pair, key_layout,
}
use decada_embedded_example.Optiga.Cmd.KeyPair.Parse.{Keys, as_pair}
use decada_embedded_example.Optiga.Cmd.KeyPair.Generate.{generate_key_pair-keys_from}

-- It answers with a private key of two bytes and a public key of three.
abbrev key_maker : Device
key_maker history command =
    some (0 ∷ 0 ∷ 0 ∷ 11 ∷ 1 ∷ 0 ∷ 2 ∷ 21 ∷ 22 ∷ 2 ∷ 0 ∷ 3 ∷ 31 ∷ 32 ∷ 33 ∷ [])

abbrev exported : KeyPairOptions
exported = record { alg = 0x03; key_export = export_pair; private_oid = 0; usage = 0 }

-- There is room for the private key, and not for the public key.
abbrev two_and_two : Keys
two_and_two = record {
  public_bytes = 0 ∷ 0 ∷ [];
  public_room = 2;
  private_bytes = 0 ∷ 0 ∷ [];
  private_room = 2;
}

abbrev private_only : Keys
private_only = record {
  public_bytes = 0 ∷ 0 ∷ [];
  public_room = 2;
  private_bytes = 21 ∷ 22 ∷ [];
  private_room = 2;
}

enough_room : 15 ≤ (key_layout exported 32).allocated
unfolding key_layout
enough_room = omega arith

generate_key_pair-keys_from_example :
    generate_key_pair key_maker 1500 true [] exported (as_pair two_and_two)
    ≡ some (insufficient_memory, as_pair private_only, (0x38 ∷ 3 ∷ 0 ∷ 3 ∷ 7 ∷ 0 ∷ 0 ∷ []) ∷ [])
unfolding key_layout
generate_key_pair-keys_from_example =
    generate_key_pair-keys_from key_maker 1500 [] exported two_and_two 32 0 0 11 1 (21 ∷ 22 ∷ [])
      ((2, 31 ∷ 32 ∷ 33 ∷ []) ∷ []) (omega arith) refl (omega arith, (omega arith, tt)) enough_room
      refl
