-- ===== src/Optiga/Cmd/Toolbox/Tests.antt =====
-- Commands with concrete values.
use decada_embedded_example.Base.{◌≡◌, refl, [], ◌∷◌, true, none, some, arith}
use decada_embedded_example.Optiga.Cmd.Apdu.{Device}
use decada_embedded_example.Optiga.Cmd.Request.{Request, ready, sized, transact}
use decada_embedded_example.Optiga.Cmd.Request.Fields.{Holds}
use decada_embedded_example.Optiga.Cmd.Toolbox.{
  Blob, verify_request, verify_layout, derive_request, cmd_verify_sign, cmd_derive_key,
}
use decada_embedded_example.Optiga.Cmd.Toolbox.Layout.{
  Order, verify, derive, prepare, fields_wanted, prepare-Holds, wrapped_overruns,
}

abbrev no_output : Blob
no_output = record { stream = none; len = 0 }

abbrev some_output : Blob
some_output = record { stream = some (0 ∷ []); len = 1 }

abbrev small_verify : Order
small_verify = verify 0x11 0x03 (7 ∷ []) (1 ∷ 2 ∷ []) (3 ∷ [])

abbrev small_request : Request
small_request = record {
  allocated = 21;
  cmd = cmd_verify_sign;
  param = 0x11;
  payload = 1 ∷ 0 ∷ 2 ∷ 1 ∷ 2 ∷ 2 ∷ 0 ∷ 1 ∷ 3 ∷ 5 ∷ 0 ∷ 1 ∷ 3 ∷ 6 ∷ 0 ∷ 1 ∷ 7 ∷ [];
}

small_verify-ready : prepare 100 no_output small_verify ≡ ready small_request
unfolding verify_request verify_layout sized
small_verify-ready = refl

prepare-Holds_example : Holds 100 small_request (fields_wanted small_verify)
prepare-Holds_example =
    prepare-Holds 100 no_output small_verify small_request small_verify-ready
      (omega arith, omega arith, omega arith) (omega arith)

-- A key of 65535 bytes is asked for.
abbrev wide_derive : Order
wide_derive = derive 1 0xf1d0 65535 0 (9 ∷ [])

abbrev wide_request : Request
wide_request = record {
  allocated = 19;
  cmd = cmd_derive_key;
  param = 1;
  payload = 1 ∷ 0 ∷ 2 ∷ 0xf1 ∷ 0xd0 ∷ 2 ∷ 0 ∷ 1 ∷ 9 ∷ 3 ∷ 0 ∷ 2 ∷ 255 ∷ 255 ∷ 7 ∷ 0 ∷ 0 ∷ [];
}

wide_derive-ready : prepare 1500 some_output wide_derive ≡ ready wide_request
unfolding derive_request sized
wide_derive-ready = refl

abbrev idle : Device
idle history command = some (0 ∷ 0 ∷ 0 ∷ 0 ∷ [])

wrapped_overruns_example : transact idle 1500 true [] wide_request ≡ none
wrapped_overruns_example =
    wrapped_overruns idle 1500 [] some_output wide_derive wide_request wide_derive-ready
      (omega arith) (omega arith, omega arith) (omega arith)
