-- ===== src/Optiga/Cmd/KeyPair/Generate.antt =====
-- `CmdLib_GenerateKeyPair` with a device that answers with the keys.
use decada_embedded_example.Base.{
  ℕ, ◌+◌, ◌-◌, ◌^◌, ◌≤◌, ◌<◌, ◌≡◌, refl, sym, ap, ◌∙◌, List, [], ◌∷◌, ◌++◌, true, some, length,
  drop, Bool-cases, inl, inr, arith,
}
use decada_embedded_example.Optiga.Cmd.Apdu.{
  CmdStatus, cmd_ok, Device, apdu, invalid_max_comms_buff_size,
}
use decada_embedded_example.Optiga.Cmd.Request.{ready, Field, written, unwritten, held, transact}
use decada_embedded_example.Optiga.Cmd.Request.Fields.{
  AllShort, count-le-written, size, length-written, held_start, transact-answered,
}
use decada_embedded_example.Optiga.Cmd.KeyPair.{
  KeyPairOptions, key_size, is_export, key_layout, key_request, read_keys, generate_key_pair,
  KeyPair,
}
use decada_embedded_example.Optiga.Cmd.KeyPair.Parse.{
  Keys, as_pair, keys_from, paired, read_fields, laid, laid_lem,
}

small_key : (alg n : ℕ) → key_size alg ≡ some n → n ≤ 48
small_key alg n h = ground arith

room_small : (v : KeyPairOptions) (n : ℕ) → (key_layout v n).allocated < 2 ^ 16
unfolding key_layout
room_small v n = omega arith

-- The buffer holds the command.
key_room :
    (v : KeyPairOptions) (n : ℕ)
    → n ≤ 48
    → 4 + length (key_layout v n).payload ≤ (key_layout v n).allocated
unfolding key_layout
key_room v n h = elim (Bool-cases (is_export v.key_export)) [
  | inl e ↦ rw (key_layout, e) (omega arith)
  | inr e ↦ rw (key_layout, e) (omega arith)
]

abbrev pub key_command : KeyPairOptions → ℕ → List ℕ
key_command v n = apdu (key_layout v n).cmd (key_layout v n).param (key_layout v n).payload

request_ready :
    (v : KeyPairOptions) (k : Keys) (n : ℕ)
    → key_size v.alg ≡ some n
    → key_request v (as_pair k) ≡ ready (key_layout v n)
unfolding key_request
request_ready v k n alg = elim (Bool-cases (is_export v.key_export)) [
  | inl e ↦ rw (key_request, e, alg) refl
  | inr e ↦ rw (key_request, e, alg) refl
]

abbrev pub sent_with : List (List ℕ) → CmdStatus × Keys → CmdStatus × KeyPair × List (List ℕ)
sent_with after (s, k) = (s, as_pair k, after)

-- The device answers the command for a known algorithm with fields, in a size that the buffer of the
-- command has room for; the device's buffer has a known size and there is memory. Then the fields are
-- taken as keys, in order: a field with tag 2 is the public key and any other the private key, each
-- copied with its length, and the first that is longer than the caller's room ends the call with an error.
pub generate_key_pair-keys_from :
    (device : Device) (max_comms : ℕ) (history : List (List ℕ)) (v : KeyPairOptions) (k : Keys)
    (n a b c tag : ℕ) (value : List ℕ) (fs : List Field)
    → max_comms < invalid_max_comms_buff_size
    → key_size v.alg ≡ some n
    → AllShort ((tag, value) ∷ fs)
    → 4 + size ((tag, value) ∷ fs) ≤ (key_layout v n).allocated
    → device history (key_command v n) ≡ some (0 ∷ a ∷ b ∷ c ∷ written ((tag, value) ∷ fs))
    → generate_key_pair device max_comms true history v (as_pair k)
      ≡ some (sent_with (history ++ (key_command v n ∷ [])) (keys_from ((tag, value) ∷ fs) k))
unfolding generate_key_pair
generate_key_pair-keys_from device max_comms history v k n a b c tag value fs known alg short fits
      e =
    let r = key_layout v n in
    let fields : List Field = (tag, value) ∷ fs in
    let pre = 0 ∷ a ∷ b ∷ c ∷ [] in
    let response = 0 ∷ a ∷ b ∷ c ∷ written fields in
    let response_len : length response ≡ 4 + size fields = omega (arith, length-written fields) in
    let command = key_command v n in
    let tail = drop (length response) (command ++ unwritten (r.allocated - length command)) in
    let held_is : held r response ≡ pre ++ laid fields tail =
      held_start r response (omega (arith, response_len))
      ∙ ap (λ rest. pre ++ rest) (sym (laid_lem fields tail)) in
    let read =
      read_fields tag value fs r.allocated pre tail k short (omega (arith, room_small v n))
        (omega (arith, count-le-written fields, length-written fields)) in
    let after = history ++ (command ∷ []) in
    let sent : transact device max_comms true history r ≡ some (cmd_ok, response, after) =
      transact-answered device max_comms history r (a ∷ b ∷ c ∷ written fields) known
        (key_room v n (small_key v.alg n alg)) e (omega (arith, response_len)) in
    let prepared : key_request v (as_pair k) ≡ ready r = request_ready v k n alg in
    let taken : read_keys r.allocated (held r response) (length response) 4 (as_pair k)
        ≡ some (paired (keys_from fields k)) =
      ap (λ memory. read_keys r.allocated memory (length response) 4 (as_pair k)) held_is
      ∙ ap (λ len. read_keys r.allocated (pre ++ laid fields tail) len 4 (as_pair k)) response_len
      ∙ read in
    rw (generate_key_pair, prepared, sent, taken) refl
