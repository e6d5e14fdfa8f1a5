-- ===== src/Optiga/Crypt/Hash/Step.antt =====
-- One step of a hash, with a device that hashes.
use decada_embedded_example.Base.{
  ℕ, suc, ◌+◌, ◌-◌, ◌^◌, ◌≤◌, ◌<◌, ◌≡◌, refl, sym, ap, ◌∙◌, List, [], ◌∷◌, ◌++◌, Bool, true, false,
  ◌||◌, none, some, length, length-take, max, take, take-append, drop, copy_to, copy_to_start, ◌==◌,
  arith, if◌then◌else◌,
}
use decada_embedded_example.Base.Word.{sub16}
use decada_embedded_example.Optiga.Util.Bytes.{get_uint16}
use decada_embedded_example.Optiga.Cmd.Apdu.{cmd_ok, Device, apdu, invalid_max_comms_buff_size}
use decada_embedded_example.Optiga.Cmd.Request.{Request, ready, Field, written, unwritten, transact}
use decada_embedded_example.Optiga.Cmd.Request.Fields.{
  fields_of, fields_of-written, count-le-written, length-written, AllShort, held_room,
  transact-answered,
}
use decada_embedded_example.Optiga.Cmd.CalcHash.{
  CalcHash, continue_hash, data_stream, ContextAction, unused, import_context, export_context,
  import_export, exports, answer_room, hash_layout, hash_request, take_context, take_answer,
  calc_hash,
}

-- The context is asked for.
abbrev pub asks : List Field → Bool
asks [] = false
asks ((tag, value) ∷ fs) = (tag == 7) || asks fs

abbrev pub hash_command : List ℕ → List ℕ
hash_command payload = apdu 0x30 0xe2 payload

-- The context that a command gives with its tag 6, or the device's own.
abbrev pub imported : List Field → List ℕ → List ℕ
imported [] own = own
imported ((tag, value) ∷ fs) own = if tag == 6 then value else imported fs own

-- A device that hashes. `absorb` takes a context on by the bytes of a message: it makes a context of the
-- fixed size, and two pieces after each other count as one. The device keeps a context, which every step
-- takes on by its input after the import, if it has one; it answers with the context exactly when it is
-- asked for it.
pub record Hashes (device : Device) (absorb : List ℕ → List ℕ → List ℕ) : Type 0 where
  pub context_after : List (List ℕ) → List ℕ
  pub size : (ctx bytes : List ℕ) → length (absorb ctx bytes) ≡ 130
  pub joins :
      (ctx first second : List ℕ) → absorb (absorb ctx first) second ≡ absorb ctx (first ++ second)
  pub steps :
      (history : List (List ℕ)) (payload chunk : List ℕ) (fs : List Field)
      → fields_of (length payload) payload ≡ some ((2, chunk) ∷ fs)
      → context_after (history ++ (hash_command payload ∷ []))
        ≡ absorb (imported fs (context_after history)) chunk
  pub plain :
      (history : List (List ℕ)) (payload chunk : List ℕ) (fs : List Field)
      → fields_of (length payload) payload ≡ some ((2, chunk) ∷ fs)
      → asks fs ≡ false
      → (a : ℕ) × (b : ℕ) × (c : ℕ) × (device history (hash_command payload)
          ≡ some (0 ∷ a ∷ b ∷ c ∷ []))
  pub context :
      (history : List (List ℕ)) (payload chunk : List ℕ) (fs : List Field)
      → fields_of (length payload) payload ≡ some ((2, chunk) ∷ fs)
      → asks fs ≡ true
      → (a : ℕ) × (b : ℕ) × (c : ℕ) × (device history (hash_command payload)
          ≡ some (
              0 ∷ a ∷ b ∷ c ∷ 6 ∷ 0 ∷ 130 ∷ context_after (history ++ (hash_command payload ∷ []))))

-- A step of `hash_update` that hashes `chunk`, with the context `ctx`.
abbrev pub step_options : ContextAction → List ℕ → List ℕ → CalcHash
step_options action ctx chunk = record {
  alg = 0xe2;
  sequence = continue_hash;
  input = data_stream (some chunk);
  out_hash = none;
  out_room = 0;
  out_len = 0;
  action = action;
  context = some ctx;
  context_len = 130;
}

abbrev pub step_tags : ContextAction → List ℕ → List Field
step_tags unused ctx = []
step_tags import_context ctx = (6, take 130 ctx) ∷ []
step_tags export_context ctx = (7, []) ∷ []
step_tags import_export ctx = (6, take 130 ctx) ∷ (7, []) ∷ []

abbrev pub step_fields : ContextAction → List ℕ → List ℕ → List Field
step_fields action ctx chunk = (2, chunk) ∷ step_tags action ctx

abbrev pub step_payload : ContextAction → List ℕ → List ℕ → List ℕ
step_payload action ctx chunk = written (step_fields action ctx chunk)

-- The bytes of a step beside its input.
abbrev pub step_overhead : ContextAction → ℕ
step_overhead unused = 7
step_overhead import_context = 140
step_overhead export_context = 10
step_overhead import_export = 143

abbrev step_request : ContextAction → List ℕ → List ℕ → Request
step_request action ctx chunk = record {
  allocated =
      max (step_overhead action + length chunk) (answer_room (step_options action ctx chunk));
  cmd = 0x30;
  param = 0xe2;
  payload = step_payload action ctx chunk;
}

step_is :
    (max_comms : ℕ) (action : ContextAction) (ctx chunk : List ℕ)
    → length chunk + step_overhead action ≤ max_comms
    → max_comms < invalid_max_comms_buff_size
    → hash_request max_comms (step_options action ctx chunk) ≡ ready (step_request action ctx chunk)
unfolding hash_request hash_layout
step_is max_comms unused ctx chunk fits known = ground arith
step_is max_comms import_context ctx chunk fits known = ground arith
step_is max_comms export_context ctx chunk fits known = ground arith
step_is max_comms import_export ctx chunk fits known = ground arith

pub step_size :
    (action : ContextAction) (ctx chunk : List ℕ)
    → 130 ≤ length ctx
    → 4 + length (step_payload action ctx chunk) ≡ step_overhead action + length chunk
step_size unused ctx chunk h =
    omega (arith, length-written (step_fields unused ctx chunk), length-take 130 ctx)
step_size import_context ctx chunk h =
    omega (arith, length-written (step_fields import_context ctx chunk), length-take 130 ctx)
step_size export_context ctx chunk h =
    omega (arith, length-written (step_fields export_context ctx chunk), length-take 130 ctx)
step_size import_export ctx chunk h =
    omega (arith, length-written (step_fields import_export ctx chunk), length-take 130 ctx)

short_step :
    (action : ContextAction) (ctx chunk : List ℕ)
    → length chunk < 2 ^ 16
    → AllShort (step_fields action ctx chunk)
short_step unused ctx chunk h = ground arith
short_step import_context ctx chunk h = ground (arith, length-take 130 ctx)
short_step export_context ctx chunk h = ground arith
short_step import_export ctx chunk h = ground (arith, length-take 130 ctx)

pub step_reads :
    (action : ContextAction) (ctx chunk : List ℕ)
    → length chunk < 2 ^ 16
    → fields_of (length (step_payload action ctx chunk)) (step_payload action ctx chunk)
      ≡ some (step_fields action ctx chunk)
step_reads action ctx chunk h =
    let fs = step_fields action ctx chunk in
    fields_of-written fs (length (written fs)) (count-le-written fs) (short_step action ctx chunk h)

-- The bytes that a step sends, and that it sends no more than it has room for.
abbrev pub step_command : ContextAction → List ℕ → List ℕ → List ℕ
step_command action ctx chunk = hash_command (step_payload action ctx chunk)

asks-exports :
    (action : ContextAction) (ctx : List ℕ) → asks (step_tags action ctx) ≡ exports action
asks-exports unused ctx = refl
asks-exports import_context ctx = refl
asks-exports export_context ctx = refl
asks-exports import_export ctx = refl

answer_fits :
    (action : ContextAction) (ctx chunk : List ℕ)
    → exports action ≡ true
    → 137 ≤ (step_request action ctx chunk).allocated
answer_fits unused ctx chunk asked = absurd (cc)
answer_fits import_context ctx chunk asked = absurd (cc)
answer_fits export_context ctx chunk asked = omega arith
answer_fits import_export ctx chunk asked = omega arith

-- The context of an answer is taken over.
context_taken :
    (action : ContextAction) (ctx chunk new : List ℕ) (a b c : ℕ) (buffer : List ℕ)
    → length new ≡ 130
    → 130 ≤ length ctx
    → 137 ≤ length buffer
    → let answer = 0 ∷ a ∷ b ∷ c ∷ 6 ∷ 0 ∷ 130 ∷ new in
      take_answer (step_options action ctx chunk) answer (copy_to buffer 0 answer)
      ≡ (cmd_ok, step_options action (new ++ drop 130 ctx) chunk)
unfolding take_answer take_context get_uint16
context_taken action ctx chunk new a b c buffer len full room =
    let answer = 0 ∷ a ∷ b ∷ c ∷ 6 ∷ 0 ∷ 130 ∷ new in
    let rest = drop (length answer) buffer in
    let begins : copy_to buffer 0 answer ≡ answer ++ rest =
      copy_to_start buffer answer (omega (arith, len)) in
    let some_answer : (sub16 (length answer) 4 == 0) ≡ false = ground (arith, len) in
    let whole : take 130 (new ++ rest) ≡ new =
      ap (λ n. take n (new ++ rest)) (sym len) ∙ take-append new rest in
    let copied : copy_to ctx 0 new ≡ new ++ drop 130 ctx =
      copy_to_start ctx new (omega (arith, len)) ∙ ap (λ n. new ++ drop n ctx) len in
    rw (begins, some_answer, whole, copied) refl

-- The device's context after a step.
pub step_absorbs :
    (device : Device) (absorb : List ℕ → List ℕ → List ℕ) (hashes : Hashes device absorb)
    (action : ContextAction) (ctx chunk : List ℕ) (history : List (List ℕ))
    → length chunk < 2 ^ 16
    → hashes.context_after (history ++ (step_command action ctx chunk ∷ []))
      ≡ absorb (imported (step_tags action ctx) (hashes.context_after history)) chunk
step_absorbs device absorb hashes action ctx chunk history short =
    hashes.steps history (step_payload action ctx chunk) chunk (step_tags action ctx)
      (step_reads action ctx chunk short)

module _ (device : Device) (max_comms : ℕ) (ctx chunk : List ℕ) (history : List (List ℕ))
    (known : max_comms < invalid_max_comms_buff_size) (full : 130 ≤ length ctx) where
  -- The exchange of a step whose answer fits.
  step_exchange :
      (action : ContextAction) (answer : List ℕ)
      → device history (step_command action ctx chunk) ≡ some (0 ∷ answer)
      → suc (length answer) ≤ (step_request action ctx chunk).allocated
      → transact device max_comms true history (step_request action ctx chunk)
        ≡ some (cmd_ok, 0 ∷ answer, history ++ (step_command action ctx chunk ∷ []))
  step_exchange action answer e fits =
      transact-answered device max_comms history (step_request action ctx chunk) answer known
        (omega (arith, step_size action ctx chunk full)) e fits

  -- A step that asks for no context leaves it.
  pub step_plain :
      (action : ContextAction)
      → (absorb : List ℕ → List ℕ → List ℕ) → Hashes device absorb
      → exports action ≡ false
      → length chunk + step_overhead action ≤ max_comms
      → calc_hash device max_comms true history (step_options action ctx chunk)
        ≡ some
            (cmd_ok, step_options action ctx chunk, history ++ (step_command action ctx chunk ∷ []))
  unfolding calc_hash take_answer
  step_plain action absorb hashes quiet fits =
      let short : length chunk < 2 ^ 16 = omega arith in
      let (a, b, c, e) =
        hashes.plain history (step_payload action ctx chunk) chunk (step_tags action ctx)
          (step_reads action ctx chunk short) (asks-exports action ctx ∙ quiet) in
      let sent = step_exchange action (a ∷ b ∷ c ∷ []) e (omega arith) in
      rw (calc_hash, step_is max_comms action ctx chunk fits known, sent) refl

  -- A step that asks for the context has the device's at the start of its buffer.
  pub step_context :
      (action : ContextAction)
      → (absorb : List ℕ → List ℕ → List ℕ) → (hashes : Hashes device absorb)
      → exports action ≡ true
      → length chunk + step_overhead action ≤ max_comms
      → let own = imported (step_tags action ctx) (hashes.context_after history) in
        calc_hash device max_comms true history (step_options action ctx chunk)
        ≡ some (
          cmd_ok,
          step_options action (absorb own chunk ++ drop 130 ctx) chunk,
          history ++ (step_command action ctx chunk ∷ []),
        )
  unfolding calc_hash take_answer take_context get_uint16
  step_context action absorb hashes asked fits =
      let short : length chunk < 2 ^ 16 = omega arith in
      let (a, b, c, e) =
        hashes.context history (step_payload action ctx chunk) chunk (step_tags action ctx)
          (step_reads action ctx chunk short) (asks-exports action ctx ∙ asked) in
      let own = imported (step_tags action ctx) (hashes.context_after history) in
      let new = absorb own chunk in
      let len = hashes.size own chunk in
      let answer = a ∷ b ∷ c ∷ 6 ∷ 0 ∷ 130 ∷ new in
      let answered : device history (step_command action ctx chunk) ≡ some (0 ∷ answer) =
        e
        ∙ ap (λ n. some (0 ∷ a ∷ b ∷ c ∷ 6 ∷ 0 ∷ 130 ∷ n))
            (step_absorbs device absorb hashes action ctx chunk history short) in
      let r = step_request action ctx chunk in
      let sent =
        step_exchange action answer answered
          (omega (arith, answer_fits action ctx chunk asked, len)) in
      let command = hash_command r.payload in
      let whole : 137 ≤ length (command ++ unwritten (r.allocated - length command)) =
        held_room command r.allocated 137 (answer_fits action ctx chunk asked) in
      let taken =
        context_taken action ctx chunk new a b c
          (command ++ unwritten (r.allocated - length command)) len full whole in
      rw (calc_hash, step_is max_comms action ctx chunk fits known, sent, taken) refl
