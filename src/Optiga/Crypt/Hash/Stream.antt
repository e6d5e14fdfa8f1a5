-- ===== src/Optiga/Crypt/Hash/Stream.antt =====
-- The commands of `optiga_crypt_hash_update` with a device that hashes.
use mathlib.Core.List.{append_assoc}
use decada_embedded_example.Base.{
  ℕ, zero, suc, ◌+◌, ◌-◌, ◌^◌, ◌≤◌, ◌<◌, ◌≡◌, ◌⊎◌, inl, inr, refl, sym, ap, subst, ◌∙◌, List, [],
  ◌∷◌, ◌++◌, true, false, not, ◌&&◌, Option, some, length, length-take, length-drop, take, take_all,
  take-append-drop, drop, ltb, Bool-cases, if◌then◌else◌, arith,
}
use decada_embedded_example.Base.Word.{u16, sub32}
use decada_embedded_example.Optiga.Cmd.Apdu.{Device, invalid_max_comms_buff_size}
use decada_embedded_example.Optiga.Cmd.Request.{Field}
use decada_embedded_example.Optiga.Cmd.Request.Fields.{fields_of}
use decada_embedded_example.Optiga.Cmd.CalcHash.{
  CalcHash, ContextAction, unused, import_context, export_context, import_export, exports,
}
use decada_embedded_example.Optiga.Status.{LibStatus, lib_success}
use decada_embedded_example.Optiga.Crypt.Hash.{
  HashContext, room_basic, room_import, room_export, room_import_export, update_steps, update_host,
  hash_update, from_host,
}
use decada_embedded_example.Optiga.Crypt.Hash.Step.{
  Hashes, step_options, step_tags, step_fields, step_overhead, step_command, step_size, step_reads,
  step_plain, step_context, imported, step_absorbs,
}

-- The context of a SHA-256 hash.
abbrev pub sha_context : List ℕ → HashContext
sha_context ctx = record { buffer = ctx; buffer_len = 130; hash_algo = 0xe2 }

-- A command for the device's hash that fits it, with its fields.
pub record Part (max_comms : ℕ) (command : List ℕ) (fs : List Field) : Type 0 where
  pub fits : length command ≤ max_comms
  pub begins : take 2 command ≡ 0x30 ∷ 0xe2 ∷ []
  pub reads : fields_of (length (drop 4 command)) (drop 4 command) ≡ some fs

-- The commands hash the bytes, in order and each once. The first has the given tags, the last, and it
-- alone, asks for the context, and all continue the hash.
abbrev pub Streams : ℕ → List Field → List ℕ → List (List ℕ) → Type 0
Streams max_comms tags bytes [] = ⊥
Streams max_comms tags bytes (command ∷ commands) =
    (Part max_comms command ((2, bytes) ∷ (tags ++ ((7, []) ∷ []))) × (commands ≡ []))
    ⊎ ((chunk : List ℕ) × (rest : List ℕ) × (chunk ++ rest ≡ bytes)
        × Part max_comms command ((2, chunk) ∷ tags)
        × Streams max_comms [] rest commands)

-- The update has ended well: what was sent, and `total`, the context that came back.
pub record Streamed (max_comms : ℕ) (history : List (List ℕ)) (ctx total : List ℕ)
    (tags : List Field) (bytes : List ℕ) (result : Option (LibStatus × CalcHash × List (List ℕ)))
    : Type 0 where
  pub action : ContextAction
  pub chunk : List ℕ
  pub sent : List (List ℕ)
  pub result_is :
      result
      ≡ some (lib_success, step_options action (total ++ drop 130 ctx) chunk, history ++ sent)
  pub streams : Streams max_comms tags bytes sent

step-Part :
    (max_comms : ℕ) (action : ContextAction) (ctx chunk : List ℕ)
    → 130 ≤ length ctx
    → length chunk + step_overhead action ≤ max_comms
    → length chunk < 2 ^ 16
    → Part max_comms (step_command action ctx chunk) (step_fields action ctx chunk)
step-Part max_comms action ctx chunk full fits short = record {
  fits = omega (arith, step_size action ctx chunk full);
  begins = refl;
  reads = step_reads action ctx chunk short;
}

module _ (device : Device) (absorb : List ℕ → List ℕ → List ℕ) (hashes : Hashes device absorb)
    (max_comms : ℕ) (ctx : List ℕ) (room : 143 < max_comms)
    (known : max_comms < invalid_max_comms_buff_size) (full : 130 ≤ length ctx) where
  -- The context that a step with these tags makes of what is left.
  abbrev totals : List (List ℕ) → List Field → List ℕ → List ℕ
  totals history tags left = absorb (imported tags (hashes.context_after history)) left

  -- The last step.
  last_step :
      (action : ContextAction) (tags : List Field) (fuel : ℕ) (history : List (List ℕ))
      (chunk left : List ℕ) (n : ℕ)
      → exports action ≡ true
      → step_tags action ctx ≡ tags ++ ((7, []) ∷ [])
      → n ≡ length left
      → n + step_overhead action ≤ max_comms
      → Streamed max_comms history ctx (totals history (step_tags action ctx) left) tags left (
          update_steps
            (suc fuel)
            device
            max_comms
            true
            history
            (step_options action ctx chunk)
            left
            n
            false)
  unfolding update_steps
  last_step action tags fuel history chunk left n asked tags_are all fits =
      let whole : take n left ≡ left = take_all n left (omega arith) in
      let len : length (take n left) ≡ n = ap length whole ∙ sym all in
      let e =
        step_context device max_comms ctx (take n left) history known full action absorb hashes
          asked (omega (arith, len)) in
      let total = totals history (step_tags action ctx) in
      record {
        action = action;
        chunk = take n left;
        sent = step_command action ctx (take n left) ∷ [];
        result_is =
            rw (update_steps, e)
              (ap
                (λ c. some (
                  lib_success,
                  step_options action (c ++ drop 130 ctx) (take n left),
                  history ++ (step_command action ctx (take n left) ∷ []),
                ))
                (ap total whole));
        streams = inl (
          subst (λ t. Part max_comms (step_command action ctx (take n left)) ((2, left) ∷ t))
              tags_are
              (subst
                (λ l.
                  Part max_comms (step_command action ctx (take n left))
                    ((2, l) ∷ step_tags action ctx))
                whole
                (step-Part max_comms action ctx (take n left) full (omega (arith, len))
                  (omega (arith, len)))),
          refl,
        );
      }

  -- A step before the last.
  next_step :
      (action : ContextAction) (fuel : ℕ) (history : List (List ℕ)) (chunk left : List ℕ) (n : ℕ)
      → exports action ≡ false
      → n ≤ length left
      → n + step_overhead action ≤ max_comms
      → length left < 2 ^ 32
      → let size = length left - n in
        let long = ltb (room_export max_comms) size in
        update_steps
          (suc fuel)
          device
          max_comms
          true
          history
          (step_options action ctx chunk)
          left
          n
          true
        ≡ update_steps fuel device max_comms true
            (history ++ (step_command action ctx (take n left) ∷ []))
            (step_options (if long then unused else export_context) ctx (take n left))
            (drop n left)
            (if long && not (ltb size (room_basic max_comms))
              then room_basic max_comms
              else u16 size)
            long
  unfolding update_steps
  next_step action fuel history chunk left n quiet fits_left fits small =
      let len = length-take n left in
      let e =
        step_plain device max_comms ctx (take n left) history known full action absorb hashes quiet
          (omega (arith, len)) in
      let size_is : sub32 (length left) n ≡ length left - n = omega arith in
      rw (update_steps, e, size_is) refl

  -- What is put before a stream that imports nothing.
  one_more :
      (action : ContextAction) (tags : List Field) (history : List (List ℕ)) (left : List ℕ) (n : ℕ)
      (r s : Option (LibStatus × CalcHash × List (List ℕ)))
      → step_tags action ctx ≡ tags
      → n ≤ length left
      → n + step_overhead action ≤ max_comms
      → r ≡ s
      → Streamed max_comms
          (history ++ (step_command action ctx (take n left) ∷ []))
          ctx
          (totals (history ++ (step_command action ctx (take n left) ∷ [])) [] (drop n left))
          []
          (drop n left)
          s
      → Streamed max_comms history ctx (totals history tags left) tags left r
  one_more action tags history left n r s tags_are fits_left fits goes_on w =
      let len = length-take n left in
      let command = step_command action ctx (take n left) in
      let own = imported tags (hashes.context_after history) in
      let total = absorb (hashes.context_after (history ++ (command ∷ []))) (drop n left) in
      let stepped : hashes.context_after (history ++ (command ∷ [])) ≡ absorb own (take n left) =
        step_absorbs device absorb hashes action ctx (take n left) history (omega (arith, len))
        ∙ ap (λ t. absorb (imported t (hashes.context_after history)) (take n left)) tags_are in
      let together : total ≡ absorb own left =
        ap (λ c. absorb c (drop n left)) stepped
        ∙ hashes.joins own (take n left) (drop n left)
        ∙ ap (absorb own) (take-append-drop n left) in
      record {
        action = w.action;
        chunk = w.chunk;
        sent = command ∷ w.sent;
        result_is =
            goes_on
            ∙ w.result_is
            ∙ ap (λ h. some (lib_success, step_options w.action (total ++ drop 130 ctx) w.chunk, h))
                (append_assoc history (command ∷ []) w.sent)
            ∙ ap
                (λ c. some (
                  lib_success,
                  step_options w.action (c ++ drop 130 ctx) w.chunk,
                  history ++ (command ∷ w.sent),
                ))
                together;
        streams = inr (
          take n left,
          drop n left,
          take-append-drop n left,
          subst (λ t. Part max_comms command ((2, take n left) ∷ t)) tags_are
              (step-Part max_comms action ctx (take n left) full (omega (arith, len))
                (omega (arith, len))),
          w.streams,
        );
      }

  -- The loop, while it chains.
  chain :
      (fuel : ℕ) (action : ContextAction) (tags : List Field) (history : List (List ℕ))
      (chunk left : List ℕ) (n : ℕ)
      → exports action ≡ false
      → step_tags action ctx ≡ tags
      → 0 < n
      → n ≤ length left
      → n + step_overhead action ≤ max_comms
      → length left < 2 ^ 32
      → length left < fuel
      → Streamed max_comms history ctx (totals history tags left) tags left (
          update_steps fuel device max_comms true history
            (step_options action ctx chunk)
            left
            n
            true)
  chain zero action tags history chunk left n quiet tags_are some_n fits_left fits small enough =
      absurd (omega arith)
  chain (suc zero) action tags history chunk left n quiet tags_are some_n fits_left fits small
        enough =
      absurd (omega arith)
  chain (suc (suc fuel)) action tags history chunk left n quiet tags_are some_n fits_left fits small
        enough =
      let size = length left - n in
      let rest = drop n left in
      let len = length-drop n left in
      let step = next_step action (suc fuel) history chunk left n quiet fits_left fits small in
      let room_export_is : room_export max_comms ≡ max_comms - 10 = omega arith in
      let room_basic_is : room_basic max_comms ≡ max_comms - 7 = omega arith in
      let after = history ++ (step_command action ctx (take n left) ∷ []) in
      elim (Bool-cases (ltb (room_export max_comms) size)) [
        | inr short ↦
            let bound : size ≤ max_comms - 10 = ground (arith, room_export_is) in
            one_more action tags history left n _ _ tags_are fits_left fits (step ∙ rw short refl) (
              last_step export_context [] fuel after (take n left) rest (u16 size) refl refl
                (omega (arith, len, bound)) (omega (arith, bound)))
        | inl long ↦
            let bound : max_comms - 10 < size = ground (arith, room_export_is) in
            elim (Bool-cases (ltb size (room_basic max_comms))) [
              | inl fits_one ↦
                  let small_size : size < max_comms - 7 = ground (arith, room_basic_is) in
                  one_more action tags history left n _ _ tags_are fits_left fits
                    (step ∙ rw (long, fits_one) refl)
                    (chain (suc fuel) unused [] after (take n left) rest (u16 size) refl refl
                      (omega (arith, bound, small_size)) (omega (arith, len, small_size))
                      (omega (arith, small_size)) (omega (arith, len)) (omega (arith, len)))
              | inr more ↦
                  let big : max_comms - 7 ≤ size = ground (arith, room_basic_is) in
                  one_more action tags history left n _ _ tags_are fits_left fits
                    (step ∙ rw (long, more) refl)
                    (chain (suc fuel) unused [] after (take n left) rest (room_basic max_comms) refl
                      refl (omega (arith, room_basic_is)) (omega (arith, len, big, room_basic_is))
                      (omega (arith, room_basic_is)) (omega (arith, len)) (omega (arith, len)))
            ]
      ]

  host_stream :
      (history : List (List ℕ)) (bytes : List ℕ)
      → length bytes < 2 ^ 32
      → Streamed max_comms history ctx
          (absorb (take 130 ctx) bytes)
          ((6, take 130 ctx) ∷ [])
          bytes
          (update_host device max_comms true history (sha_context ctx) bytes)
  unfolding update_host
  host_stream history bytes small =
      let size = length bytes in
      let one_is : room_import_export max_comms ≡ max_comms - 143 = omega arith in
      let import_is : room_import max_comms ≡ max_comms - 140 = omega arith in
      let tags : List Field = (6, take 130 ctx) ∷ [] in
      elim (Bool-cases (ltb (room_import_export max_comms) size)) [
        | inr short ↦
            let bound : size ≤ max_comms - 143 = ground (arith, one_is) in
            let step =
              last_step import_export tags (suc size) history bytes bytes (u16 size) refl refl
                (omega (arith, bound)) (omega (arith, bound)) in
            rw (update_host, short) step
        | inl long ↦
            let bound : max_comms - 143 < size = ground (arith, one_is) in
            elim (Bool-cases (ltb size (room_import max_comms))) [
              | inl fits_one ↦
                  let few : size < max_comms - 140 = ground (arith, import_is) in
                  rw (update_host, long, fits_one)
                    (chain (suc (suc size)) import_context tags history bytes bytes (u16 size) refl
                      refl (omega (arith, bound, few)) (omega (arith, few)) (omega (arith, few))
                      small (omega arith))
              | inr more ↦
                  let many : max_comms - 140 ≤ size = ground (arith, import_is) in
                  rw (update_host, long, more)
                    (chain (suc (suc size)) import_context tags history bytes bytes
                      (room_import max_comms) refl refl (omega (arith, import_is))
                      (omega (arith, import_is, many)) (omega (arith, import_is)) small
                      (omega arith))
            ]
      ]

-- The device hashes, its buffer has a known size with room for a context and one byte more, there is
-- memory for the commands, and the context of a SHA-256 hash is given with its 130 bytes. Then an update
-- with any data of the host, of a length of 32 bits, succeeds, and its context is the given one taken on
-- by all of the data, with what was behind it unchanged. Every command sent fits the device's buffer, the
-- commands hash the data, in order and each byte once, the first imports the context, and the last alone
-- asks for it back.
pub hash_update-Streams :
    (device : Device) (absorb : List ℕ → List ℕ → List ℕ) (max_comms : ℕ) (history : List (List ℕ))
    (ctx bytes : List ℕ)
    → Hashes device absorb
    → 143 < max_comms
    → max_comms < invalid_max_comms_buff_size
    → 130 ≤ length ctx
    → length bytes < 2 ^ 32
    → (sent : List (List ℕ)) × (hash_update device max_comms true history
          (sha_context ctx)
          (from_host bytes)
        ≡ some (
          lib_success,
          sha_context (absorb (take 130 ctx) bytes ++ drop 130 ctx),
          history ++ sent,
        ))
      × Streams max_comms ((6, take 130 ctx) ∷ []) bytes sent
unfolding hash_update
hash_update-Streams device absorb max_comms history ctx bytes hashes room known full small =
    let s = host_stream device absorb hashes max_comms ctx room known full history bytes small in
    (s.sent, rw (hash_update, s.result_is) refl, s.streams)
