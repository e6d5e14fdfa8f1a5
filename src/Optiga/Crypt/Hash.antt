-- ===== src/Optiga/Crypt/Hash.antt =====
-- `optiga_crypt_hash_start`, `optiga_crypt_hash_update` and `optiga_crypt_hash_finalize`: a hash of data
-- of any length, with the context of the hash at the host.
pub mod Step
pub mod Stream
use decada_embedded_example.Base.{
  ℕ, zero, suc, ◌+◌, ◌-◌, List, [], ◌∷◌, Bool, true, false, not, ◌&&◌, Option, none, some, length,
  take, drop, ltb, ◌==◌, if◌then◌else◌,
}
use decada_embedded_example.Base.Word.{u16, sub16, u32, sub32}
use decada_embedded_example.Optiga.Cmd.Apdu.{CmdStatus, cmd_ok, Device}
use decada_embedded_example.Optiga.Status.{
  LibStatus, lib_success, from_command, succeeded, handed_on,
}
use decada_embedded_example.Optiga.Cmd.CalcHash.{
  HashData, data_stream, oid_data, HashSequence, start, continue_hash, finalize, ContextAction,
  unused, import_context, export_context, import_export, CalcHash, sha256_context_size,
  hash_fixed_overhead, tag_overhead, known_hash, calc_hash,
}

-- `optiga_hash_context_t`
pub record HashContext : Type 0 where
  pub buffer : List ℕ
  pub buffer_len : ℕ
  pub hash_algo : ℕ

abbrev pub options_of : HashContext → HashSequence → HashData → ContextAction → CalcHash
options_of ctx s input action = record {
  alg = ctx.hash_algo;
  sequence = s;
  input = input;
  out_hash = none;
  out_room = 0;
  out_len = 0;
  action = action;
  context = some ctx.buffer;
  context_len = ctx.buffer_len;
}

-- The context buffer after a step.
abbrev pub kept : HashContext → CalcHash → HashContext
kept ctx v = record ctx { buffer = elim v.context [ none ↦ ctx.buffer | some c ↦ c ] }

-- `optiga_crypt_hash_start`
unfoldable pub hash_start :
    Device
    → ℕ
    → Bool
    → List (List ℕ)
    → HashContext
    → Option (LibStatus × HashContext × List (List ℕ))
hash_start device max_comms heap history ctx =
    elim (calc_hash device max_comms heap history
      (options_of ctx start (data_stream (some [])) export_context)) [
        | none ↦ none
        | some (status, v, after) ↦ some (succeeded status, kept ctx v, after)
      ]

-- remaining_comm_bfr_sz_basic, _with_import, _with_export and _with_import_export
abbrev pub room_basic : ℕ → ℕ
room_basic max_comms = sub16 max_comms hash_fixed_overhead

abbrev pub room_import : ℕ → ℕ
room_import max_comms = sub16 max_comms (hash_fixed_overhead + tag_overhead + sha256_context_size)

abbrev pub room_export : ℕ → ℕ
room_export max_comms = sub16 max_comms (hash_fixed_overhead + tag_overhead)

abbrev pub room_import_export : ℕ → ℕ
room_import_export max_comms = sub16 max_comms (hash_fixed_overhead + 6 + sha256_context_size)

-- The loop, with fuel; `left` is what is not hashed yet, and the step hashes the first `n` bytes of it.
-- `none` means that the fuel ran out, or is as for `calc_hash`.
unfoldable pub update_steps :
    ℕ
    → Device
    → ℕ
    → Bool
    → List (List ℕ)
    → CalcHash
    → List ℕ
    → ℕ
    → Bool
    → Option (LibStatus × CalcHash × List (List ℕ))
update_steps zero device max_comms heap history v left n chaining = none
update_steps (suc fuel) device max_comms heap history v left n chaining =
    elim (calc_hash device max_comms heap history
      (record v { input = data_stream (some (take n left)) })) [
        | none ↦ none
        | some (status, filled, after) ↦
            let rest = drop n left in
            let size = sub32 (length left) n in
            let long = ltb (room_export max_comms) size in
            let next =
              if long && not (ltb size (room_basic max_comms))
              then room_basic max_comms
              else u16 size in
            let more =
              update_steps fuel device max_comms heap after
                (record filled { action = if long then unused else export_context }) rest next
                long in
            elim status [
              | cmd_ok ↦ if chaining then more else some (lib_success, filled, after)
              | error ↦ some (from_command error, filled, after)
            ]
      ]

-- `hash_data_from_host_t` and `hash_data_in_optiga_t`
pub data DataToHash : Type 0 where
  from_host : List ℕ → DataToHash
  in_optiga : (oid offset len : ℕ) → DataToHash

abbrev pub ended :
    HashContext
    → Option (LibStatus × CalcHash × List (List ℕ))
    → Option (LibStatus × HashContext × List (List ℕ))
ended ctx none = none
ended ctx (some (status, v, after)) = some (status, kept ctx v, after)

-- Data of the host: the first step imports the context, and exports it too if all fits one command.
unfoldable pub update_host :
    Device
    → ℕ
    → Bool
    → List (List ℕ)
    → HashContext
    → List ℕ
    → Option (LibStatus × CalcHash × List (List ℕ))
update_host device max_comms heap history ctx bytes =
    let size = length bytes in
    let chaining = ltb (room_import_export max_comms) size in
    let n =
      if chaining && not (ltb size (room_import max_comms))
      then room_import max_comms
      else u16 size in
    let action = if chaining then import_context else import_export in
    update_steps (suc (suc size)) device max_comms heap history
      (options_of ctx continue_hash (data_stream (some bytes)) action) bytes n chaining

-- `optiga_crypt_hash_update`
unfoldable pub hash_update :
    Device
    → ℕ
    → Bool
    → List (List ℕ)
    → HashContext
    → DataToHash
    → Option (LibStatus × HashContext × List (List ℕ))
hash_update device max_comms heap history ctx (from_host bytes) =
    ended ctx (update_host device max_comms heap history ctx bytes)
hash_update device max_comms heap history ctx (in_optiga oid offset len) =
    elim (calc_hash device max_comms heap history
      (options_of ctx continue_hash (oid_data oid offset len) import_export)) [
        | none ↦ none
        | some (status, v, after) ↦ some (handed_on status, kept ctx v, after)
      ]

-- `optiga_crypt_hash_finalize`; the hash is written to `output`.
unfoldable pub hash_finalize :
    Device
    → ℕ
    → Bool
    → List (List ℕ)
    → HashContext
    → List ℕ
    → Option (LibStatus × Option (List ℕ) × List (List ℕ))
hash_finalize device max_comms heap history ctx output =
    elim (calc_hash device max_comms heap history
      (record (options_of ctx finalize (data_stream (some [])) import_context) {
        out_hash = some output;
        out_room = 32;
      })) [ none ↦ none | some (status, v, after) ↦ some (succeeded status, v.out_hash, after) ]
