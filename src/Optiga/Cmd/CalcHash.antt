-- ===== src/Optiga/Cmd/CalcHash.antt =====
-- `CmdLib_CalcHash`: a step of a hash that the device calculates.
use decada_embedded_example.Base.{
  ℕ, ◌+◌, ◌*◌, List, [], ◌∷◌, ◌++◌, Bool, true, false, not, ◌&&◌, ◌||◌, Option, none, some, length,
  max, take, drop, get_or, copy_to, ltb, ◌==◌, if◌then◌else◌,
}
use decada_embedded_example.Base.Word.{u8, u16, sub16}
use decada_embedded_example.Optiga.Util.Bytes.{get_uint16}
use decada_embedded_example.Optiga.Cmd.Apdu.{
  CmdStatus, cmd_ok, null_param, insufficient_memory, lib_error, Device, two_bytes,
}
use decada_embedded_example.Optiga.Cmd.Request.{
  Prepared, refused, ready, tlv, Field, written, unwritten, held, transact,
}

-- eHashSequence_d
pub data HashSequence : Type 0 where
  start start_finalize continue_hash finalize terminate intermediate : HashSequence

-- eDataType_d, in `sCalcHash_d` with the data of each kind. A null pointer is `none`.
pub data HashData : Type 0 where
  data_stream : Option (List ℕ) → HashData
  oid_data : (oid offset len : ℕ) → HashData

-- eContextAction_d
pub data ContextAction : Type 0 where
  unused import_context export_context import_export : ContextAction

-- `sCalcHash_d`. `context` is the memory at pbContextData, which has `context_len` bytes or more.
pub record CalcHash : Type 0 where
  pub alg : ℕ
  pub sequence : HashSequence
  pub input : HashData
  pub out_hash : Option (List ℕ)
  pub out_room : ℕ
  pub out_len : ℕ
  pub action : ContextAction
  pub context : Option (List ℕ)
  pub context_len : ℕ

-- CMD_CALCHASH, SHA256_HASH_LEN, CALC_HASH_SHA256_CONTEXT_SIZE and CALC_HASH_FIXED_OVERHEAD_SIZE; the
-- overhead of a tag is CALC_HASH_IMPORT_OR_EXPORT_OVERHEAD_SIZE.
abbrev pub cmd_calc_hash : ℕ
cmd_calc_hash = 0x30

abbrev pub sha256_hash_len : ℕ
sha256_hash_len = 32

abbrev pub sha256_context_size : ℕ
sha256_context_size = 130

abbrev pub hash_fixed_overhead : ℕ
hash_fixed_overhead = 7

abbrev pub tag_overhead : ℕ
tag_overhead = 3

abbrev pub sequence_value : HashSequence → ℕ
sequence_value start = 0
sequence_value start_finalize = 1
sequence_value continue_hash = 2
sequence_value finalize = 3
sequence_value terminate = 4
sequence_value intermediate = 5

abbrev pub is_terminate : HashSequence → Bool
is_terminate terminate = true
is_terminate _ = false

-- The hash is an output.
abbrev pub has_hash : HashSequence → Bool
has_hash finalize = true
has_hash start_finalize = true
has_hash intermediate = true
has_hash _ = false

abbrev pub imports : ContextAction → Bool
imports import_context = true
imports import_export = true
imports _ = false

abbrev pub exports : ContextAction → Bool
exports export_context = true
exports import_export = true
exports _ = false

abbrev pub is_null : Option (List ℕ) → Bool
is_null none = true
is_null (some _) = false

-- `Get_HashInfo` on its table of one algorithm, eSHA256.
abbrev pub known_hash : ℕ → Bool
known_hash alg = alg == 0xe2

-- The type byte and the input; `none` for a null pointer. A step that terminates has no input.
abbrev pub input_of : HashSequence → HashData → Option (ℕ × List ℕ)
input_of terminate input = some (0, [])
input_of s (data_stream none) = none
input_of s (data_stream (some bytes)) = some (0, bytes)
input_of s (oid_data oid offset len) =
    some (1, two_bytes oid ++ (two_bytes offset ++ two_bytes len))

abbrev pub tags_len : ContextAction → ℕ → ℕ
tags_len unused len = 0
tags_len export_context len = tag_overhead
tags_len import_context len = u16 (tag_overhead + len)
tags_len import_export len = u16 (u16 (tag_overhead + len) + tag_overhead)

abbrev pub context_bytes : ℕ → Option (List ℕ) → List ℕ
context_bytes len none = []
context_bytes len (some c) = take len c

abbrev pub stored_in : Option (List ℕ) → List ℕ → Option (List ℕ)
stored_in none bytes = none
stored_in (some out) bytes = some (copy_to out 0 bytes)

-- The tags for the context. A step that terminates does not write them but sends their room.
abbrev pub tags_of : CalcHash → List Field
tags_of v =
    (if imports v.action then (0x06, context_bytes v.context_len v.context) ∷ [] else [])
    ++ (if exports v.action then (0x07, []) ∷ [] else [])

abbrev pub tag_bytes : CalcHash → List ℕ
tag_bytes v =
    if is_terminate v.sequence
    then unwritten (tags_len v.action v.context_len)
    else written (tags_of v)

-- The room for the answer.
abbrev pub answer_room : CalcHash → ℕ
answer_room v =
    hash_fixed_overhead
    + ((if has_hash v.sequence then sha256_hash_len else 0)
        + (if exports v.action then sha256_context_size else 0))

unfoldable pub hash_layout : ℕ → CalcHash → ℕ → List ℕ → Prepared
hash_layout max_comms v kind input =
    let tags = tags_len v.action v.context_len in
    if ltb max_comms (length input + tags + hash_fixed_overhead)
    then refused insufficient_memory
    else ready (record {
      allocated = max (u16 (hash_fixed_overhead + length input + tags)) (answer_room v);
      cmd = cmd_calc_hash;
      param = u8 v.alg;
      payload = tlv (u8 (kind * 16 + sequence_value v.sequence)) input ++ tag_bytes v;
    })

unfoldable pub hash_request : ℕ → CalcHash → Prepared
hash_request max_comms v =
    if not (known_hash v.alg)
    then refused lib_error
    else if has_hash v.sequence && is_null v.out_hash
    then refused null_param
    else if (imports v.action || exports v.action) && is_null v.context
    then refused null_param
    else elim (input_of v.sequence v.input) [
      | none ↦ refused null_param
      | some (kind, input) ↦ hash_layout max_comms v kind input
    ]

-- The hash of the answer.
unfoldable pub take_hash : CalcHash → List ℕ → CmdStatus × CalcHash
take_hash v bytes =
    let n = get_uint16 bytes 5 in
    if ltb v.out_room sha256_hash_len
    then (insufficient_memory, v)
    else if not (n == sha256_hash_len)
    then (insufficient_memory, record v { out_len = n })
    else (
      cmd_ok,
      record v {
        out_len = n;
        out_hash = stored_in v.out_hash (take n (drop hash_fixed_overhead bytes));
      },
    )

-- The context of the answer.
unfoldable pub take_context : CalcHash → List ℕ → CmdStatus × CalcHash
take_context v bytes =
    let n = get_uint16 bytes 5 in
    if ltb v.context_len sha256_context_size
    then (insufficient_memory, v)
    else if not (n == sha256_context_size)
    then (insufficient_memory, record v { context_len = n })
    else (
      cmd_ok,
      record v {
        context_len = n;
        context = stored_in v.context (take n (drop hash_fixed_overhead bytes));
      },
    )

-- What follows the exchange: the first tag of the answer decides.
unfoldable pub take_answer : CalcHash → List ℕ → List ℕ → CmdStatus × CalcHash
take_answer v response bytes =
    let tag = get_or bytes 4 0 in
    if sub16 (length response) 4 == 0
    then (cmd_ok, v)
    else if tag == 0x01
    then take_hash v bytes
    else if tag == 0x06
    then take_context v bytes
    else (cmd_ok, v)

-- `CmdLib_CalcHash`; `none` is as for `transact`.
unfoldable pub calc_hash :
    Device → ℕ → Bool → List (List ℕ) → CalcHash → Option (CmdStatus × CalcHash × List (List ℕ))
calc_hash device max_comms heap history v = elim (hash_request max_comms v) [
  | refused error ↦ some (error, v, history)
  | ready r ↦ elim (transact device max_comms heap history r) [
    | none ↦ none
    | some (status, response, after) ↦ elim status [
      | cmd_ok ↦
          let (s, filled) = take_answer v response (held r response) in some (s, filled, after)
      | error ↦ some (error, v, after)
    ]
  ]
]
