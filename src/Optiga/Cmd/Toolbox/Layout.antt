-- ===== src/Optiga/Cmd/Toolbox/Layout.antt =====
-- What the commands that are laid out in an allocated buffer put into it.
use decada_embedded_example.Base.{
  ℕ, ◌+◌, ◌^◌, ◌≤◌, ◌<◌, ◌≡◌, refl, sym, ap, subst, ◌∙◌, List, [], ◌∷◌, Bool, true, false, Option,
  none, some, length, max, ltb, ◌==◌, Bool-cases, inl, inr, if◌then◌else◌, arith,
}
use decada_embedded_example.Base.Word.{u8, u16}
use decada_embedded_example.Optiga.Cmd.Apdu.{
  null_param, Device, two_bytes, invalid_max_comms_buff_size,
}
use decada_embedded_example.Optiga.Cmd.Request.{
  Request, Prepared, refused, ready, sized, Field, written, transact,
}
use decada_embedded_example.Optiga.Cmd.Request.Fields.{
  Holds, AllShort, size, length-written, written-Holds, sized-ready,
}
use decada_embedded_example.Optiga.Cmd.Toolbox.{
  from_host, from_device, verify_layout, sign_layout, secret_request, derive_request, Blob,
  verify_request, sign_request, target_size, null_target,
}

-- An order of the application, with no null pointer.
pub data Order : Type 0 where
  verify : (scheme alg : ℕ) (key digest signature : List ℕ) → Order
  verify_by_object : (scheme oid : ℕ) (digest signature : List ℕ) → Order
  sign : (scheme oid : ℕ) (digest : List ℕ) → Order
  agree : (agreement alg private_oid secret_oid : ℕ) (key : List ℕ) → Order
  derive : (method secret_oid key_len key_oid : ℕ) (seed : List ℕ) → Order

abbrev pub prepare : ℕ → Blob → Order → Prepared
prepare max_comms out (verify scheme alg key digest signature) =
    verify_request max_comms scheme (from_host alg (some key)) (some digest) (some signature)
prepare max_comms out (verify_by_object scheme oid digest signature) =
    verify_request max_comms scheme (from_device oid) (some digest) (some signature)
prepare max_comms out (sign scheme oid digest) =
    sign_request max_comms (record { scheme = scheme; key_oid = oid; digest = some digest }) out
prepare max_comms out (agree agreement alg private_oid secret_oid key) =
    secret_request max_comms
      (record {
        agreement = agreement;
        key_alg = alg;
        private_oid = private_oid;
        secret_oid = secret_oid;
        public_key = some key;
      })
      out
prepare max_comms out (derive method secret_oid key_len key_oid seed) =
    derive_request max_comms
      (record {
        method = method;
        secret_oid = secret_oid;
        key_len = key_len;
        key_oid = key_oid;
        seed = some seed;
      })
      out

-- What the device is to read.
abbrev pub target_field : ℕ → Field
target_field oid = if oid == 0 then (7, []) else (8, two_bytes oid)

abbrev pub fields_wanted : Order → List Field
fields_wanted (verify scheme alg key digest signature) =
    (1, digest) ∷ (2, signature) ∷ (5, u8 alg ∷ []) ∷ (6, key) ∷ []
fields_wanted (verify_by_object scheme oid digest signature) =
    (1, digest) ∷ (2, signature) ∷ (4, two_bytes oid) ∷ []
fields_wanted (sign scheme oid digest) = (1, digest) ∷ (3, two_bytes oid) ∷ []
fields_wanted (agree agreement alg private_oid secret_oid key) =
    (1, two_bytes private_oid) ∷ (5, u8 alg ∷ []) ∷ (6, key) ∷ target_field secret_oid ∷ []
fields_wanted (derive method secret_oid key_len key_oid seed) =
    (1, two_bytes secret_oid) ∷ (2, seed) ∷ (3, two_bytes key_len) ∷ target_field key_oid ∷ []

-- The room that the command and the answer take together.
abbrev pub room : Order → ℕ
room (sign scheme oid digest) = 4 + max (8 + length digest) 119
room (derive method secret_oid key_len key_oid seed) =
    (if key_oid == 0 then 20 else 22) + max (length seed) key_len
room order = 4 + size (fields_wanted order)

-- Lengths are numbers of 16 bits in the program.
abbrev pub Lengths : Order → Type 0
Lengths (verify scheme alg key digest signature) =
    (length key < 2 ^ 16) × (length digest < 2 ^ 16) × (length signature < 2 ^ 16)
Lengths (verify_by_object scheme oid digest signature) =
    (length digest < 2 ^ 16) × (length signature < 2 ^ 16)
Lengths (sign scheme oid digest) = length digest < 2 ^ 16
Lengths (agree agreement alg private_oid secret_oid key) = length key < 2 ^ 16
Lengths (derive method secret_oid key_len key_oid seed) =
    (length seed < 2 ^ 16) × (key_len < 2 ^ 16)

record Laid (max_comms : ℕ) (r : Request) (o : Order) : Type 0 where
  payload : r.payload ≡ written (fields_wanted o)
  allocated : r.allocated ≡ u16 (room o)
  sized_by : r.allocated ≤ max_comms

laid :
    (max_comms : ℕ) (r s : Request) (o : Order)
    → sized max_comms r ≡ ready s
    → r.payload ≡ written (fields_wanted o)
    → r.allocated ≡ u16 (room o)
    → Laid max_comms s o
laid max_comms r s o h p a =
    let (same, fits) = sized-ready max_comms r s h in
    subst (λ t. Laid max_comms t o) same record { payload = p; allocated = a; sized_by = fits }

given_ready :
    (s : Option (List ℕ)) (p : Prepared) (r : Request)
    → elim s [ none ↦ refused null_param | some x ↦ p ] ≡ ready r
    → p ≡ ready r
given_ready none p r h = cc
given_ready (some x) p r h = h

unless_ready :
    (b : Bool) (p : Prepared) (r : Request)
    → (if b then refused null_param else p) ≡ ready r
    → p ≡ ready r
unless_ready true p r h = cc
unless_ready false p r h = h

-- The room for the target of a result.
target_room : (oid n : ℕ) → target_size oid (u16 (n + 2)) ≡ u16 ((if oid == 0 then 0 else 2) + n)
target_room oid n = elim (Bool-cases (oid == 0)) [
  | inl e ↦ rw e (omega arith)
  | inr e ↦ rw e (omega arith)
]

length-target : (oid : ℕ) → length (target_field oid).1 ≡ (if oid == 0 then 0 else 2)
length-target oid = elim (Bool-cases (oid == 0)) [ inl e ↦ rw e refl | inr e ↦ rw e refl ]

target_both :
    (oid n : ℕ) → (if oid == 0 then 20 else 22) + n ≡ (if oid == 0 then 0 else 2) + (20 + n)
target_both oid n = ground arith

prepare-Laid :
    (max_comms : ℕ) (out : Blob) (o : Order) (r : Request)
    → prepare max_comms out o ≡ ready r
    → Lengths o
    → Laid max_comms r o
unfolding verify_request verify_layout sign_request sign_layout secret_request derive_request
prepare-Laid max_comms out (verify scheme alg key digest signature) r h short =
    laid max_comms _ r (verify scheme alg key digest signature) h refl (ap u16 (omega arith))
prepare-Laid max_comms out (verify_by_object scheme oid digest signature) r h short =
    laid max_comms _ r (verify_by_object scheme oid digest signature) h refl (ap u16 (omega arith))
prepare-Laid max_comms out (sign scheme oid digest) r h short =
    laid max_comms _ r (sign scheme oid digest) (given_ready out.stream _ r h) refl refl
prepare-Laid max_comms out (agree agreement alg private_oid secret_oid key) r h short =
    laid max_comms _ r (agree agreement alg private_oid secret_oid key)
      (unless_ready (null_target secret_oid out.stream) _ r h) refl
      (ap (λ n. target_size secret_oid (u16 n)) (omega arith)
        ∙ target_room secret_oid (19 + length key)
        ∙ ap u16 (omega (arith, length-target secret_oid)))
prepare-Laid max_comms out (derive method secret_oid key_len key_oid seed) r h short =
    laid max_comms _ r (derive method secret_oid key_len key_oid seed)
      (unless_ready (null_target key_oid out.stream) _ r h) refl
      (ap (λ n. target_size key_oid (u16 n)) (omega arith)
        ∙ target_room key_oid (20 + max (length seed) key_len)
        ∙ ap u16 (sym (target_both key_oid (max (length seed) key_len))))

short_fields : (o : Order) → Lengths o → AllShort (fields_wanted o)
short_fields (verify scheme alg key digest signature) h = ground arith
short_fields (verify_by_object scheme oid digest signature) h = ground arith
short_fields (sign scheme oid digest) h = ground arith
short_fields (agree agreement alg private_oid secret_oid key) h =
    ground (arith, length-target secret_oid)
short_fields (derive method secret_oid key_len key_oid seed) h =
    ground (arith, length-target key_oid)

size-le-room : (o : Order) → 4 + size (fields_wanted o) ≤ room o
size-le-room (verify scheme alg key digest signature) = omega arith
size-le-room (verify_by_object scheme oid digest signature) = omega arith
size-le-room (sign scheme oid digest) = omega arith
size-le-room (agree agreement alg private_oid secret_oid key) = omega arith
size-le-room (derive method secret_oid key_len key_oid seed) =
    omega (arith, length-target key_oid, target_both key_oid (max (length seed) key_len))

-- The order's command is prepared, and it and its answer have room in 16 bits. Then the command's bytes,
-- read as tagged fields, are the values of the order in the device's order of fields, and the command
-- fits both the buffer that is allocated for it and the device's buffer.
pub prepare-Holds :
    (max_comms : ℕ) (out : Blob) (o : Order) (r : Request)
    → prepare max_comms out o ≡ ready r
    → Lengths o
    → room o < 2 ^ 16
    → Holds max_comms r (fields_wanted o)
prepare-Holds max_comms out o r h short fits =
    let l = prepare-Laid max_comms out o r h short in
    let exact : r.allocated ≡ room o = omega (arith, l.allocated) in
    let least = size-le-room o in
    written-Holds max_comms r (fields_wanted o) l.payload (omega (arith, exact, least))
      (omega (arith, exact, least, l.sized_by)) (short_fields o short)

wrapped_room : (o : Order) → Lengths o → 2 ^ 16 ≤ room o → u16 (room o) < 4 + size (fields_wanted o)
wrapped_room (verify scheme alg key digest signature) short wide = omega arith
wrapped_room (verify_by_object scheme oid digest signature) short wide = omega arith
wrapped_room (sign scheme oid digest) short wide = omega arith
wrapped_room (agree agreement alg private_oid secret_oid key) short wide = omega arith
wrapped_room (derive method secret_oid key_len key_oid seed) short wide =
    ground (arith, length-target key_oid)

-- When the room of the order does not fit 16 bits, the size that is allocated has wrapped round.
-- If the check of the size against the device's buffer lets it through, the command is written behind
-- its buffer.
pub wrapped_overruns :
    (device : Device) (max_comms : ℕ) (history : List (List ℕ)) (out : Blob) (o : Order)
    (r : Request)
    → prepare max_comms out o ≡ ready r
    → max_comms < invalid_max_comms_buff_size
    → Lengths o
    → 2 ^ 16 ≤ room o
    → transact device max_comms true history r ≡ none
unfolding transact
wrapped_overruns device max_comms history out o r h known short wide =
    let l = prepare-Laid max_comms out o r h short in
    let len : length r.payload ≡ size (fields_wanted o) =
      ap length l.payload ∙ length-written (fields_wanted o) in
    let known_size : (max_comms == invalid_max_comms_buff_size) ≡ false = ground arith in
    let behind : ltb r.allocated (4 + length r.payload) ≡ true =
      ground (arith, len, l.allocated, wrapped_room o short wide) in
    rw (transact, known_size, behind) refl
