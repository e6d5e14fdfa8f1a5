-- ===== src/Optiga/Objects/RoundTrip.antt =====
-- `optiga_util_write_data` and `optiga_util_read_data` with a device that keeps what is written.
use decada_embedded_example.Base.{
  ℕ, suc, ◌+◌, ◌^◌, ◌≤◌, ◌<◌, ◌≡◌, refl, ap, ◌∙◌, List, [], ◌∷◌, ◌++◌, true, false, some, length,
  length-copy_to, take, take-drop-copy_to, drop, get_or, copy_to, ◌==◌, arith,
}
use decada_embedded_example.Optiga.Status.{lib_success}
use decada_embedded_example.Optiga.Cmd.Apdu.{
  Device, cmd_getdata, oid_error, two_bytes, apdu, invalid_max_comms_buff_size,
}
use decada_embedded_example.Optiga.Cmd.SetData.{SetData, overhead, e_data, e_write}
use decada_embedded_example.Optiga.Cmd.SetData.Effect.{Accepts, Params, put, stored}
use decada_embedded_example.Optiga.Cmd.SetData.Store.{set_data_object-Writes}
use decada_embedded_example.Optiga.Cmd.GetData.Serve.{Serves, read_command}
use decada_embedded_example.Optiga.Cmd.GetData.Read.{reads_object}
use decada_embedded_example.Optiga.Objects.{read_by, read_data, write_data}

-- No command erases or writes metadata.
abbrev pub Plain : List (List ℕ) → Type 0
Plain [] = Unit
Plain (command ∷ rest) = (get_or command 0 0 ≡ 2 → get_or command 1 0 ≡ 0) × Plain rest

-- The device takes every write, and while there are plain writes only it holds what they make of the
-- object that it had.
pub record Stores (device : Device) (oid : ℕ) (initial : List ℕ) : Type 0 where
  pub accepts : Accepts device
  pub inside :
      (history : List (List ℕ)) (offset n : ℕ)
      → Plain history
      → offset < 2 ^ 16
      → n < 2 ^ 16
      → offset < length (stored oid initial history)
      → (a : ℕ) × (b : ℕ) × (c : ℕ) × (device history (read_command oid offset n)
          ≡ some (0 ∷ a ∷ b ∷ c ∷ take n (drop offset (stored oid initial history))))
  pub behind :
      (history : List (List ℕ)) (offset n : ℕ)
      → Plain history
      → offset < 2 ^ 16
      → n < 2 ^ 16
      → length (stored oid initial history) ≤ offset
      → (code : ℕ) × (rest : List ℕ) × (device history (read_command oid offset n)
          ≡ some (suc code ∷ rest))
  pub error :
      (history : List (List ℕ))
      → Plain history
      → (a : ℕ) × (b : ℕ) × (c : ℕ) × (rest : List ℕ) × (device history
            (apdu cmd_getdata 0 (two_bytes oid_error))
          ≡ some (0 ∷ a ∷ b ∷ c ∷ 8 ∷ rest))

stored-append :
    (oid : ℕ) (object : List ℕ) (xs ys : List (List ℕ))
    → stored oid object (xs ++ ys) ≡ stored oid (stored oid object xs) ys
stored-append oid object [] ys = refl
stored-append oid object (x ∷ xs) ys = stored-append oid (put oid object x) xs ys

Plain-append : (xs ys : List (List ℕ)) → Plain xs → Plain ys → Plain (xs ++ ys)
Plain-append [] ys p q = q
Plain-append (x ∷ xs) ys (h, p) q = (h, Plain-append xs ys p q)

Params-Plain : (sent : List (List ℕ)) → Params 0 0 sent → Plain sent
Params-Plain [] p = tt
Params-Plain (command ∷ rest) (h, p) = (λ _. h, Params-Plain rest p)

-- A read changes no object.
put_read :
    (oid : ℕ) (object : List ℕ) (param : ℕ) (payload : List ℕ)
    → put oid object (apdu cmd_getdata param payload) ≡ object
put_read oid object param [] = refl
put_read oid object param (a ∷ []) = refl
put_read oid object param (a ∷ b ∷ []) = refl
put_read oid object param (a ∷ b ∷ c ∷ []) = refl
put_read oid object param (a ∷ b ∷ c ∷ d ∷ rest) = refl

abbrev Good : ℕ → List ℕ → List ℕ → List (List ℕ) → Type 0
Good oid initial object history = Plain history × (stored oid initial history ≡ object)

Stores-Serves :
    (device : Device) (oid : ℕ) (initial object : List ℕ)
    → Stores device oid initial
    → Serves device oid object (Good oid initial object)
Stores-Serves device oid initial object s = record {
  inside = λ history offset n good small small_n h.
      let (a, b, c, e) =
        s.inside history offset n good.0 small small_n
          (omega (arith, ap (λ (o : List ℕ). length o) good.1)) in
      (a, b, c, e ∙ ap (λ o. some (0 ∷ a ∷ b ∷ c ∷ take n (drop offset o))) good.1);
  behind = λ history offset n good small small_n h.
      s.behind history offset n good.0 small small_n
        (omega (arith, ap (λ (o : List ℕ). length o) good.1));
  error = λ history good. s.error history good.0;
  kept = λ history param payload good. (
    Plain-append history (apdu cmd_getdata param payload ∷ []) good.0
        (λ two. absurd (omega arith), tt),
    stored-append oid initial history (apdu cmd_getdata param payload ∷ [])
        ∙ put_read oid (stored oid initial history) param payload
        ∙ good.1,
  );
}

-- The device keeps what plain writes put, only plain writes were sent before, its buffer has a known size
-- that is more than the overhead of a write, and there is memory for the commands. The data is not empty,
-- the object has room for it at the offset, the numbers have 16 bits, and the buffer has room for what is
-- read. Then a plain write succeeds, and a read of as many bytes from the same offset after it succeeds and
-- gives the data, with the rest of the buffer as it was.
pub read_data-write_data :
    (device : Device) (oid max_comms offset : ℕ) (initial bytes buffer : List ℕ)
    (history : List (List ℕ))
    → Stores device oid initial
    → Plain history
    → overhead < max_comms
    → max_comms < invalid_max_comms_buff_size
    → 0 < length bytes
    → oid < 2 ^ 16
    → offset + length bytes < 2 ^ 16
    → offset + length bytes ≤ length (stored oid initial history)
    → length bytes ≤ length buffer
    → (sent : List (List ℕ)) × (write_data device max_comms true history oid 0 offset (some bytes)
        ≡ some (lib_success, history ++ sent))
      × (read_data device max_comms true
            (history ++ sent)
            oid
            offset
            (some buffer)
            (some (length bytes))
          ≡ some (lib_success, bytes ++ drop (length bytes) buffer, length bytes))
unfolding write_data read_data
read_data-write_data device oid max_comms offset initial bytes buffer history stores plain room
      known some_bytes small_oid small inside fits =
    let v : SetData = record {
      oid = oid;
      offset = offset;
      bytes = some bytes;
      data_or_mdata = e_data;
      write_option = e_write;
    } in
    let (sent, e, w) =
      set_data_object-Writes device max_comms history v bytes 0 stores.accepts room known refl
        some_bytes refl small_oid small in
    let before = stored oid initial history in
    let object = copy_to before offset bytes in
    let good : Good oid initial object (history ++ sent) = (
      Plain-append history sent plain (Params-Plain sent w.params),
      stored-append oid initial history sent ∙ w.effect before,
    ) in
    let some_size : (length bytes == 0) ≡ false = ground arith in
    let read =
      reads_object device object (Good oid initial object) max_comms (history ++ sent)
        (record { oid = oid; offset = offset; wanted = length bytes; data_or_mdata = e_data })
        buffer (length bytes) 0 (Stores-Serves device oid initial object stores) good refl
        (omega arith) known some_bytes (omega arith) fits
        (omega (arith, length-copy_to before bytes offset)) (omega arith) (omega arith) in
    let found = take-drop-copy_to before bytes offset inside in
    (sent, rw (write_data, some_size, e) refl, rw (read_data, some_size, read_by, read, found) refl)
