-- ===== src/Optiga/Cmd/GetData/Serve.antt =====
-- What `CmdLib_GetDataObject` reads from a device that holds a data object.
use native.Mathlib.Nat.{suc-add}
use decada_embedded_example.Base.{
  ℕ, zero, suc, ◌+◌, ◌-◌, ◌^◌, ◌≤◌, ◌<◌, ◌≡◌, refl, sym, ap, ◌∙◌, List, [], ◌∷◌, ◌++◌, true, false,
  some, length, length-take, take, take_all, drop, copy_to, min, ltb, ◌==◌, if◌then◌else◌, arith,
}
use decada_embedded_example.Base.Word.{u16, sub16}
use decada_embedded_example.Optiga.Cmd.Apdu.{
  CmdStatus, cmd_ok, dev_error, Device, cmd_getdata, oid_error, two_bytes, apdu, get_device_error,
  transceive_apdu,
}
use decada_embedded_example.Optiga.Cmd.SetData.{e_data}
use decada_embedded_example.Optiga.Cmd.GetData.{
  GetData, get_param, read_len_of, read_payload, read_pieces,
}

abbrev pub read_command : ℕ → ℕ → ℕ → List ℕ
read_command oid offset n = apdu cmd_getdata 0 (two_bytes oid ++ (two_bytes offset ++ two_bytes n))

-- The device holds `object` after the commands that are `Good`, and reading keeps them so: it answers a
-- read with the bytes from the offset on that are there, a read behind the end with an error, and the
-- question for its error with the code for data out of bounds.
pub record Serves (device : Device) (oid : ℕ) (object : List ℕ) (Good : List (List ℕ) → Type 0)
    : Type 0 where
  pub inside :
      (history : List (List ℕ)) (offset n : ℕ)
      → Good history
      → offset < 2 ^ 16
      → n < 2 ^ 16
      → offset < length object
      → (a : ℕ) × (b : ℕ) × (c : ℕ) × (device history (read_command oid offset n)
          ≡ some (0 ∷ a ∷ b ∷ c ∷ take n (drop offset object)))
  pub behind :
      (history : List (List ℕ)) (offset n : ℕ)
      → Good history
      → offset < 2 ^ 16
      → n < 2 ^ 16
      → length object ≤ offset
      → (code : ℕ) × (rest : List ℕ) × (device history (read_command oid offset n)
          ≡ some (suc code ∷ rest))
  pub error :
      (history : List (List ℕ))
      → Good history
      → (a : ℕ) × (b : ℕ) × (c : ℕ) × (rest : List ℕ) × (device history
            (apdu cmd_getdata 0 (two_bytes oid_error))
          ≡ some (0 ∷ a ∷ b ∷ c ∷ 8 ∷ rest))
  pub kept :
      (history : List (List ℕ)) (param : ℕ) (payload : List ℕ)
      → Good history
      → Good (history ++ (apdu cmd_getdata param payload ∷ []))

pub take-split : (k m : ℕ) (xs : List ℕ) → take (k + m) xs ≡ take k xs ++ take m (drop k xs)
take-split zero m xs = ap (λ n. take n xs) (omega arith)
take-split (suc k) m [] = take_all (suc k + m) [] (omega arith) ∙ sym (take_all m [] (omega arith))
take-split (suc k) m (x ∷ xs) = rw suc-add (ap (λ r. x ∷ r) (take-split k m xs))

pub drop_all : (n : ℕ) (xs : List ℕ) → length xs ≤ n → drop n xs ≡ []
drop_all zero [] h = refl
drop_all (suc n) [] h = refl
drop_all zero (x ∷ xs) h = absurd (omega arith)
drop_all (suc n) (x ∷ xs) h = drop_all n xs (omega arith)

module _ (device : Device) (oid : ℕ) (object : List ℕ) (Good : List (List ℕ) → Type 0)
    (serves : Serves device oid object Good) where
  answers :
      (history : List (List ℕ)) (offset n : ℕ)
      → Good history
      → offset < 2 ^ 16
      → n < 2 ^ 16
      → offset < length object
      → (a : ℕ) × (b : ℕ) × (c : ℕ) × (transceive_apdu device true history cmd_getdata 0
            (two_bytes oid ++ (two_bytes offset ++ two_bytes n))
          ≡ (
            cmd_ok,
            0 ∷ a ∷ b ∷ c ∷ take n (drop offset object),
            history ++ (read_command oid offset n ∷ []),
          ))
  unfolding transceive_apdu
  answers history offset n good small small_n h =
      let (a, b, c, e) = serves.inside history offset n good small small_n h in
      (a, b, c, rw (transceive_apdu, e) refl)

  refuses :
      (history : List (List ℕ)) (offset n : ℕ)
      → Good history
      → offset < 2 ^ 16
      → n < 2 ^ 16
      → length object ≤ offset
      → (response : List ℕ) × (after : List (List ℕ)) × (transceive_apdu device true history
            cmd_getdata 0
            (two_bytes oid ++ (two_bytes offset ++ two_bytes n))
          ≡ (dev_error 8, response, after))
  unfolding transceive_apdu get_device_error
  refuses history offset n good small small_n h =
      let (code, rest, e) = serves.behind history offset n good small small_n h in
      let asked = history ++ (read_command oid offset n ∷ []) in
      let (a, b, c, more, e2) =
        serves.error asked
          (serves.kept history 0 (two_bytes oid ++ (two_bytes offset ++ two_bytes n)) good) in
      let positive : (suc code == 0) ≡ false = ground arith in
      (
        suc code ∷ rest,
        asked ++ (apdu cmd_getdata 0 (two_bytes oid_error) ∷ []),
        rw (transceive_apdu, e, get_device_error, e2, positive) refl,
      )

  module _ (size : ℕ) (v : GetData) (buffer_length : ℕ) (same : v.oid ≡ oid)
      (data_wanted : v.data_or_mdata ≡ e_data) where
    abbrev Asked : Type 0
    Asked = CmdStatus × List ℕ × List (List ℕ)

    abbrev pub read_len : ℕ → ℕ
    read_len total = min (size - 4) (v.wanted - total)

    -- A round with an answer.
    pub read_pieces-answered :
        (fuel : ℕ) (buffer : List ℕ) (history : List (List ℕ)) (total offset : ℕ)
        → Good history
        → total < v.wanted
        → offset < length object
        → v.wanted ≤ buffer_length
        → v.wanted < 2 ^ 16
        → offset < 2 ^ 16
        → let part = take (read_len total) (drop offset object) in
          let n = length part in
          (after : List (List ℕ)) × Good after
          × (read_pieces (suc fuel) device size v buffer_length buffer history total offset ≡ (
              if u16 (total + n) == v.wanted
              then some (record {
                status = cmd_ok;
                buffer = copy_to buffer total part;
                total = u16 (total + n);
                history = after;
              })
              else if read_len total == n
              then read_pieces fuel device size v buffer_length
                  (copy_to buffer total part)
                  after
                  (u16 (total + n))
                  (u16 (offset + n))
              else some (record {
                status = cmd_ok;
                buffer = copy_to buffer total part;
                total = u16 (total + n);
                history = after;
              })))
    unfolding read_pieces
    read_pieces-answered fuel buffer history total offset good left inside fits small small_offset =
        let k = read_len total in
        let part = take k (drop offset object) in
        let (a, b, c, e) = answers history offset k good small_offset (omega arith) inside in
        let after = history ++ (read_command oid offset k ∷ []) in
        let below : ltb total v.wanted ≡ true = ground arith in
        let asked : Asked =
          transceive_apdu device true history cmd_getdata (get_param v.data_or_mdata) (
            read_payload v.data_or_mdata v.oid offset
              (read_len_of v.data_or_mdata size v.wanted total)) in
        let call : asked ≡ (cmd_ok, 0 ∷ a ∷ b ∷ c ∷ part, after) =
          rw (data_wanted, below, same) e in
        let status_is = ap (λ (r : Asked). r.0) call in
        let response_is = ap (λ (r : Asked). r.1) call in
        let after_is = ap (λ (r : Asked). r.2) call in
        let len_of : read_len_of v.data_or_mdata size v.wanted total ≡ k =
          rw (data_wanted, below) refl in
        let part_len : length part ≤ k = omega (arith, length-take k (drop offset object)) in
        let len_is : sub16 (length (0 ∷ a ∷ b ∷ c ∷ part)) 4 ≡ length part =
          omega (arith, part_len) in
        let room : ltb (buffer_length - total) (length part) ≡ false = ground (arith, part_len) in
        let whole : take (length part) part ≡ part = take_all (length part) part (omega arith) in
        (
          after,
          serves.kept history 0 (two_bytes oid ++ (two_bytes offset ++ two_bytes k)) good,
          rw (read_pieces, status_is, response_is, after_is, len_of, len_is, room, whole) refl,
        )

    -- A round behind the end.
    pub read_pieces-refused :
        (fuel : ℕ) (buffer : List ℕ) (history : List (List ℕ)) (total offset : ℕ)
        → Good history
        → total < v.wanted
        → length object ≤ offset
        → v.wanted < 2 ^ 16
        → offset < 2 ^ 16
        → (after : List (List ℕ)) × (read_pieces
              (suc fuel)
              device
              size
              v
              buffer_length
              buffer
              history
              total
              offset
            ≡ some
                (record { status = dev_error 8; buffer = buffer; total = total; history = after }))
    unfolding read_pieces
    read_pieces-refused fuel buffer history total offset good left behind small small_offset =
        let (response, after, e) =
          refuses history offset (read_len total) good small_offset (omega arith) behind in
        let below : ltb total v.wanted ≡ true = ground arith in
        let asked : Asked =
          transceive_apdu device true history cmd_getdata (get_param v.data_or_mdata) (
            read_payload v.data_or_mdata v.oid offset
              (read_len_of v.data_or_mdata size v.wanted total)) in
        let call : asked ≡ (dev_error 8, response, after) = rw (data_wanted, below, same) e in
        let status_is = ap (λ (r : Asked). r.0) call in
        let after_is = ap (λ (r : Asked). r.2) call in
        (after, rw (read_pieces, status_is, after_is) refl)
