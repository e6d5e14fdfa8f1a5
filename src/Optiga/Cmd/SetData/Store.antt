-- ===== src/Optiga/Cmd/SetData/Store.antt =====
-- The loop of `CmdLib_SetDataObject` writes the whole of the data.
use mathlib.Core.List.{append_assoc}
use decada_embedded_example.Base.{
  ℕ, zero, suc, ◌+◌, ◌-◌, ◌^◌, ◌≤◌, ◌<◌, ◌≡◌, refl, sym, ap, subst, ◌∙◌, List, [], ◌∷◌, ◌++◌, true,
  false, some, length, length-take, length-drop, take, take_all, take-append-drop, drop, drop-drop,
  min, ◌==◌, Bool-cases, inl, inr, if◌then◌else◌, arith,
}
use decada_embedded_example.Base.Word.{u16}
use decada_embedded_example.Optiga.Cmd.Apdu.{
  CmdStatus, cmd_ok, Device, two_bytes, invalid_max_comms_buff_size,
}
use decada_embedded_example.Optiga.Cmd.SetData.{
  SetData, param_of, chained, overhead, write_pieces, set_data_object,
}
use decada_embedded_example.Optiga.Cmd.SetData.Effect.{
  no_erase, Accepts, Writes, piece, transceive-accepted, chained-chained, one_more, last_one,
}

module _ (device : Device) (accepts : Accepts device) (size oid : ℕ) (bytes : List ℕ) where
  abbrev write_len : ℕ → ℕ
  write_len total = min (size - overhead) (length bytes - total)

  -- One round of the loop.
  write_pieces-round :
      (fuel : ℕ) (history : List (List ℕ)) (param total offset : ℕ)
      → let k = write_len total in
        let command = piece oid (chained param total) offset (take k (drop total bytes)) in
        write_pieces (suc fuel) device size oid bytes history param total offset ≡ (
          if u16 (total + k) == length bytes
          then some (cmd_ok, history ++ (command ∷ []))
          else write_pieces fuel device size oid bytes
              (history ++ (command ∷ []))
              (chained param total)
              (u16 (total + k))
              (u16 (offset + k)))
  unfolding write_pieces
  write_pieces-round fuel history param total offset =
      let k = write_len total in
      let payload = two_bytes oid ++ (two_bytes offset ++ take k (drop total bytes)) in
      let (response, e) =
        transceive-accepted device history (chained param total) payload accepts in
      let status_is = ap (λ (r : CmdStatus × List ℕ × List (List ℕ)). r.0) e in
      let after_is = ap (λ (r : CmdStatus × List ℕ × List (List ℕ)). r.2) e in
      rw (write_pieces, status_is, after_is) refl

  tail :
      (fuel : ℕ) (history : List (List ℕ)) (param total offset : ℕ)
      → overhead < size
      → oid < 2 ^ 16
      → total < length bytes
      → total + write_len total < length bytes
      → length bytes < 2 ^ 16
      → offset + (length bytes - total) < 2 ^ 16
      → (u16 (total + write_len total) == length bytes) ≡ false
      → let k = write_len total in
        let first = chained param total in
        let command = piece oid first offset (take k (drop total bytes)) in
        (later : List (List ℕ)) × (write_pieces fuel device size oid bytes
              (history ++ (command ∷ []))
              first
              (total + k)
              (offset + k)
            ≡ some (cmd_ok, (history ++ (command ∷ [])) ++ later))
          × Writes size oid
              (offset + k)
              (chained first (total + k))
              (chained first 1)
              (drop (total + k) bytes)
              later
        → (sent : List (List ℕ)) × (write_pieces
              (suc fuel)
              device
              size
              oid
              bytes
              history
              param
              total
              offset
            ≡ some (cmd_ok, history ++ sent))
          × Writes size oid offset (chained param total) (chained param 1) (drop total bytes) sent
  tail fuel history param total offset room small_oid left more short small goes_on (later, e, w) =
      let k = write_len total in
      let rest = drop total bytes in
      let part = take k rest in
      let first = chained param total in
      let command = piece oid first offset part in
      let len = length-drop total bytes in
      let part_len : length part ≡ k = omega (arith, length-take k rest, len) in
      let after : u16 (total + k) ≡ total + k = omega arith in
      let next_offset : u16 (offset + k) ≡ offset + k = omega arith in
      let params : chained first (total + k) ≡ chained param 1 =
        chained-chained param total (total + k) (λ z. absurd (omega arith)) in
      let params1 : chained first 1 ≡ chained param 1 =
        chained-chained param total 1 (λ z. absurd (omega arith)) in
      let w1 : Writes size oid (offset + k) (chained param 1) (chained param 1)
          (drop (total + k) bytes) later =
        subst (λ c. Writes size oid (offset + k) (chained param 1) c (drop (total + k) bytes) later)
          params1
          (subst
            (λ c. Writes size oid (offset + k) c (chained first 1) (drop (total + k) bytes) later)
            params w) in
      let w2 : Writes size oid (offset + length part) (chained param 1) (chained param 1)
          (drop (total + k) bytes) later =
        subst
          (λ n.
            Writes size oid (offset + n) (chained param 1) (chained param 1)
              (drop (total + k) bytes) later)
          (sym part_len) w1 in
      let joined : part ++ drop (total + k) bytes ≡ rest =
        ap (λ r. part ++ r) (sym (drop-drop k total bytes)) ∙ take-append-drop k rest in
      (
        command ∷ later,
        write_pieces-round fuel history param total offset
            ∙ rw (goes_on, after, next_offset)
                (e ∙ ap (λ h. some (cmd_ok, h)) (append_assoc history (command ∷ []) later)),
        subst (λ b. Writes size oid offset first (chained param 1) b (command ∷ later)) joined
            (one_more size oid first (chained param 1) offset part (drop (total + k) bytes) later
              small_oid (omega arith) (omega (arith, part_len)) w2),
      )

  write_pieces-Writes :
      (fuel : ℕ) (history : List (List ℕ)) (param total offset : ℕ)
      → overhead < size
      → oid < 2 ^ 16
      → total < length bytes
      → length bytes < 2 ^ 16
      → offset + (length bytes - total) < 2 ^ 16
      → length bytes - total ≤ fuel
      → (sent : List (List ℕ)) × (write_pieces fuel device size oid bytes history param total offset
          ≡ some (cmd_ok, history ++ sent))
        × Writes size oid offset (chained param total) (chained param 1) (drop total bytes) sent
  write_pieces-Writes zero history param total offset room small_oid left short small enough =
      absurd (omega arith)
  write_pieces-Writes (suc fuel) history param total offset room small_oid left short small enough =
      let k = write_len total in
      let rest = drop total bytes in
      let part = take k rest in
      let first = chained param total in
      let command = piece oid first offset part in
      let len = length-drop total bytes in
      let part_len : length part ≡ k = omega (arith, length-take k rest, len) in
      let round = write_pieces-round fuel history param total offset in
      let after : u16 (total + k) ≡ total + k = omega arith in
      elim (Bool-cases (u16 (total + k) == length bytes)) [
        | inl ends ↦
            let whole : part ≡ rest = take_all k rest (ground (arith, len)) in
            (
              command ∷ [],
              round ∙ rw ends refl,
              subst (λ b. Writes size oid offset first (chained param 1) b (command ∷ [])) whole
                  (last_one size oid first (chained param 1) offset part small_oid (omega arith)
                    (omega (arith, part_len))),
            )
        | inr goes_on ↦
            let more : total + k < length bytes = ground (arith, after) in
            tail fuel history param total offset room small_oid left more short small goes_on (
              write_pieces-Writes fuel (history ++ (command ∷ [])) first (total + k) (offset + k)
                room small_oid more short (omega arith) (omega arith))
      ]

-- The device takes every command that writes, its buffer has a known size that is more than the overhead,
-- there is memory for a command, the number of the object and the offsets of its bytes have 16
-- bits, the data is not empty, and its kind and the write option go together. Then the object is
-- written: the call ends without an error, every command sent fits the device's buffer, and the
-- commands, read from their bytes and carried out in order, put exactly the data at the offset,
-- whatever the object held. The first command has the parameter of the call, and none after it
-- erases.
pub set_data_object-Writes :
    (device : Device) (size : ℕ) (history : List (List ℕ)) (v : SetData) (bytes : List ℕ)
    (param : ℕ)
    → Accepts device
    → overhead < size
    → size < invalid_max_comms_buff_size
    → v.bytes ≡ some bytes
    → 0 < length bytes
    → param_of v.data_or_mdata v.write_option ≡ some param
    → v.oid < 2 ^ 16
    → v.offset + length bytes < 2 ^ 16
    → (sent : List (List ℕ)) × (set_data_object device size true history v
        ≡ some (cmd_ok, history ++ sent))
      × Writes size v.oid v.offset param (no_erase param) bytes sent
unfolding set_data_object
set_data_object-Writes device size history v bytes param accepts room valid given some_bytes chosen
      small_oid small =
    let (sent, e, w) =
      write_pieces-Writes device accepts size v.oid bytes (length bytes) history param 0 v.offset
        room small_oid some_bytes (omega arith) (omega arith) (omega arith) in
    let first : chained param 0 ≡ param = ground arith in
    let later : chained param 1 ≡ no_erase param = ground arith in
    let size_ok : (size == invalid_max_comms_buff_size) ≡ false = ground arith in
    let not_empty : (length bytes == 0) ≡ false = ground arith in
    (
      sent,
      rw (set_data_object, size_ok, given, not_empty, chosen) e,
      subst (λ p. Writes size v.oid v.offset param p bytes sent) later
          (subst (λ p. Writes size v.oid v.offset p (chained param 1) bytes sent) first w),
    )
