-- ===== src/Optiga/Cmd/GetData/Read.antt =====
-- `CmdLib_GetDataObject` reads what the device's object has of the bytes wanted.
use decada_embedded_example.Base.{
  ℕ, zero, suc, ◌+◌, ◌-◌, ◌^◌, ◌≤◌, ◌<◌, ◌≡◌, ◌⊎◌, inl, inr, refl, sym, ap, subst, ◌∙◌, List, [],
  ◌++◌, true, false, Option, some, length, length-take, length-drop, length-append, copy_to_start,
  take, take_all, drop, drop-drop, copy_to, ◌==◌, Bool-cases, le_or_lt, arith,
}
use decada_embedded_example.Base.Word.{u16}
use decada_embedded_example.Optiga.Cmd.Apdu.{
  CmdStatus, cmd_ok, dev_error, Device, invalid_max_comms_buff_size,
}
use decada_embedded_example.Optiga.Cmd.SetData.{e_data}
use decada_embedded_example.Optiga.Cmd.SetData.Effect.{copy_to-append_source}
use decada_embedded_example.Optiga.Cmd.GetData.Serve.{
  Serves, take-split, drop_all, read_len, read_pieces-answered, read_pieces-refused,
}
use decada_embedded_example.Optiga.Cmd.GetData.{
  GetData, start_of, Reading, read_pieces, finish, get_data_object,
}

-- The loop has ended after `want`: every byte was read, or the last round fell behind the end.
record Ended (read : Option Reading) (buffer : List ℕ) (total : ℕ) (want : List ℕ) : Type 0 where
  status : CmdStatus
  after : List (List ℕ)
  fine : (status ≡ cmd_ok) ⊎ (status ≡ dev_error 8)
  result :
      read
      ≡ some (record {
        status = status;
        buffer = copy_to buffer total want;
        total = total + length want;
        history = after;
      })

module _ (device : Device) (oid : ℕ) (object : List ℕ) (Good : List (List ℕ) → Type 0)
    (serves : Serves device oid object Good) (size : ℕ) (v : GetData) (buffer_length : ℕ)
    (same : v.oid ≡ oid) (data_wanted : v.data_or_mdata ≡ e_data) where
  -- The last round: nothing more is wanted, or nothing more is there.
  last_round :
      (read : Option Reading) (buffer part : List ℕ) (total offset : ℕ) (after : List (List ℕ))
      → total + length part < 2 ^ 16
      → part ≡ take (v.wanted - total) (drop offset object)
      → read
        ≡ some (record {
          status = cmd_ok;
          buffer = copy_to buffer total part;
          total = u16 (total + length part);
          history = after;
        })
      → Ended read buffer total (take (v.wanted - total) (drop offset object))
  last_round read buffer part total offset after small whole e =
      let now : u16 (total + length part) ≡ total + length part = omega arith in
      subst (λ w. Ended read buffer total w) whole
        record { status = cmd_ok; after = after; fine = inl refl; result = e ∙ rw now refl }

  -- A round before the ones that read the rest.
  one_round :
      (read next : Option Reading) (buffer : List ℕ) (total offset k : ℕ)
      → length (take k (drop offset object)) ≡ k
      → k ≤ v.wanted - total
      → read ≡ next
      → Ended next
          (copy_to buffer total (take k (drop offset object)))
          (total + k)
          (take (v.wanted - (total + k)) (drop (offset + k) object))
      → Ended read buffer total (take (v.wanted - total) (drop offset object))
  one_round read next buffer total offset k len below goes_on ended =
      let part = take k (drop offset object) in
      let more = take (v.wanted - (total + k)) (drop (offset + k) object) in
      let joined : part ++ more ≡ take (v.wanted - total) (drop offset object) =
        ap (λ r. part ++ take (v.wanted - (total + k)) r) (sym (drop-drop k offset object))
        ∙ sym (take-split k (v.wanted - (total + k)) (drop offset object))
        ∙ ap (λ n. take n (drop offset object)) (omega arith) in
      let copied : copy_to (copy_to buffer total part) (total + k) more
          ≡ copy_to buffer total (part ++ more) =
        ap (λ n. copy_to (copy_to buffer total part) (total + n) more) (sym len)
        ∙ sym (copy_to-append_source buffer part more total) in
      let counted : (total + k) + length more ≡ total + length (part ++ more) =
        omega (arith, length-append part more, len) in
      subst (λ w. Ended read buffer total w) joined
        record {
          status = ended.status;
          after = ended.after;
          fine = ended.fine;
          result = goes_on ∙ ended.result ∙ rw (copied, counted) refl;
        }

  -- A round behind the end.
  nothing_left :
      (fuel : ℕ) (buffer : List ℕ) (history : List (List ℕ)) (total offset : ℕ)
      → Good history
      → total < v.wanted
      → length object ≤ offset
      → v.wanted < 2 ^ 16
      → offset < 2 ^ 16
      → Ended
          (read_pieces (suc fuel) device size v buffer_length buffer history total offset)
          buffer
          total
          (take (v.wanted - total) (drop offset object))
  nothing_left fuel buffer history total offset good left behind small small_offset =
      let (after, e) =
        read_pieces-refused device oid object Good serves size v buffer_length same data_wanted fuel
          buffer history total offset good left behind small small_offset in
      let nothing : drop offset object ≡ [] = drop_all offset object behind in
      let nothing_wanted : take (v.wanted - total) (drop offset object) ≡ [] =
        ap (λ r. take (v.wanted - total) r) nothing
        ∙ take_all (v.wanted - total) [] (omega arith) in
      subst
        (λ w.
          Ended (read_pieces (suc fuel) device size v buffer_length buffer history total offset)
            buffer total w)
        (sym nothing_wanted)
        record {
          status = dev_error 8;
          after = after;
          fine = inr refl;
          result =
              e
              ∙ ap
                  (λ n.
                    some (record {
                      status = dev_error 8;
                      buffer = buffer;
                      total = n;
                      history = after;
                    }))
                  (omega arith);
        }

  read_pieces-Ended :
      (fuel : ℕ) (buffer : List ℕ) (history : List (List ℕ)) (total offset : ℕ)
      → Good history
      → 4 < size
      → total < v.wanted
      → v.wanted ≤ buffer_length
      → v.wanted < 2 ^ 16
      → offset + (v.wanted - total) < 2 ^ 16
      → v.wanted - total ≤ fuel
      → Ended
          (read_pieces fuel device size v buffer_length buffer history total offset)
          buffer
          total
          (take (v.wanted - total) (drop offset object))
  read_pieces-Ended zero buffer history total offset good room left fits small short enough =
      absurd (omega arith)
  read_pieces-Ended (suc fuel) buffer history total offset good room left fits small short enough =
      elim (le_or_lt (length object) offset) [
        | inl behind ↦
            nothing_left fuel buffer history total offset good left behind small (omega arith)
        | inr inside ↦
            let k =
              read_len device oid object Good serves size v buffer_length same data_wanted total in
            let rest = drop offset object in
            let part = take k rest in
            let len = length-take k rest in
            let len_rest = length-drop offset object in
            let now : u16 (total + length part) ≡ total + length part = omega (arith, len) in
            let next : u16 (offset + length part) ≡ offset + length part = omega (arith, len) in
            let (after, good_after, e) =
              read_pieces-answered device oid object Good serves size v buffer_length same
                data_wanted fuel buffer history total offset good left inside fits small
                (omega arith) in
            let read =
              read_pieces (suc fuel) device size v buffer_length buffer history total offset in
            elim (Bool-cases (u16 (total + length part) == v.wanted)) [
              | inl ends ↦
                  let all : k ≡ v.wanted - total = ground (arith, len, now) in
                  last_round read buffer part total offset after (omega (arith, len))
                    (ap (λ n. take n rest) all) (e ∙ rw ends refl)
              | inr goes_on ↦ elim (Bool-cases (k == length part)) [
                | inl full ↦
                    let exact : length part ≡ k = ground arith in
                    let more : total + k < v.wanted = ground (arith, now, exact) in
                    let ended =
                      read_pieces-Ended fuel (copy_to buffer total part) after (total + k)
                        (offset + k) good_after room more fits small (omega arith) (omega arith) in
                    one_round read
                      (read_pieces fuel device size v buffer_length (copy_to buffer total part)
                        after (total + k) (offset + k))
                      buffer total offset k exact (omega arith)
                      (e ∙ rw (goes_on, full, now, next, exact) refl) ended
                | inr short_part ↦
                    let fewer : length part < k = ground (arith, len) in
                    let whole : part ≡ take (v.wanted - total) rest =
                      take_all k rest (omega (arith, len))
                      ∙ sym (take_all (v.wanted - total) rest (omega (arith, len))) in
                    last_round read buffer part total offset after (omega (arith, len)) whole
                      (e ∙ rw (goes_on, short_part) refl)
              ]
            ]
      ]

-- The device holds `object` after the commands of a class to which those sent before belong and which
-- reading does not leave; its buffer has a known size that is more than the header of an answer, there is memory for a command, data is wanted and not metadata, the offset is inside the
-- object, at least one byte is wanted, the bytes wanted have offsets of 16 bits, and the caller's
-- buffer has room for them. Then the call ends without an error, the buffer begins with the wanted
-- bytes that the object has from the offset on, the rest of the buffer is as before, and the
-- length is the number of these bytes: fewer than wanted when the object ends before.
pub reads_object :
    (device : Device) (object : List ℕ) (Good : List (List ℕ) → Type 0) (size : ℕ)
    (history : List (List ℕ)) (v : GetData) (buffer : List ℕ) (buffer_length resp_length : ℕ)
    → Serves device v.oid object Good
    → Good history
    → v.data_or_mdata ≡ e_data
    → 4 < size
    → size < invalid_max_comms_buff_size
    → 0 < v.wanted
    → v.wanted ≤ buffer_length
    → buffer_length ≤ length buffer
    → v.offset < length object
    → v.wanted < 2 ^ 16
    → v.offset + v.wanted < 2 ^ 16
    → let found = take v.wanted (drop v.offset object) in
      get_data_object v.wanted device size true history v (some buffer) buffer_length resp_length
      ≡ some (cmd_ok, found ++ drop (length found) buffer, length found)
unfolding get_data_object finish
reads_object device object Good size history v buffer buffer_length resp_length serves good
      data_wanted room valid some_wanted fits there inside small short =
    let found = take v.wanted (drop v.offset object) in
    let ended =
      read_pieces-Ended device v.oid object Good serves size v buffer_length refl data_wanted
        v.wanted buffer history 0 v.offset good room some_wanted fits small (omega arith)
        (omega arith) in
    let size_ok : (size == invalid_max_comms_buff_size) ≡ false = ground arith in
    let has_room : (buffer_length == 0) ≡ false = ground arith in
    let not_none : (length found == 0) ≡ false =
      ground (arith, length-take v.wanted (drop v.offset object), length-drop v.offset object) in
    let read = ended.result in
    let copied : copy_to buffer 0 found ≡ found ++ drop (length found) buffer =
      copy_to_start buffer found (omega (arith, length-take v.wanted (drop v.offset object))) in
    let wanted_all : v.wanted - 0 ≡ v.wanted = omega arith in
    let from_zero : 0 + length found ≡ length found = omega arith in
    let started : start_of v.data_or_mdata v.offset ≡ v.offset = rw data_wanted refl in
    elim ended.fine [
      | inl fine ↦
          rw
            (get_data_object, size_ok, has_room, started, read, fine, wanted_all, from_zero, copied)
            refl
      | inr behind ↦
          rw
            (
              get_data_object, size_ok, has_room, started, read, behind, wanted_all, from_zero,
              not_none, copied,
            )
            refl
    ]
