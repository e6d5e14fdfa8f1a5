-- ===== src/Optiga/Cmd/Request.antt =====
-- What the commands with an allocated buffer share: a command is laid out in a buffer of its own size,
-- and the answer comes back into the same buffer.
pub mod Fields
use decada_embedded_example.Base.{
  ℕ, zero, suc, ◌+◌, ◌-◌, List, [], ◌∷◌, ◌++◌, Bool, true, false, not, Option, none, some, length,
  copy_to, ltb, ◌==◌, if◌then◌else◌,
}
use decada_embedded_example.Optiga.Cmd.Apdu.{
  CmdStatus, insufficient_memory, dev_exec_error, Device, two_bytes, apdu, transceive_apdu,
  invalid_max_comms_buff_size,
}

-- A tag with its length and value.
abbrev pub tlv : ℕ → List ℕ → List ℕ
tlv tag value = tag ∷ two_bytes (length value) ++ value

abbrev pub Field : Type 0
Field = ℕ × List ℕ

-- Fields written one behind the other.
abbrev pub written : List Field → List ℕ
written [] = []
written ((tag, value) ∷ fs) = tlv tag value ++ written fs

-- `sApduData_d` when it is handed over, with the size of the buffer.
pub record Request : Type 0 where
  pub allocated : ℕ
  pub cmd : ℕ
  pub param : ℕ
  pub payload : List ℕ

-- The end of the checks before the buffer is allocated.
pub data Prepared : Type 0 where
  refused : CmdStatus → Prepared
  ready : Request → Prepared

-- The check of the size against the device's buffer.
unfoldable pub sized : ℕ → Request → Prepared
sized max_comms r = if ltb max_comms r.allocated then refused insufficient_memory else ready r

-- INIT_HEAP_APDUBUFFER, the layout and `TransceiveAPDU`. `none` means that a byte of the command or of
-- the answer is written behind the buffer, which is undefined. The stack below refuses an answer that is
-- longer than the announced room, which is the size of the buffer but for `CmdLib_VerifySign`, where it
-- is that of the device's buffer.
unfoldable pub transact :
    Device → ℕ → Bool → List (List ℕ) → Request → Option (CmdStatus × List ℕ × List (List ℕ))
transact device max_comms heap history r =
    if max_comms == invalid_max_comms_buff_size
    then some (dev_exec_error, [], history)
    else if not heap
    then some (insufficient_memory, [], history)
    else if ltb r.allocated (4 + length r.payload)
    then none
    else let (status, response, after) =
        transceive_apdu device true history r.cmd r.param r.payload in
      if ltb r.allocated (length response) then none else some (status, response, after)

abbrev pub unwritten : ℕ → List ℕ
unwritten zero = []
unwritten (suc n) = 0 ∷ unwritten n

-- The bytes in the buffer after the answer, which may leave bytes of the command behind it. Those that
-- nothing wrote have no specified value; they are 0 here.
abbrev pub held : Request → List ℕ → List ℕ
held r response =
    let command = apdu r.cmd r.param r.payload in
    copy_to (command ++ unwritten (r.allocated - length command)) 0 response
