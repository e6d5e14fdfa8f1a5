-- ===== src/Optiga/Transport/Handler.antt =====
-- `ifx_i2c_dl_event_handler`, the state machine that the data link layer drives.
pub mod Total
pub mod Reassemble
pub mod InStep
pub mod Carry
pub mod Errors
pub mod Refusal
pub mod Bounds
use decada_embedded_example.Base.{
  ℕ, zero, suc, ◌+◌, ◌-◌, List, [], ◌∷◌, ◌++◌, Bool, true, false, not, ◌&&◌, ◌||◌, Option, none,
  some, length, drop, copy_to, get_or, bit_and, ◌==◌, ltb, if◌then◌else◌,
}
use decada_embedded_example.Base.Word.{u8, u16}
use decada_embedded_example.Optiga.DataLink.Machine.{
  Status, success, failure, mem_error, failed, Event, on_error, on_tx, on_rx, on_tx_rx,
}
use decada_embedded_example.Optiga.Transport.Machine.{
  State, uninit, idle, tx, rx, chaining, error, chaining_error, resend, Transport, Env, Output,
  hand_down, ask, report, deliver, tl_header_size, chaining_no, chaining_last, chaining_fault,
  send_next_fragment, resend_packets, send_chaining_error, check_chaining_error,
}

-- The tests of the event's flags.
abbrev pub has_error : Event → Bool
has_error on_error = true
has_error _ = false

abbrev pub has_tx : Event → Bool
has_tx on_tx = true
has_tx on_tx_rx = true
has_tx _ = false

abbrev pub has_rx : Event → Bool
has_rx on_rx = true
has_rx on_tx_rx = true
has_rx _ = false

abbrev pub is_mem_error : Status → Bool
is_mem_error mem_error = true
is_mem_error _ = false

-- `p_data` and `data_len`: no data is a null pointer with length 0.
abbrev pub data_len : Option (List ℕ) → ℕ
data_len none = 0
data_len (some p_data) = length p_data

abbrev pub pctr_of : Option (List ℕ) → ℕ
pctr_of none = 0
pctr_of (some p_data) = get_or p_data 0 0

abbrev pub chaining_of : Option (List ℕ) → ℕ
chaining_of frame = bit_and (pctr_of frame) 0x07

abbrev pub payload_of : Option (List ℕ) → List ℕ
payload_of none = []
payload_of (some p_data) = drop 1 p_data

abbrev pub is_null : Option (List ℕ) → Bool
is_null none = true
is_null (some p_data) = false

-- What one round of the handler's loop leaves: `more` is `exit_machine`, which keeps the loop going.
pub record Round : Type 0 where
  pub transport : Transport
  pub outputs : List Output
  pub more : Bool

abbrev pub continue_in : Transport → State → Round
continue_in t s = record { transport = record t { state = s }; outputs = []; more = true }

abbrev pub stop_with : Transport → List Output → Round
stop_with t out = record { transport = t; outputs = out; more = false }

-- The end of TL_STATE_TX, where all fragments are sent.
unfoldable pub all_sent : Env → Event → Transport → Round
all_sent env event t =
    let done = record t {
      state = rx;
      total_recv_length = 0;
      previous_chaining = chaining_no;
      transmission_completed = true;
    } in
    if has_rx event
    then record { transport = done; outputs = []; more = true }
    else stop_with (if failed env.receive_status then record done { state = error } else done)
        (ask ∷ [])

-- TL_STATE_TX
unfoldable pub while_tx : Env → Event → Option (List ℕ) → Transport → Round
while_tx env event frame t =
    if not (has_tx event)
    then continue_in t error
    else if not (ltb t.packet_offset (length t.packet))
    then all_sent env event t
    else if chaining_of frame == chaining_fault
    then continue_in t resend
    else if not (data_len frame == 0)
    then continue_in t error
    else let (sent, bytes) = send_next_fragment t in stop_with sent (hand_down bytes ∷ [])

-- The payload put behind what the receive buffer holds.
abbrev pub store : Option (List ℕ) → Transport → Transport
store frame t = record t {
  recv_buffer = copy_to t.recv_buffer t.total_recv_length (payload_of frame);
  total_recv_length = u16 (t.total_recv_length + (data_len frame - 1));
}

-- The end of TL_STATE_RX, where the packet is complete.
abbrev pub complete : Option (List ℕ) → Transport → Round
complete frame t =
    let stored = store frame t in
    stop_with (record stored { state = idle; recv_length = stored.total_recv_length })
      (deliver stored.total_recv_length stored.recv_buffer ∷ [])

-- TL_STATE_RX after a packet that does not fit its buffer: the rest of it is read and dropped.
abbrev pub skip_rest : Env → Option (List ℕ) → Transport → Round
skip_rest env frame t =
    if chaining_of frame == chaining_last
    then continue_in t error
    else if failed env.receive_status
    then record { transport = record t { state = error }; outputs = ask ∷ []; more = true }
    else stop_with (record t { state = rx }) (ask ∷ [])

-- TL_STATE_RX
unfoldable pub while_rx : Env → Event → Option (List ℕ) → Transport → Round
while_rx env event frame t =
    let current = chaining_of frame in
    let noted = record t { previous_chaining = current } in
    if not (has_rx event)
    then continue_in t error
    else if ltb (data_len frame) tl_header_size
    then continue_in t error
    else if is_mem_error t.error_event
    then skip_rest env frame t
    else if failed (check_chaining_error env current t.previous_chaining)
    then continue_in t resend
    else if is_null frame
    then continue_in noted error
    else if current == chaining_no || current == chaining_last
    then complete frame noted
    else continue_in noted chaining

-- TL_STATE_CHAINING
unfoldable pub while_chaining : Env → Option (List ℕ) → Transport → Round
while_chaining env frame t =
    let stored = record (store frame t) { previous_chaining = pctr_of frame } in
    if not (data_len frame == t.max_packet_length + 1)
    then continue_in t chaining_error
    else if ltb t.recv_length (t.total_recv_length + data_len frame - 1)
    then continue_in (record t { error_event = mem_error }) rx
    else if is_null frame
    then continue_in t error
    else stop_with (record stored { state = if failed env.receive_status then error else rx })
        (ask ∷ [])

-- TL_STATE_RESEND. `count++` wraps at 8 bits.
unfoldable pub while_resend : Env → Option (List ℕ) → Transport → Round
while_resend env frame t =
    let counted = record t { chaining_error_count = u8 (t.chaining_error_count + 1) } in
    let (_, sent, bytes) = resend_packets env (record counted { state = idle }) in
    if ltb 1 (data_len frame) && t.transmission_completed
    then continue_in t chaining_error
    else if not (t.chaining_error_count == 0)
    then continue_in counted error
    else record {
      transport = if failed env.send_status then record sent { state = error } else sent;
      outputs = handed bytes;
      more = failed env.send_status;
    }
  where
    handed : Option (List ℕ) → List Output
    handed none = []
    handed (some bytes) = hand_down bytes ∷ []

-- TL_STATE_CHAINING_ERROR
unfoldable pub while_chaining_error : Env → Transport → Round
while_chaining_error env t =
    let counted = record t {
      state = tx;
      master_chaining_error_count = u8 (t.master_chaining_error_count + 1);
    } in
    let (sent, bytes) = send_chaining_error counted in
    if not (t.master_chaining_error_count == 0) then continue_in counted error else record {
      transport = if failed env.send_status then record sent { state = error } else sent;
      outputs = hand_down bytes ∷ [];
      more = failed env.send_status;
    }

-- TL_STATE_ERROR
unfoldable pub while_error : Event → Option (List ℕ) → Transport → Round
while_error event frame t =
    stop_with
      (if has_error event || not (data_len frame == 0) then record t { state = idle } else t)
      (report t.error_event ∷ [])

-- The `switch`. The last case is its default.
unfoldable pub dispatch : State → Env → Event → Option (List ℕ) → Transport → Round
unfolding while_tx all_sent while_rx while_chaining while_resend while_chaining_error while_error
dispatch idle env event frame t = stop_with t (report success ∷ [])
dispatch tx env event frame t = while_tx env event frame t
dispatch rx env event frame t = while_rx env event frame t
dispatch chaining env event frame t = while_chaining env frame t
dispatch resend env event frame t = while_resend env frame t
dispatch chaining_error env event frame t = while_chaining_error env t
dispatch error env event frame t = while_error event frame t
dispatch uninit env event frame t =
    stop_with (record t { state = idle }) (report t.error_event ∷ [])

-- An error of the data link layer, or a frame of another channel, overrides every state.
abbrev pub override : Event → Option (List ℕ) → Transport → Transport
override event frame t =
    if has_error event || not (bit_and (pctr_of frame) 0xf8 == 0)
    then record t { state = error; error_event = failure }
    else t

-- The body of the loop.
unfoldable pub round : Env → Event → Option (List ℕ) → Transport → Round
unfolding dispatch
round env event frame t = let t' = override event frame t in dispatch t'.state env event frame t'

abbrev pub prepend :
    List Output → Option (Transport × List Output) → Option (Transport × List Output)
prepend out none = none
prepend out (some (t, later)) = some (t, out ++ later)

-- The loop, with fuel; `none` means that the fuel ran out.
unfoldable pub rounds :
    ℕ → Env → Event → Option (List ℕ) → Transport → Option (Transport × List Output)
rounds zero env event frame t = none
rounds (suc fuel) env event frame t =
    let r = round env event frame t in
    let rest = rounds fuel env event frame r.transport in
    if r.more then prepend r.outputs rest else some (r.transport, r.outputs)

-- `ifx_i2c_dl_event_handler`
unfoldable pub handle : Env → Event → Option (List ℕ) → Transport → Option (Transport × List Output)
handle env event frame t = rounds 5 env event frame t
