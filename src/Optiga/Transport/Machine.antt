-- ===== src/Optiga/Transport/Machine.antt =====
-- The state of the transport layer (`ifx_i2c_tl_t`) and its functions. The data link layer below is
-- an input: what its two entry points return. A call of it, or of the upper layer's handler, is an
-- output of the step that makes it.
use decada_embedded_example.Base.{
  ℕ, ◌+◌, List, Bool, true, false, not, ◌&&◌, ◌||◌, Option, none, some, length, take, drop, set,
  copy_to, ◌==◌, ltb, leb, if◌then◌else◌,
}
use decada_embedded_example.Base.Word.{sub16, u16}
use decada_embedded_example.Optiga.DataLink.Frame.{header_size}
use decada_embedded_example.Optiga.DataLink.Machine.{Status, success, failure, failed}

-- TL_STATE_*
pub data State : Type 0 where
  uninit idle tx rx chaining error chaining_error resend : State

-- `packet` is `p_actual_packet[0 .. actual_packet_length)`; `recv_buffer` is the memory behind
-- `p_recv_packet_buffer` and `recv_length` what `p_recv_packet_buffer_length` points to: the room
-- there at first, the length of the packet at the end. `tx_frame` is the context's
-- `tx_frame_buffer`, which the data link layer sends from.
pub record Transport : Type 0 where
  pub state : State
  pub packet : List ℕ
  pub total_recv_length : ℕ
  pub packet_offset : ℕ
  pub max_packet_length : ℕ
  pub recv_buffer : List ℕ
  pub recv_length : ℕ
  pub api_start_time : ℕ
  pub chaining_error_count : ℕ
  pub master_chaining_error_count : ℕ
  pub previous_chaining : ℕ
  pub transmission_completed : Bool
  pub error_event : Status
  pub tx_frame : List ℕ

-- What one activation finds outside the layer: the millisecond clock, what `ifx_i2c_dl_send_frame`
-- and `ifx_i2c_dl_receive_frame` return if they are called, and the two bytes in memory where a row
-- of index 7 of `pctr_states_table` would stand.
pub record Env : Type 0 where
  pub now : ℕ
  pub send_status : Status
  pub receive_status : Status
  pub past_table : ℕ × ℕ

-- `hand_down bytes` is a call of `ifx_i2c_dl_send_frame` with these bytes from the fourth on of the
-- transmit buffer, `ask` one of `ifx_i2c_dl_receive_frame`. The upper layer's handler is called
-- with a status alone, or with a packet: `deliver n buffer` is the first `n` bytes of `buffer`.
pub data Output : Type 0 where
  hand_down : List ℕ → Output
  ask : Output
  report : Status → Output
  deliver : ℕ → List ℕ → Output

-- TL_HEADER_SIZE, TL_CHAINING_* and IFX_I2C_TL_HEADER_OFFSET.
abbrev pub tl_header_size : ℕ
tl_header_size = 1

abbrev pub chaining_no : ℕ
chaining_no = 0

abbrev pub chaining_first : ℕ
chaining_first = 1

abbrev pub chaining_intermediate : ℕ
chaining_intermediate = 2

abbrev pub chaining_last : ℕ
chaining_last = 4

abbrev pub chaining_fault : ℕ
chaining_fault = 7

abbrev pub header_offset : ℕ
header_offset = 3

-- A row of `pctr_states_table`. The table has five rows, and the code reads it at 7 as well.
abbrev pub pctr_states : Env → ℕ → ℕ × ℕ
pctr_states env current =
    if current == 0 || current == 1
    then (chaining_no, chaining_last)
    else if current == 2 || current == 4
    then (chaining_first, chaining_intermediate)
    else if current == 3
    then (0xff, 0xff)
    else env.past_table

abbrev pub is_idle : State → Bool
is_idle idle = true
is_idle _ = false

-- `ifx_i2c_tl_init` on the state `t`; `dl_status` is what `ifx_i2c_dl_init` returns, `frame_size`
-- the context's.
unfoldable pub init : Status → ℕ → Transport → Status × Transport
init dl_status frame_size t = if failed dl_status then (failure, record t { state = uninit }) else (
  success,
  record t { state = idle; max_packet_length = sub16 frame_size (header_size + tl_header_size) },
)

-- `ifx_i2c_tl_calculate_pctr`
unfoldable pub calculate_pctr : Transport → ℕ
calculate_pctr t =
    let fragment_size = t.max_packet_length in
    let remaining_data = sub16 (length t.packet) t.packet_offset in
    if t.packet_offset == 0 && leb remaining_data fragment_size
    then chaining_no
    else if t.packet_offset == 0 && ltb fragment_size remaining_data
    then chaining_first
    else if not (t.packet_offset == 0) && ltb fragment_size remaining_data
    then chaining_intermediate
    else chaining_last

-- The size of the fragment in `ifx_i2c_tl_send_next_fragment`. The test there is on signed numbers.
abbrev pub fragment_size_of : Transport → ℕ
fragment_size_of t =
    if ltb (length t.packet) (t.packet_offset + t.max_packet_length)
    then sub16 (length t.packet) t.packet_offset
    else t.max_packet_length

-- `ifx_i2c_tl_send_next_fragment`: the state after the call and the bytes handed down.
unfoldable pub send_next_fragment : Transport → Transport × List ℕ
send_next_fragment t =
    let size = fragment_size_of t in
    let headed = set t.tx_frame header_offset (calculate_pctr t) in
    let frame = copy_to headed (header_offset + 1) (take size (drop t.packet_offset t.packet)) in
    (
      record t { tx_frame = frame; packet_offset = u16 (t.packet_offset + size) },
      take (u16 (size + 1)) (drop header_offset frame),
    )

-- `ifx_i2c_tl_transceive` with the packet, and the receive buffer and its length. `none` for the
-- packet is a null pointer; in the result it means that nothing is handed down.
unfoldable pub transceive :
    Env → Transport → Option (List ℕ) → List ℕ → ℕ → Status × Transport × Option (List ℕ)
transceive env t none recv room = (failure, t, none)
transceive env t (some packet) recv room =
    if length packet == 0 || not (is_idle t.state)
    then (failure, t, none)
    else let (sent, bytes) = send_next_fragment (record t {
      state = tx;
      api_start_time = env.now;
      packet = packet;
      packet_offset = 0;
      recv_buffer = recv;
      recv_length = room;
      total_recv_length = 0;
      chaining_error_count = 0;
      master_chaining_error_count = 0;
      transmission_completed = false;
      error_event = failure;
    }) in
      (env.send_status, sent, some bytes)

-- `ifx_i2c_tl_resend_packets`
unfoldable pub resend_packets : Env → Transport → Status × Transport × Option (List ℕ)
resend_packets env t =
    if not (is_idle t.state)
    then (failure, t, none)
    else let (sent, bytes) =
        send_next_fragment (record t { packet_offset = 0; total_recv_length = 0; state = tx }) in
      (env.send_status, sent, some bytes)

-- `ifx_i2c_tl_send_chaining_error`
unfoldable pub send_chaining_error : Transport → Transport × List ℕ
send_chaining_error t =
    let frame = set t.tx_frame header_offset chaining_fault in
    (record t { tx_frame = frame; total_recv_length = 0 }, take 1 (drop header_offset frame))

-- `ifx_i2c_tl_check_chaining_error`
unfoldable pub check_chaining_error : Env → ℕ → ℕ → Status
check_chaining_error env current previous =
    let known =
      current == chaining_fault
      || current == chaining_no
      || current == chaining_last
      || current == chaining_intermediate
      || current == chaining_first in
    let row = pctr_states env current in
    if known && (row.0 == previous || row.1 == previous) then success else failure
