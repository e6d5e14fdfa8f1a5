-- ===== src/Optiga/Transport/Tests.antt =====
-- Runs of the transport layer at concrete inputs.
use decada_embedded_example.Base.{
  ℕ, ◌≡◌, ◌<◌, refl, List, [], ◌∷◌, ◌++◌, false, inl, inr, Option, none, some, arith,
}
use decada_embedded_example.Optiga.DataLink.Machine.{
  success, failure, mem_error, on_error, on_tx, on_rx, on_tx_rx,
}
use decada_embedded_example.Optiga.Transport.Machine.{
  idle, tx, rx, Transport, Env, Output, hand_down, ask, report, deliver, calculate_pctr,
  send_next_fragment, transceive, check_chaining_error,
}
use decada_embedded_example.Optiga.Transport.Handler.{handle}
use decada_embedded_example.Optiga.Transport.Handler.Total.{handle_ends}
use decada_embedded_example.Optiga.Transport.Handler.Reassemble.{Reading}
use decada_embedded_example.Optiga.Transport.Handler.Carry.{Carried, carries}
use decada_embedded_example.Optiga.Transport.Handler.Bounds.{InBounds, handle-InBounds}
use decada_embedded_example.Optiga.Transport.Handler.Refusal.{
  confirmations, sent_on, refusal_blocks,
}
use decada_embedded_example.Optiga.Transport.Handler.Errors.{
  error_ends, last_overruns, overflow_reported, resends_once,
}

abbrev zeros : List ℕ
zeros = 0 ∷ 0 ∷ 0 ∷ 0 ∷ 0 ∷ 0 ∷ 0 ∷ 0 ∷ []

abbrev words : List ℕ
words = 11 ∷ 12 ∷ 13 ∷ 14 ∷ 15 ∷ []

-- An idle layer whose fragments have two bytes.
abbrev sender : Transport
sender = record {
  state = idle;
  packet = words;
  total_recv_length = 0;
  packet_offset = 0;
  max_packet_length = 2;
  recv_buffer = zeros;
  recv_length = 8;
  api_start_time = 0;
  chaining_error_count = 0;
  master_chaining_error_count = 0;
  previous_chaining = 0;
  transmission_completed = false;
  error_event = failure;
  tx_frame = zeros;
}

abbrev receiver : Transport
receiver = record sender { state = rx }

abbrev env : Env
env = record { now = 0; send_status = success; receive_status = success; past_table = (0, 0) }

abbrev refusing : Env
refusing = record env { receive_status = failure }

from_start : Reading receiver [] zeros
from_start = record { waiting = refl; sound = refl; count = refl; held = refl }

-- After the first of two bytes, with room for three announced.
abbrev half_way : Transport
half_way = record receiver {
  previous_chaining = 1;
  total_recv_length = 2;
  recv_length = 3;
  recv_buffer = 1 ∷ 2 ∷ 0 ∷ 0 ∷ 0 ∷ [];
}

from_two : Reading half_way (1 ∷ 2 ∷ []) (0 ∷ 0 ∷ 0 ∷ [])
from_two = record { waiting = refl; sound = refl; count = refl; held = refl }

-- Five bytes in fragments of two: the first, and its chaining byte.
first_fragment : (send_next_fragment (record sender { state = tx })).1 ≡ 1 ∷ 11 ∷ 12 ∷ []
unfolding send_next_fragment calculate_pctr
first_fragment = refl

last_fragment :
    (send_next_fragment (record sender { state = tx; packet_offset = 4 })).1 ≡ 4 ∷ 15 ∷ []
unfolding send_next_fragment calculate_pctr
last_fragment = refl

-- The answer to a chaining error from the other end in the receive state depends on what stands
-- behind the table: with one content the packet is sent again, with another a chaining error.
fault_resends : check_chaining_error env 7 0 ≡ success
unfolding check_chaining_error
fault_resends = refl

fault_unknown : check_chaining_error (record env { past_table = (9, 9) }) 7 0 ≡ failure
unfolding check_chaining_error
fault_unknown = refl

carries_example :
    (sent : Transport) × (frame : List ℕ) × (done : Transport) × (transceive env sender
        (some words)
        zeros
        8
      ≡ (success, sent, some frame))
    × Carried env (deliver 5 (words ++ (0 ∷ 0 ∷ 0 ∷ [])) ∷ []) done sent frame receiver
    × (done.state ≡ idle)
    × (done.recv_length ≡ 5)
carries_example =
    carries env sender receiver words zeros 8 refl (omega arith) (omega arith) (omega arith)
      (omega arith) (omega arith) from_start refl refl (omega arith) (omega arith) refl

handle_ends_example : (e : Transport × List Output) × (handle env on_tx none receiver ≡ some e)
handle_ends_example = handle_ends env on_tx none receiver

refusal_blocks_example :
    let (status, sent, first) = transceive refusing sender (some words) zeros 8 in
    let (last, out) = sent_on 2 sent in
    (after : Transport) × (last.packet_offset ≡ 5)
    × (confirmations 3 refusing sent ≡ some (after, out ++ (ask ∷ [])))
    × ((next : Option (List ℕ)) (buffer : List ℕ) (size : ℕ)
        → transceive env after next buffer size ≡ (failure, after, none))
refusal_blocks_example =
    refusal_blocks refusing env sender words zeros 8 2 refl (omega arith) (omega arith)
      (omega arith) refl

last_overruns_example :
    (after : Transport) × (handle env on_rx (some (4 ∷ 3 ∷ 4 ∷ [])) half_way
      ≡ some (after, deliver 4 (1 ∷ 2 ∷ 3 ∷ 4 ∷ 0 ∷ []) ∷ []))
    × (3 < after.recv_length)
last_overruns_example =
    last_overruns env half_way (1 ∷ 2 ∷ []) (0 ∷ 0 ∷ 0 ∷ []) (3 ∷ 4 ∷ []) from_two (inl refl)
      (omega arith) (omega arith) (omega arith)

overflow_reported_example :
    (mid : Transport) × (after : Transport) × (handle env on_rx (some (2 ∷ 3 ∷ 4 ∷ [])) half_way
      ≡ some (mid, ask ∷ []))
    × (handle env on_rx (some (4 ∷ 5 ∷ [])) mid ≡ some (after, report mem_error ∷ []))
    × (after.state ≡ idle)
    × (mid.recv_buffer ≡ 1 ∷ 2 ∷ 0 ∷ 0 ∷ 0 ∷ [])
    × (after.recv_buffer ≡ 1 ∷ 2 ∷ 0 ∷ 0 ∷ 0 ∷ [])
unfolding check_chaining_error
overflow_reported_example =
    overflow_reported env env half_way (1 ∷ 2 ∷ []) (0 ∷ 0 ∷ 0 ∷ []) 2 (3 ∷ 4 ∷ []) (5 ∷ [])
      from_two (inr refl) refl refl (omega arith) refl

resends_once_example :
    (mid : Transport) × (after : Transport) × (handle env on_tx_rx
        (some (7 ∷ []))
        (record sender { state = tx; packet_offset = 4 })
      ≡ some (mid, hand_down (1 ∷ 11 ∷ 12 ∷ []) ∷ []))
    × (mid.packet_offset ≡ 2)
    × (handle env on_tx_rx (some (7 ∷ [])) mid ≡ some (after, report failure ∷ []))
    × (after.state ≡ idle)
unfolding send_next_fragment calculate_pctr
resends_once_example =
    resends_once env env (record sender { state = tx; packet_offset = 4 }) refl (omega arith) refl
      (omega arith) (omega arith) refl

handle-InBounds_example : InBounds (record receiver { state = idle; error_event = failure })
handle-InBounds_example =
    handle-InBounds env on_error none receiver
      (record receiver { state = idle; error_event = failure }, report failure ∷ [])
      (record { within = omega arith; short = omega arith }) (error_ends env none receiver)
