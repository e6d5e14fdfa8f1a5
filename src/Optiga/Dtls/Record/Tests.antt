-- ===== src/Optiga/Dtls/Record/Tests.antt =====
-- Records of a concrete layer.
use decada_embedded_example.Base.{
  ℕ, ◌≡◌, refl, List, [], ◌∷◌, ◌++◌, true, false, some, length, take, drop, arith,
}
use decada_embedded_example.Optiga.Util.Uint64.{compare_uint64, subtract_uint64}
use decada_embedded_example.Optiga.Util.Window.{shift_left_uint64, set_bit_uint64}
use decada_embedded_example.Optiga.Util.Bytes.{get_uint16, get_uint32}
use decada_embedded_example.Optiga.Dtls.Windowing.{
  initial_window, check_replay, is_marked, slide, mark,
}
use decada_embedded_example.Optiga.Dtls.Windowing.Replay.{NoRepeat}
use decada_embedded_example.Optiga.Dtls.Record.{
  RecordLayer, rl_ok, Ciphered, ciphered, counted, word_bytes, prepare_record, process_record,
  record_count, count_records,
}
use decada_embedded_example.Optiga.Dtls.Record.Header.{Wire, wire_bytes, record_count-datagram}
use decada_embedded_example.Optiga.Dtls.Record.RoundTrip.{Ciphers, process_record-prepare_record}
use decada_embedded_example.Optiga.Dtls.Record.Receive.{
  Receiver, Incoming, came, recv, pick, recv_from, recv_at, place_of, check_record,
}
use decada_embedded_example.Optiga.Dtls.Record.Fresh.{numbers_taken, recv-no_number_twice}

abbrev alert_wire : Wire
alert_wire = record {
  content = 21;
  version = 0xfefd;
  epoch = 0;
  number = record { higher = 0; lower = 5 };
  body = 1 ∷ 0 ∷ [];
}

record_count-datagram_example :
    record_count ((wire_bytes alert_wire ++ (wire_bytes alert_wire ++ [])) ++ (9 ∷ [])) ≡ some 2
record_count-datagram_example =
    record_count-datagram alert_wire (alert_wire ∷ []) (9 ∷ [])
      (
        record { known = refl; some_bytes = omega arith; short = omega arith },
        (record { known = refl; some_bytes = omega arith; short = omega arith }, tt),
      )
      (omega arith) (omega arith)

abbrev sixteen : List ℕ
sixteen = 0 ∷ 0 ∷ 0 ∷ 0 ∷ 0 ∷ 0 ∷ 0 ∷ 0 ∷ 0 ∷ 0 ∷ 0 ∷ 0 ∷ 0 ∷ 0 ∷ 0 ∷ 0 ∷ []

-- Sixteen zeros are put before the fragment, or taken away.
abbrev with_fragment : List ℕ → List ℕ → Ciphered
with_fragment bytes fragment =
    ciphered (take 11 bytes ++ (word_bytes (length fragment) ++ fragment))

abbrev pad : List ℕ → Ciphered
pad bytes = with_fragment bytes (sixteen ++ drop 13 bytes)

abbrev strip : List ℕ → Ciphered
strip bytes = with_fragment bytes (drop 16 (drop 13 bytes))

pad-Ciphers : Ciphers pad strip
pad-Ciphers content version epoch number plain = (sixteen ++ plain, omega arith, refl, refl)

abbrev secret_layer : RecordLayer
secret_layer = record {
  server_epoch = 0;
  tls_version = 0xfefd;
  client_epoch = 0;
  client_next_epoch = 1;
  client_seq_number = record { higher = 0; lower = 7 };
  client_next_seq_number = record { higher = 0; lower = 2 };
  enc_dec_flag = 0xb5;
  dec = 0;
  recv_ccs_record = 0;
}

process_record-prepare_record_example :
    (sent : List ℕ) × (prepare_record pad secret_layer 23 (1 ∷ 2 ∷ []) 100
      ≡ (rl_ok, counted true secret_layer, sent))
    × (process_record strip true secret_layer 23 100 sent ≡ record {
      status = rl_ok;
      layer = record secret_layer { dec = 1 };
      content = 23;
      bytes = 1 ∷ 2 ∷ [];
    })
process_record-prepare_record_example =
    process_record-prepare_record pad strip secret_layer secret_layer 23 23 100 100 (1 ∷ 2 ∷ [])
      pad-Ciphers
      (record {
        version_word = omega arith;
        epoch_word = omega arith;
        in_order = omega arith;
        number_left = omega arith;
      })
      refl refl (omega arith) (omega arith) (omega arith) (omega arith) refl refl

abbrev plain_receiver : Receiver
plain_receiver = record {
  layer = record secret_layer { client_next_epoch = 0; enc_dec_flag = 0 };
  window = initial_window;
  next_window = initial_window;
  expected = 22;
  multiple_record = 0;
  next_record = [];
}

abbrev same_twice : List (Incoming × ℕ)
same_twice = (came (wire_bytes alert_wire), 100) ∷ (came (wire_bytes alert_wire), 100) ∷ []

recv-no_number_twice_example : NoRepeat (numbers_taken false strip true plain_receiver same_twice)
recv-no_number_twice_example = recv-no_number_twice false strip true plain_receiver same_twice refl

taken_once : numbers_taken false strip true plain_receiver same_twice ≡ 5 ∷ []
unfolding recv pick recv_from recv_at place_of check_record process_record record_count
    count_records get_uint16 get_uint32 check_replay is_marked slide mark compare_uint64
    subtract_uint64 shift_left_uint64 set_bit_uint64
taken_once = refl
