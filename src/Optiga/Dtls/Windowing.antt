-- ===== src/Optiga/Dtls/Windowing.antt =====
-- `DtlsCheckReplay` of lib/optiga/dtls/DtlsWindowing.c: the sliding window of the records received.
pub mod Marks
pub mod Refine
pub mod Check
pub mod Replay
use decada_embedded_example.Base.{
  ℕ, ◌+◌, ◌-◌, ◌*◌, ◌/◌, ◌%◌, ◌^◌, Bool, true, false, not, ◌&&◌, ◌||◌, bit_and, Option, none, some,
  ltb, leb, ◌==◌, if◌then◌else◌,
}
use decada_embedded_example.Base.Word.{u8, u32, ◌<<<◌, ◌>>>◌}
use decada_embedded_example.Optiga.Util.Uint64.{
  Uint64, Comparison, greater_than, compare_uint64, is_lesser, subtract_uint64,
}
use decada_embedded_example.Optiga.Util.Window.{
  word_size, mask_double_word, shift_left_uint64, set_bit_uint64,
}

-- `sWindow_d`, without the callback that validates the record.
pub record Window : Type 0 where
  pub recv_seq_number : Uint64
  pub higher_bound : Uint64
  pub lower_bound : Uint64
  pub window_size : ℕ
  pub window_frame : Uint64

-- The window as the record layer initialises it, of DEFAULT_WINDOW_SIZE.
abbrev pub initial_window : Window
initial_window = record {
  recv_seq_number = record { higher = 0; lower = 0 };
  higher_bound = record { higher = 0; lower = 31 };
  lower_bound = record { higher = 0; lower = 0 };
  window_size = 32;
  window_frame = record { higher = 0; lower = 0 };
}

-- What `fValidateRecord` returns: OCP_RL_OK, CMD_LIB_DECRYPT_FAILURE, OCP_RL_MALLOC_FAILURE, or
-- another error.
pub data Verdict : Type 0 where
  validated decrypt_failure malloc_failure rejected : Verdict

-- OCP_RL_WINDOW_IGNORE, OCP_RL_WINDOW_UPDATED, OCP_RL_WINDOW_MOVED and the two errors passed on.
pub data Outcome : Type 0 where
  ignored updated moved decrypt_failed malloc_failed : Outcome

-- MAX_WINDOW_SIZE and MOST_SIGNIFICANT_BIT_HIGH
abbrev pub max_window_size : ℕ
max_window_size = 64

abbrev pub most_significant_bit_high : ℕ
most_significant_bit_high = 0x80000000

abbrev pub is_greater : Comparison → Bool
is_greater greater_than = true
is_greater _ = false

-- The status of a record that is not valid.
abbrev pub on_invalid : Verdict → Outcome
on_invalid decrypt_failure = decrypt_failed
on_invalid malloc_failure = malloc_failed
on_invalid _ = ignored

-- A difference whose status the code does not read; it cannot fail there.
abbrev pub or_zero : Option Uint64 → Uint64
or_zero none = record { higher = 0; lower = 0 }
or_zero (some d) = d

-- The tests of the bit for the number that is `d` below the upper bound.
unfoldable pub is_marked : Window → Uint64 → Bool
is_marked w d =
    let msb = most_significant_bit_high in
    let frame = w.window_frame in
    if w.window_size == word_size
    then bit_and (u32 (frame.higher <<< (word_size - d.lower - 1))) msb == msb
    else if d.higher == 0 && ltb d.lower word_size
    then bit_and (u32 (frame.lower <<< (word_size - d.lower - 1))) msb == msb
    else if d.higher == 0 && leb word_size d.lower
    then bit_and (u32 (frame.higher <<< (max_window_size - d.lower - 1))) msb == msb
    else false

-- The part for a number above the window.
unfoldable pub slide : Verdict → Window → Outcome × Window
slide validated w =
    let distance = or_zero (subtract_uint64 w.recv_seq_number w.higher_bound) in
    let frame = shift_left_uint64 w.window_frame distance w.window_size max_window_size in
    let slid = record w { window_frame = frame; higher_bound = w.recv_seq_number } in
    let width : Uint64 = record { higher = 0; lower = w.window_size - 1 } in
    elim (subtract_uint64 slid.higher_bound width) [
      | none ↦ (ignored, slid)
      | some low ↦ elim (set_bit_uint64 frame w.window_size w.window_size) [
        | none ↦ (ignored, record slid { lower_bound = low })
        | some marked ↦ (moved, record slid { lower_bound = low; window_frame = marked })
      ]
    ]
slide verdict w = (on_invalid verdict, w)

-- The mask at the end of the part for a number inside of the window.
abbrev pub trim : ℕ → Uint64 → Uint64
trim window_size frame =
    if ltb word_size window_size
    then record frame {
      higher = bit_and frame.higher (mask_double_word >>> (max_window_size - window_size));
    }
    else frame

-- The part for a number inside of the window whose bit is not set.
unfoldable pub mark : Verdict → Window → Outcome × Window
mark validated w = elim (subtract_uint64 w.recv_seq_number w.lower_bound) [
  | none ↦ (ignored, w)
  | some position ↦ elim (set_bit_uint64 w.window_frame w.window_size (u8 position.lower)) [
    | none ↦ (ignored, w)
    | some marked ↦ (updated, record w { window_frame = trim w.window_size marked })
  ]
]
mark verdict w = (on_invalid verdict, w)

-- `DtlsCheckReplay`. The verdict is that of the callback, where the record comes to be validated.
unfoldable pub check_replay : Verdict → Window → Outcome × Window
check_replay verdict w =
    if ltb max_window_size w.window_size || ltb w.window_size word_size
    then (ignored, w)
    else if is_lesser (compare_uint64 w.recv_seq_number w.lower_bound)
    then (ignored, w)
    else if is_greater (compare_uint64 w.recv_seq_number w.higher_bound)
    then slide verdict w
    else if is_marked w (or_zero (subtract_uint64 w.higher_bound w.recv_seq_number))
    then (ignored, w)
    else mark verdict w
