-- ===== src/Optiga/DataLink/Frame.antt =====
-- The layout of a frame, as `ifx_i2c_dl_send_frame_internal` writes it and the receive states of
-- `ifx_i2c_pl_event_handler` read it: control byte, length, payload, checksum.
pub mod Layout
pub mod Buffer
use decada_embedded_example.Base.{
  ℕ, ◌+◌, ◌-◌, ◌%◌, List, bit_and, bit_or, length, get_or, take, set,
}
use decada_embedded_example.Base.Word.{u8, u16, ◌<<<◌, ◌>>>◌}
use decada_embedded_example.Optiga.DataLink.Crc.{calc_crc}

-- DL_HEADER_SIZE and the SEQCTR values of the control byte.
abbrev pub header_size : ℕ
header_size = 5

abbrev pub seqctr_ack : ℕ
seqctr_ack = 0

abbrev pub seqctr_nack : ℕ
seqctr_nack = 1

abbrev pub seqctr_resync : ℕ
seqctr_resync = 2

abbrev pub seqctr_rfu : ℕ
seqctr_rfu = 3

-- `(nr + 1) & DL_MAX_FRAME_NUM`.
unfoldable pub next_nr : ℕ → ℕ
next_nr nr = bit_and (nr + 1) 3

-- The byte at index `i`. A read out of range is undefined in C; the code makes none.
abbrev pub byte_at : List ℕ → ℕ → ℕ
byte_at bs i = get_or bs i 0

-- What the DL_STATE_RX case keeps of a received frame for the states that follow.
pub record Fields : Type 0 where
  pub ftype : ℕ
  pub seqctr : ℕ
  pub ack_nr : ℕ
  pub fr_nr : ℕ
  pub packet_len : ℕ
  pub crc_received : ℕ
  pub crc_calculated : ℕ

-- The initial values of the handler's locals.
abbrev pub no_fields : Fields
no_fields = record {
  ftype = 0;
  seqctr = 0;
  ack_nr = 0;
  fr_nr = 0;
  packet_len = 0;
  crc_received = 0;
  crc_calculated = 0;
}

-- `bs` is `p_data[0 .. data_len)`.
unfoldable pub analyse : List ℕ → Fields
analyse bs =
    let fctr = byte_at bs 0 in
    let data_len = length bs in
    record {
      ftype = bit_and fctr 0x80 >>> 7;
      seqctr = bit_and fctr 0x60 >>> 5;
      ack_nr = bit_and fctr 0x03 >>> 0;
      fr_nr = bit_and fctr 0x0c >>> 2;
      packet_len = u16 (bit_or (byte_at bs 1 <<< 8) (byte_at bs 2));
      crc_received = u16 (bit_or (byte_at bs (data_len - 2) <<< 8) (byte_at bs (data_len - 1)));
      crc_calculated = calc_crc (take (data_len - 2) bs);
    }

-- `p_buffer` with the control byte, the length and the checksum of a frame put round the
-- `frame_len` payload bytes that stand at its index 3. The code hands `3 + frame_len` and the length of the
-- whole frame on in 16 bits; they are below that in a frame buffer of the program, which has 300 bytes.
unfoldable pub seal : ℕ → ℕ → List ℕ → List ℕ
seal fctr frame_len buffer =
    let headed = set (set (set buffer 0 fctr) 1 (u8 (frame_len >>> 8))) 2 (u8 frame_len) in
    let crc = calc_crc (take (3 + frame_len) headed) in
    set (set headed (3 + frame_len) (u8 (crc >>> 8))) (4 + frame_len) (u8 crc)

-- The control byte of a data frame, and of a control frame.
unfoldable pub data_fctr : ℕ → ℕ → ℕ → ℕ
data_fctr seqctr ack_nr fr_nr =
    bit_or (bit_or (u8 (ack_nr <<< 0)) (u8 (seqctr <<< 5))) (u8 (fr_nr <<< 2))

unfoldable pub control_fctr : ℕ → ℕ → ℕ
control_fctr seqctr ack_nr = bit_or (bit_or (u8 (ack_nr <<< 0)) (u8 (seqctr <<< 5))) 0x80
