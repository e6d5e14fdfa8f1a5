-- ===== src/Optiga/DataLink/Crc.antt =====
-- `ifx_i2c_dl_calc_crc_byte` and `ifx_i2c_dl_calc_crc`.
pub mod Bitwise
pub mod Detection
use decada_embedded_example.Base.{ℕ, List, [], ◌∷◌, bit_and, bit_xor}
use decada_embedded_example.Base.Word.{u16, ◌<<<◌, ◌>>>◌}

-- The part of the CRC step that depends on the low byte alone: `wh1` is its argument.
unfoldable pub crc_low : ℕ → ℕ
crc_low wh1 =
    let wh2 = bit_and wh1 0x0f in
    let wh3 = bit_xor (u16 (wh2 <<< 4)) wh1 in
    let wh4 = wh3 >>> 4 in
    bit_xor (u16 (bit_xor (u16 (bit_xor (u16 (wh3 <<< 1)) wh4 <<< 4)) wh2 <<< 3)) wh4

unfoldable pub calc_crc_byte : ℕ → ℕ → ℕ
calc_crc_byte seed byte =
    let wh1 = bit_and (bit_xor seed byte) 0xff in bit_xor (crc_low wh1) (seed >>> 8)

-- The loop over the buffer, from the checksum so far.
unfoldable pub crc_from : ℕ → List ℕ → ℕ
crc_from crc [] = crc
crc_from crc (b ∷ bs) = crc_from (calc_crc_byte crc b) bs

unfoldable pub calc_crc : List ℕ → ℕ
calc_crc bytes = crc_from 0 bytes
