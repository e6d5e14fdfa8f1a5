-- ===== src/Optiga/Util/Bytes.antt =====
-- Numbers in a buffer, the high byte first.
use decada_embedded_example.Base.{
  ℕ, ◌+◌, ◌*◌, ◌/◌, ◌%◌, ◌^◌, ◌<◌, ◌≡◌, ◌∙◌, List, get_or, set, length-set, get_or-set_same,
  get_or-set_other, bit_or, length, arith,
}
use decada_embedded_example.Base.Word.{u8, u16, u32, ◌<<<◌, ◌>>>◌}
use decada_embedded_example.Base.Word.Bits.{or_fields}

-- The byte at an index; the code reads no byte outside the buffers that it is given.
abbrev pub at : List ℕ → ℕ → ℕ
at bs i = get_or bs i 0

-- `Utility_GetUint16`, `Utility_GetUint24` and `Utility_GetUint32` at the index `i`.
unfoldable pub get_uint16 : List ℕ → ℕ → ℕ
get_uint16 bs i = bit_or (u16 (at bs i <<< 8)) (u16 (at bs (i + 1)))

unfoldable pub get_uint24 : List ℕ → ℕ → ℕ
get_uint24 bs i =
    bit_or (bit_or (u32 (at bs i <<< 16)) (u32 (at bs (i + 1) <<< 8))) (u32 (at bs (i + 2)))

unfoldable pub get_uint32 : List ℕ → ℕ → ℕ
get_uint32 bs i =
    bit_or (u32 (at bs i <<< 24)) (
      bit_or (bit_or (u32 (at bs (i + 1) <<< 16)) (u32 (at bs (i + 2) <<< 8)))
        (u32 (at bs (i + 3))))

-- `Utility_SetUint16`, `Utility_SetUint24` and `Utility_SetUint32` at the index `i`.
unfoldable pub set_uint16 : List ℕ → ℕ → ℕ → List ℕ
set_uint16 bs i v = set (set bs i (u8 (v >>> 8))) (i + 1) (u8 v)

unfoldable pub set_uint24 : List ℕ → ℕ → ℕ → List ℕ
set_uint24 bs i v = set (set (set bs i (u8 (v >>> 16))) (i + 1) (u8 (v >>> 8))) (i + 2) (u8 v)

unfoldable pub set_uint32 : List ℕ → ℕ → ℕ → List ℕ
set_uint32 bs i v =
    set (set (set (set bs i (u8 (v >>> 24))) (i + 1) (u8 (v >>> 16))) (i + 2) (u8 (v >>> 8)))
      (i + 3) (u8 v)

-- A byte is read back after a write there, and a write elsewhere does not matter.
at-set : (bs : List ℕ) (i v : ℕ) → i < length bs → at (set bs i v) i ≡ v
at-set bs i v h = get_or-set_same bs i v 0 h

at-set_other : (bs : List ℕ) (i j v : ℕ) → j < i → at (set bs i v) j ≡ at bs j
at-set_other bs i j v h = get_or-set_other bs i j v 0 (λ e. absurd (omega arith))

-- Two bytes in a row, below the places of later writes.
pair :
    (bs : List ℕ) (i a b : ℕ)
    → i + 1 < length bs
    → (at (set (set bs i a) (i + 1) b) i ≡ a) × (at (set (set bs i a) (i + 1) b) (i + 1) ≡ b)
pair bs i a b h = (
  at-set_other (set bs i a) (i + 1) i b (omega arith) ∙ at-set bs i a (omega arith),
  at-set (set bs i a) (i + 1) b (omega (arith, length-set bs i a)),
)

-- A number of 16 bits is read back from where it was written, if the buffer has two bytes there.
pub get_uint16-set_uint16 :
    (bs : List ℕ) (i v : ℕ) → v < 2 ^ 16 → i + 1 < length bs → get_uint16 (set_uint16 bs i v) i ≡ v
unfolding get_uint16 set_uint16
get_uint16-set_uint16 bs i v h room =
    let (high, low) = pair bs i (u8 (v >>> 8)) (u8 v) room in
    let small : u16 (u8 v) ≡ v % 2 ^ 8 = omega arith in
    let large : u16 (u8 (v >>> 8) <<< 8) ≡ v / 2 ^ 8 * 2 ^ 8 = omega arith in
    rw (high, low, small, large) (or_fields 8 (v / 2 ^ 8) (v % 2 ^ 8) (omega arith) ∙ omega arith)

triple :
    (bs : List ℕ) (i a b c : ℕ)
    → i + 2 < length bs
    → let after = set (set (set bs i a) (i + 1) b) (i + 2) c in
      (at after i ≡ a) × (at after (i + 1) ≡ b) × (at after (i + 2) ≡ c)
triple bs i a b c h =
    let two = set (set bs i a) (i + 1) b in
    let (first, second) = pair bs i a b (omega arith) in
    (
      at-set_other two (i + 2) i c (omega arith) ∙ first,
      at-set_other two (i + 2) (i + 1) c (omega arith) ∙ second,
      at-set two (i + 2) c (omega (arith, length-set (set bs i a) (i + 1) b, length-set bs i a)),
    )

-- A number of 24 bits is read back from where it was written, if the buffer has three bytes there.
pub get_uint24-set_uint24 :
    (bs : List ℕ) (i v : ℕ) → v < 2 ^ 24 → i + 2 < length bs → get_uint24 (set_uint24 bs i v) i ≡ v
unfolding get_uint24 set_uint24
get_uint24-set_uint24 bs i v h room =
    let (b2, b1, b0) = triple bs i (u8 (v >>> 16)) (u8 (v >>> 8)) (u8 v) room in
    let w0 : u32 (u8 v) ≡ v % 2 ^ 8 = omega arith in
    let w1 : u32 (u8 (v >>> 8) <<< 8) ≡ v / 2 ^ 8 % 2 ^ 8 * 2 ^ 8 = omega arith in
    let w2 : u32 (u8 (v >>> 16) <<< 16) ≡ v / 2 ^ 16 * 2 ^ 16 = omega arith in
    let top : bit_or (v / 2 ^ 16 * 2 ^ 16) (v / 2 ^ 8 % 2 ^ 8 * 2 ^ 8) ≡ v / 2 ^ 8 * 2 ^ 8 =
      or_fields 16 (v / 2 ^ 16) (v / 2 ^ 8 % 2 ^ 8 * 2 ^ 8) (omega arith) ∙ omega arith in
    rw (b2, b1, b0, w0, w1, w2, top)
      (or_fields 8 (v / 2 ^ 8) (v % 2 ^ 8) (omega arith) ∙ omega arith)

-- A number of 32 bits is read back from where it was written, if the buffer has four bytes there.
pub get_uint32-set_uint32 :
    (bs : List ℕ) (i v : ℕ) → v < 2 ^ 32 → i + 3 < length bs → get_uint32 (set_uint32 bs i v) i ≡ v
unfolding get_uint32 set_uint32
get_uint32-set_uint32 bs i v h room =
    let a = u8 (v >>> 24) in
    let three = set (set (set bs i a) (i + 1) (u8 (v >>> 16))) (i + 2) (u8 (v >>> 8)) in
    let len : length three ≡ length bs =
      length-set (set (set bs i a) (i + 1) (u8 (v >>> 16))) (i + 2) (u8 (v >>> 8))
      ∙ length-set (set bs i a) (i + 1) (u8 (v >>> 16))
      ∙ length-set bs i a in
    let (c3, c2, c1) = triple bs i a (u8 (v >>> 16)) (u8 (v >>> 8)) (omega arith) in
    let b3 = at-set_other three (i + 3) i (u8 v) (omega arith) ∙ c3 in
    let b2 = at-set_other three (i + 3) (i + 1) (u8 v) (omega arith) ∙ c2 in
    let b1 = at-set_other three (i + 3) (i + 2) (u8 v) (omega arith) ∙ c1 in
    let b0 = at-set three (i + 3) (u8 v) (omega (arith, len)) in
    let w0 : u32 (u8 v) ≡ v % 2 ^ 8 = omega arith in
    let w1 : u32 (u8 (v >>> 8) <<< 8) ≡ v / 2 ^ 8 % 2 ^ 8 * 2 ^ 8 = omega arith in
    let w2 : u32 (u8 (v >>> 16) <<< 16) ≡ v / 2 ^ 16 % 2 ^ 8 * 2 ^ 16 = omega arith in
    let w3 : u32 (u8 (v >>> 24) <<< 24) ≡ v / 2 ^ 24 * 2 ^ 24 = omega arith in
    let middle : bit_or (v / 2 ^ 16 % 2 ^ 8 * 2 ^ 16) (v / 2 ^ 8 % 2 ^ 8 * 2 ^ 8)
        ≡ v / 2 ^ 8 % 2 ^ 16 * 2 ^ 8 =
      or_fields 16 (v / 2 ^ 16 % 2 ^ 8) (v / 2 ^ 8 % 2 ^ 8 * 2 ^ 8) (omega arith) ∙ omega arith in
    let low : bit_or (v / 2 ^ 8 % 2 ^ 16 * 2 ^ 8) (v % 2 ^ 8) ≡ v % 2 ^ 24 =
      or_fields 8 (v / 2 ^ 8 % 2 ^ 16) (v % 2 ^ 8) (omega arith) ∙ omega arith in
    rw (b3, b2, b1, b0, w0, w1, w2, w3, middle, low)
      (or_fields 24 (v / 2 ^ 24) (v % 2 ^ 24) (omega arith) ∙ omega arith)
