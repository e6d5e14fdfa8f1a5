-- ===== src/Optiga/Dtls/Record/Header.antt =====
-- The header of a record, read from its bytes, and the records of a datagram.
use mathlib.Core.List.{append_assoc}
use decada_embedded_example.Base.{
  ℕ, zero, suc, ◌+◌, ◌*◌, ◌/◌, ◌%◌, ◌^◌, ◌≤◌, ◌<◌, ◌≡◌, refl, sym, ap, ◌∙◌, List, [], ◌∷◌, ◌++◌,
  true, false, some, bit_or, length, length-append, drop, drop-append, drop-drop, ltb, ltb-eq-false,
  ◌==◌, arith,
}
use decada_embedded_example.Base.Word.{u8, u16, ◌>>>◌, ◌<<<◌}
use decada_embedded_example.Base.Word.Bits.{or_fields}
use decada_embedded_example.Optiga.Util.Uint64.{Uint64}
use decada_embedded_example.Optiga.Util.Bytes.{get_uint16}
use decada_embedded_example.Optiga.Dtls.Record.{
  header, rl_header_len, is_content, count_records, record_count,
}

-- A word is read from its bytes.
word_read : (n : ℕ) → n < 2 ^ 16 → bit_or (u16 (u8 (n >>> 8) <<< 8)) (u16 (u8 n)) ≡ n
word_read n small =
    let low : u16 (u8 n) ≡ n % 2 ^ 8 = omega arith in
    let high : u16 (u8 (n >>> 8) <<< 8) ≡ n / 2 ^ 8 * 2 ^ 8 = omega arith in
    rw (low, high) (or_fields 8 (n / 2 ^ 8) (n % 2 ^ 8) (omega arith) ∙ omega arith)

-- A record as it was built.
pub record Wire : Type 0 where
  pub content : ℕ
  pub version : ℕ
  pub epoch : ℕ
  pub number : Uint64
  pub body : List ℕ

abbrev pub wire_bytes : Wire → List ℕ
wire_bytes w = header w.content w.version w.epoch w.number (length w.body) ++ w.body

pub read_version :
    (w : Wire) (rest : List ℕ)
    → w.version < 2 ^ 16
    → get_uint16 (wire_bytes w ++ rest) 1 ≡ w.version
unfolding get_uint16
read_version w rest small = word_read w.version small

pub read_epoch :
    (w : Wire) (rest : List ℕ) → w.epoch < 2 ^ 16 → get_uint16 (wire_bytes w ++ rest) 3 ≡ w.epoch
unfolding get_uint16
read_epoch w rest small = word_read w.epoch small

pub read_len :
    (w : Wire) (rest : List ℕ)
    → length w.body < 2 ^ 16
    → get_uint16 (wire_bytes w ++ rest) 11 ≡ length w.body
unfolding get_uint16
read_len w rest small = word_read (length w.body) small

-- A record of a known type that is not empty, with a length of 16 bits.
pub record Sound (w : Wire) : Type 0 where
  pub known : is_content w.content ≡ true
  pub some_bytes : 0 < length w.body
  pub short : length w.body < 2 ^ 16

abbrev pub datagram : List Wire → List ℕ
datagram [] = []
datagram (w ∷ ws) = wire_bytes w ++ datagram ws

abbrev pub AllSound : List Wire → Type 0
AllSound [] = Unit
AllSound (w ∷ ws) = Sound w × AllSound ws

abbrev pub number_of : List Wire → ℕ
number_of [] = 0
number_of (w ∷ ws) = suc (number_of ws)

count_step :
    (fuel n : ℕ) (w : Wire) (rest : List ℕ)
    → Sound w
    → count_records (suc fuel) (wire_bytes w ++ rest) n ≡ count_records fuel rest (u8 (n + 1))
unfolding count_records
count_step fuel n w rest sound =
    let len = read_len w rest sound.short in
    let total = length-append w.body rest in
    let begins : ltb rl_header_len (length (wire_bytes w ++ rest)) ≡ true =
      ground (arith, total, sound.some_bytes) in
    let whole : ltb (length (wire_bytes w ++ rest)) (length w.body + rl_header_len) ≡ false =
      ltb-eq-false _ _ (omega (arith, total)) in
    let next : drop (length w.body + rl_header_len) (wire_bytes w ++ rest) ≡ rest =
      ap (λ k. drop k (wire_bytes w ++ rest)) (omega arith)
      ∙ sym (drop-drop (length w.body) rl_header_len (wire_bytes w ++ rest))
      ∙ drop-append w.body rest in
    rw (count_records, len, begins, sound.known, whole, next) refl

-- A datagram ends with at most a header's length of other bytes.
count_all :
    (ws : List Wire) (fuel n : ℕ) (tail : List ℕ)
    → AllSound ws
    → length tail ≤ rl_header_len
    → n + number_of ws < 256
    → number_of ws < fuel
    → count_records fuel (datagram ws ++ tail) n ≡ n + number_of ws
unfolding count_records
count_all [] zero n tail sound ends small enough = absurd (omega arith)
count_all [] (suc fuel) n tail sound ends small enough =
    let no_more : ltb rl_header_len (length tail) ≡ false = ltb-eq-false _ _ ends in
    rw (count_records, no_more) (omega arith)
count_all (w ∷ ws) zero n tail sound ends small enough = absurd (omega arith)
count_all (w ∷ ws) (suc fuel) n tail (sound, sounds) ends small enough =
    let next : u8 (n + 1) ≡ n + 1 = omega arith in
    let same : datagram (w ∷ ws) ++ tail ≡ wire_bytes w ++ (datagram ws ++ tail) =
      append_assoc (wire_bytes w) (datagram ws) tail in
    ap (λ b. count_records (suc fuel) b n) same
    ∙ count_step fuel n w (datagram ws ++ tail) sound
    ∙ ap (λ m. count_records fuel (datagram ws ++ tail) m) next
    ∙ count_all ws fuel (n + 1) tail sounds ends (omega arith) (omega arith)
    ∙ omega arith

number-le-length : (ws : List Wire) → number_of ws ≤ length (datagram ws)
number-le-length [] = omega arith
number-le-length (w ∷ ws) = omega (arith, number-le-length ws, length-append w.body (datagram ws))

-- A datagram is a row of at least one and fewer than 256 records, each of a known type and not empty, with
-- a length of 16 bits, and at most as many other bytes behind them as a header has. Then the
-- count is the number of records.
pub record_count-datagram :
    (w : Wire) (ws : List Wire) (tail : List ℕ)
    → AllSound (w ∷ ws)
    → length tail ≤ rl_header_len
    → number_of (w ∷ ws) < 256
    → record_count (datagram (w ∷ ws) ++ tail) ≡ some (number_of (w ∷ ws))
unfolding record_count
record_count-datagram w ws tail sound ends small =
    let bytes = datagram (w ∷ ws) ++ tail in
    let len = length-append (w.body ++ datagram ws) tail in
    let body_len = length-append w.body (datagram ws) in
    let n : count_records (length bytes) bytes 0 ≡ number_of (w ∷ ws) =
      count_all (w ∷ ws) (length bytes) 0 tail sound ends (omega (arith, small))
        (omega (arith, len, body_len, number-le-length ws))
      ∙ omega arith in
    let some_records : (number_of (w ∷ ws) == 0) ≡ false = ground arith in
    rw (record_count, n, some_records) refl
