-- ===== src/Optiga/DataLink/Frame/Layout.antt =====
-- The bytes of a sealed frame, and what a receiver reads from them.
use decada_embedded_example.Base.{
  ℕ, ◌+◌, ◌-◌, ◌*◌, ◌/◌, ◌%◌, ◌^◌, ◌<◌, ◌≡◌, refl, ap₂, subst, ◌∙◌, List, [], ◌∷◌, ◌++◌, Bool, true,
  ◌&&◌, ◌==◌, ltb, all_below, all_below_sound, bit_and, bit_or, length, take, arith, set-append,
  set-append_at, take-append, take-append-add, get_or-append, length-append,
}
use mathlib.Core.List.{append-nil}
use decada_embedded_example.Base.Word.{u8, u16, ◌<<<◌, ◌>>>◌}
use decada_embedded_example.Base.Word.Bits.{or_fields}
use decada_embedded_example.Optiga.DataLink.Crc.{calc_crc}
use decada_embedded_example.Optiga.DataLink.Frame.{
  Fields, header_size, analyse, seal, data_fctr, control_fctr,
}

-- Control byte, length and payload: what the checksum covers.
abbrev pub covered : ℕ → List ℕ → List ℕ
covered fctr payload = fctr ∷ u8 (length payload >>> 8) ∷ u8 (length payload) ∷ payload

-- The whole frame.
abbrev pub layout : ℕ → List ℕ → List ℕ
layout fctr payload =
    let crc = calc_crc (covered fctr payload) in
    covered fctr payload ++ (u8 (crc >>> 8) ∷ u8 crc ∷ [])

-- A buffer with room for the frame: three bytes, the payload, two bytes, and the rest.
abbrev pub room : ℕ → ℕ → ℕ → List ℕ → ℕ → ℕ → List ℕ → List ℕ
room h0 h1 h2 payload c0 c1 rest = h0 ∷ h1 ∷ h2 ∷ (payload ++ (c0 ∷ c1 ∷ rest))

module _ (fctr : ℕ) (payload : List ℕ) where
  abbrev body : List ℕ
  body = covered fctr payload

  abbrev crc : ℕ
  crc = calc_crc body

  pub seal_lem :
      (h0 h1 h2 c0 c1 : ℕ) (rest : List ℕ)
      → seal fctr (length payload) (room h0 h1 h2 payload c0 c1 rest)
        ≡ body ++ (u8 (crc >>> 8) ∷ u8 crc ∷ rest)
  unfolding seal
  seal_lem h0 h1 h2 c0 c1 rest =
      let e0 : 3 + length payload ≡ length body = omega arith in
      let e4 : 4 + length payload ≡ length body + 1 = omega arith in
      rw (e4, e0, take-append body (c0 ∷ c1 ∷ rest))
        (rw (set-append_at payload (c1 ∷ rest) c0 (u8 (crc >>> 8)))
          (set-append body (u8 (crc >>> 8) ∷ c1 ∷ rest) 1 (u8 crc)))

  pub take-seal :
      (h0 h1 h2 c0 c1 : ℕ) (rest : List ℕ)
      → take
          (header_size + length payload)
          (seal fctr (length payload) (room h0 h1 h2 payload c0 c1 rest))
        ≡ layout fctr payload
  take-seal h0 h1 h2 c0 c1 rest =
      let e : 5 + length payload ≡ length body + 2 = omega arith in
      rw (seal_lem h0 h1 h2 c0 c1 rest, e) (take-append-add body (u8 (crc >>> 8) ∷ u8 crc ∷ rest) 2)

-- A number below 2 ^ 16 from its two bytes.
bytes_of_word : (n : ℕ) → n < 2 ^ 16 → u16 (bit_or (u8 (n >>> 8) <<< 8) (u8 n)) ≡ n
bytes_of_word n h =
    let high : u8 (n >>> 8) <<< 8 ≡ n / 2 ^ 8 * 2 ^ 8 = omega arith in
    rw (high, or_fields 8 (n / 2 ^ 8) (n % 2 ^ 8) (omega arith)) (omega arith)

-- Every control byte of a data frame gives its parts back.
parts_agree : ℕ → ℕ → ℕ → Bool
parts_agree seqctr ack_nr fr_nr =
    let fctr = data_fctr seqctr ack_nr fr_nr in
    bit_and fctr 0x80 >>> 7 == 0
    && bit_and fctr 0x60 >>> 5 == seqctr
    && bit_and fctr 0x03 >>> 0 == ack_nr
    && bit_and fctr 0x0c >>> 2 == fr_nr
    && ltb fctr 256

parts_agree_table : all_below 64 (λ x. parts_agree (x / 16) (x / 4 % 4) (x % 4)) ≡ true
unfolding all_below parts_agree data_fctr
parts_agree_table = refl

parts_agree_all : (s a n : ℕ) → s < 4 → a < 4 → n < 4 → parts_agree s a n ≡ true
parts_agree_all s a n hs ha hn =
    let x = s * 16 + a * 4 + n in
    let es : x / 16 ≡ s = omega arith in
    let ea : x / 4 % 4 ≡ a = omega arith in
    let en : x % 4 ≡ n = omega arith in
    let found =
      all_below_sound 64 (λ y. parts_agree (y / 16) (y / 4 % 4) (y % 4)) x parts_agree_table
        (omega arith) in
    subst (λ t. parts_agree t a n ≡ true) es
      (subst (λ t. parts_agree (x / 16) t n ≡ true) ea
        (subst (λ t. parts_agree (x / 16) (x / 4 % 4) t ≡ true) en found))

pub data_fctr_parts :
    (seqctr ack_nr fr_nr : ℕ)
    → seqctr < 4
    → ack_nr < 4
    → fr_nr < 4
    → let fctr = data_fctr seqctr ack_nr fr_nr in
      (bit_and fctr 0x80 >>> 7 ≡ 0)
      × (bit_and fctr 0x60 >>> 5 ≡ seqctr)
      × (bit_and fctr 0x03 >>> 0 ≡ ack_nr)
      × (bit_and fctr 0x0c >>> 2 ≡ fr_nr)
      × (fctr < 256)
unfolding parts_agree
data_fctr_parts s a n hs ha hn = ground (arith, parts_agree_all s a n hs ha hn)

-- The same of a control frame, whose frame number is 0.
control_parts_agree : ℕ → ℕ → Bool
control_parts_agree seqctr ack_nr =
    let fctr = control_fctr seqctr ack_nr in
    bit_and fctr 0x80 >>> 7 == 1
    && bit_and fctr 0x60 >>> 5 == seqctr
    && bit_and fctr 0x03 >>> 0 == ack_nr
    && bit_and fctr 0x0c >>> 2 == 0
    && ltb fctr 256

control_parts_table : all_below 16 (λ x. control_parts_agree (x / 4) (x % 4)) ≡ true
unfolding all_below control_parts_agree control_fctr
control_parts_table = refl

control_parts_all : (s a : ℕ) → s < 4 → a < 4 → control_parts_agree s a ≡ true
control_parts_all s a hs ha =
    let x = s * 4 + a in
    let es : x / 4 ≡ s = omega arith in
    let ea : x % 4 ≡ a = omega arith in
    let found =
      all_below_sound 16 (λ y. control_parts_agree (y / 4) (y % 4)) x control_parts_table
        (omega arith) in
    subst (λ t. control_parts_agree t a ≡ true) es
      (subst (λ t. control_parts_agree (x / 4) t ≡ true) ea found)

pub control_fctr_parts :
    (seqctr ack_nr : ℕ)
    → seqctr < 4
    → ack_nr < 4
    → let fctr = control_fctr seqctr ack_nr in
      (bit_and fctr 0x80 >>> 7 ≡ 1)
      × (bit_and fctr 0x60 >>> 5 ≡ seqctr)
      × (bit_and fctr 0x03 >>> 0 ≡ ack_nr)
      × (bit_and fctr 0x0c >>> 2 ≡ 0)
      × (fctr < 256)
unfolding control_parts_agree
control_fctr_parts s a hs ha = ground (arith, control_parts_all s a hs ha)

-- The checksum that a receiver reads is the last two bytes, and it computes its own over the rest.
pub analyse-sum :
    (body : List ℕ) (n : ℕ)
    → n < 2 ^ 16
    → let f = analyse (body ++ (u8 (n >>> 8) ∷ u8 n ∷ [])) in
      (f.crc_received ≡ n) × (f.crc_calculated ≡ calc_crc body)
unfolding analyse
analyse-sum body n h =
    let sum = u8 (n >>> 8) ∷ u8 n ∷ [] in
    let e2 : length (body ++ sum) - 2 ≡ length body + 0 = omega (arith, length-append body sum) in
    let e1 : length (body ++ sum) - 1 ≡ length body + 1 = omega (arith, length-append body sum) in
    let whole : take (length body + 0) (body ++ sum) ≡ body =
      take-append-add body sum 0 ∙ append-nil body in
    (
      rw (e2, e1, get_or-append body sum 0 0, get_or-append body sum 1 0, bytes_of_word n h),
      rw (e2, whole),
    )

-- A receiver of a whole frame finds the parts of its control byte, the payload's length, and a
-- checksum that agrees with the one that it computes.
pub analyse-layout :
    (fctr : ℕ) (payload : List ℕ)
    → length payload < 2 ^ 16
    → calc_crc (covered fctr payload) < 2 ^ 16
    → analyse (layout fctr payload) ≡ record {
      ftype = bit_and fctr 0x80 >>> 7;
      seqctr = bit_and fctr 0x60 >>> 5;
      ack_nr = bit_and fctr 0x03 >>> 0;
      fr_nr = bit_and fctr 0x0c >>> 2;
      packet_len = length payload;
      crc_received = calc_crc (covered fctr payload);
      crc_calculated = calc_crc (covered fctr payload);
    }
unfolding analyse
analyse-layout fctr payload h hc =
    let (received, computed) =
      analyse-sum (covered fctr payload) (calc_crc (covered fctr payload)) hc in
    ap₂
      (λ (c k : ℕ).
        let f : Fields = record {
          ftype = bit_and fctr 0x80 >>> 7;
          seqctr = bit_and fctr 0x60 >>> 5;
          ack_nr = bit_and fctr 0x03 >>> 0;
          fr_nr = bit_and fctr 0x0c >>> 2;
          packet_len = u16 (bit_or (u8 (length payload >>> 8) <<< 8) (u8 (length payload)));
          crc_received = c;
          crc_calculated = k;
        } in
        f)
      received computed
    ∙ rw (bytes_of_word (length payload) h)
