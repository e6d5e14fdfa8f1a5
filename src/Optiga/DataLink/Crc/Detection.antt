-- ===== src/Optiga/DataLink/Crc/Detection.antt =====
-- Which corruptions of a frame the checksum cannot miss.
use decada_embedded_example.Base.{
  ℕ, zero, suc, ◌/◌, ◌%◌, ◌^◌, ◌*◌, ◌<◌, ◌≡◌, refl, ap, ap₂, sym, ◌∙◌, List, [], ◌∷◌, ◌++◌, bit_xor,
  arith,
}
use decada_embedded_example.Base.Word.Bits.{bit, bit-bit_xor}
use decada_embedded_example.Base.Word.Xor.{xor_comm, xor_assoc, xor_fields, xor_inj, xor-lt}
use decada_embedded_example.Optiga.DataLink.Crc.{calc_crc_byte, crc_from, calc_crc}
use decada_embedded_example.Optiga.DataLink.Crc.Bitwise.{
  feedback, shift_out, shift_rounds, shift_rounds-xor, shift_rounds-high,
  calc_crc_byte-shift_rounds,
}

abbrev pub IsBytes : List ℕ → Type 0
IsBytes [] = Unit {0}
IsBytes (b ∷ bs) = (b < 256) × IsBytes bs

pub IsBytes-append : (xs ys : List ℕ) → IsBytes xs → IsBytes ys → IsBytes (xs ++ ys)
IsBytes-append [] ys h k = k
IsBytes-append (x ∷ xs) ys h k = (h.0, IsBytes-append xs ys h.1 k)

feedback-lt : (b : ℕ) → feedback b < 2 ^ 16
feedback-lt b = ground arith

shift_out-lt : (c : ℕ) → c < 2 ^ 16 → shift_out c < 2 ^ 16
unfolding shift_out
shift_out-lt c h = xor-lt 16 (c / 2) (feedback (c % 2)) (omega arith) (feedback-lt (c % 2))

shift_rounds-lt : (n c : ℕ) → c < 2 ^ 16 → shift_rounds n c < 2 ^ 16
shift_rounds-lt zero c h = h
shift_rounds-lt (suc n) c h = shift_rounds-lt n (shift_out c) (shift_out-lt c h)

feedback_top : (b : ℕ) → b < 2 → bit (feedback b) 15 ≡ b
feedback_top zero h = refl
feedback_top (suc zero) h = refl
feedback_top (suc (suc b)) h = absurd (omega arith)

-- The bit shifted out can be read off the top of the result.
shift_out_top : (c : ℕ) → c < 2 ^ 16 → bit (shift_out c) 15 ≡ c % 2
unfolding shift_out
shift_out_top c h =
    let clear : bit (c / 2) 15 ≡ 0 = omega arith in
    omega
      (arith, clear, bit-bit_xor (c / 2) (feedback (c % 2)) 15, feedback_top (c % 2) (omega arith))

shift_out_inj : (a b : ℕ) → a < 2 ^ 16 → b < 2 ^ 16 → shift_out a ≡ shift_out b → a ≡ b
unfolding shift_out
shift_out_inj a b p q h =
    let low : a % 2 ≡ b % 2 = sym (shift_out_top a p) ∙ ap (λ t. bit t 15) h ∙ shift_out_top b q in
    let high : a / 2 ≡ b / 2 =
      xor_inj (a / 2) (b / 2) (feedback (b % 2))
        (ap (λ t. bit_xor (a / 2) (feedback t)) (sym low) ∙ h) in
    omega arith

shift_rounds_inj :
    (n a b : ℕ) → a < 2 ^ 16 → b < 2 ^ 16 → shift_rounds n a ≡ shift_rounds n b → a ≡ b
shift_rounds_inj zero a b p q h = h
shift_rounds_inj (suc n) a b p q h =
    shift_out_inj a b p q
      (shift_rounds_inj n (shift_out a) (shift_out b) (shift_out-lt a p) (shift_out-lt b q) h)

pub calc_crc_byte-lt : (seed b : ℕ) → seed < 2 ^ 16 → b < 256 → calc_crc_byte seed b < 2 ^ 16
calc_crc_byte-lt seed b p q =
    rw (calc_crc_byte-shift_rounds seed b q)
      (shift_rounds-lt 8 (bit_xor seed b) (xor-lt 16 seed b p (omega arith)))

pub crc_from-lt : (seed : ℕ) (bs : List ℕ) → seed < 2 ^ 16 → IsBytes bs → crc_from seed bs < 2 ^ 16
unfolding crc_from
crc_from-lt seed [] p h = p
crc_from-lt seed (b ∷ bs) p h =
    crc_from-lt (calc_crc_byte seed b) bs (calc_crc_byte-lt seed b p h.0) h.1

crc_from_inj :
    (s t : ℕ) (bs : List ℕ)
    → s < 2 ^ 16
    → t < 2 ^ 16
    → IsBytes bs
    → crc_from s bs ≡ crc_from t bs
    → s ≡ t
unfolding crc_from
crc_from_inj s t [] p q h e = e
crc_from_inj s t (b ∷ bs) p q h e =
    let next =
      crc_from_inj (calc_crc_byte s b) (calc_crc_byte t b) bs (calc_crc_byte-lt s b p h.0)
        (calc_crc_byte-lt t b q h.0) h.1 e in
    let fed : shift_rounds 8 (bit_xor s b) ≡ shift_rounds 8 (bit_xor t b) =
      sym (calc_crc_byte-shift_rounds s b h.0) ∙ next ∙ calc_crc_byte-shift_rounds t b h.0 in
    xor_inj s t b (
      shift_rounds_inj 8 (bit_xor s b) (bit_xor t b) (xor-lt 16 s b p (omega (arith, h.0)))
        (xor-lt 16 t b q (omega (arith, h.0))) fed)

-- Two steps are sixteen rounds over the seed and the two bytes as one word.
two_bytes :
    (s a b : ℕ)
    → a < 256
    → b < 256
    → calc_crc_byte (calc_crc_byte s a) b
      ≡ shift_rounds 8 (shift_rounds 8 (bit_xor s (bit_xor (b * 2 ^ 8) a)))
two_bytes s a b p q =
    let regroup : bit_xor (bit_xor s a) (b * 2 ^ 8) ≡ bit_xor s (bit_xor (b * 2 ^ 8) a) =
      xor_assoc s a (b * 2 ^ 8) ∙ ap (bit_xor s) (xor_comm a (b * 2 ^ 8)) in
    calc_crc_byte-shift_rounds (calc_crc_byte s a) b q
    ∙ ap (shift_rounds 8) (
        ap₂ bit_xor (calc_crc_byte-shift_rounds s a p) (sym (shift_rounds-high 8 b))
        ∙ sym (shift_rounds-xor 8 (bit_xor s a) (b * 2 ^ 8))
        ∙ ap (shift_rounds 8) regroup)

pack-lt : (a b : ℕ) → a < 256 → b < 256 → bit_xor (b * 2 ^ 8) a < 2 ^ 16
pack-lt a b p q = xor-lt 16 (b * 2 ^ 8) a (omega arith) (omega arith)

two_bytes_inj :
    (s a b c d : ℕ)
    → s < 2 ^ 16
    → IsBytes (a ∷ b ∷ c ∷ d ∷ [])
    → calc_crc_byte (calc_crc_byte s a) b ≡ calc_crc_byte (calc_crc_byte s c) d
    → (a ≡ c) × (b ≡ d)
two_bytes_inj s a b c d p (pa, (pb, (pc, (pd, _)))) e =
    let ab = bit_xor (b * 2 ^ 8) a in
    let cd = bit_xor (d * 2 ^ 8) c in
    let ab-lt = xor-lt 16 s ab p (pack-lt a b pa pb) in
    let cd-lt = xor-lt 16 s cd p (pack-lt c d pc pd) in
    let words = shift_rounds_inj 8 (bit_xor s ab) (bit_xor s cd) ab-lt cd-lt (
      shift_rounds_inj 8 (shift_rounds 8 (bit_xor s ab)) (shift_rounds 8 (bit_xor s cd))
        (shift_rounds-lt 8 (bit_xor s ab) ab-lt) (shift_rounds-lt 8 (bit_xor s cd) cd-lt)
        (sym (two_bytes s a b pa pb) ∙ e ∙ two_bytes s c d pc pd)) in
    let packed : ab ≡ cd = xor_inj ab cd s (xor_comm ab s ∙ words ∙ xor_comm s cd) in
    let ab_sum = xor_fields 8 b a pa in
    let cd_sum = xor_fields 8 d c pc in (omega arith, omega arith)

crc_from_burst :
    (s : ℕ) (pre post : List ℕ) (a b c d : ℕ)
    → s < 2 ^ 16
    → IsBytes pre
    → IsBytes post
    → IsBytes (a ∷ b ∷ c ∷ d ∷ [])
    → crc_from s (pre ++ (a ∷ b ∷ post)) ≡ crc_from s (pre ++ (c ∷ d ∷ post))
    → (a ≡ c) × (b ≡ d)
unfolding crc_from
crc_from_burst s [] post a b c d p hpre hpost h e = two_bytes_inj s a b c d p h (
    crc_from_inj (calc_crc_byte (calc_crc_byte s a) b) (calc_crc_byte (calc_crc_byte s c) d) post
      (calc_crc_byte-lt (calc_crc_byte s a) b (calc_crc_byte-lt s a p h.0) h.1.0)
      (calc_crc_byte-lt (calc_crc_byte s c) d (calc_crc_byte-lt s c p h.1.1.0) h.1.1.1.0) hpost e)
crc_from_burst s (x ∷ pre) post a b c d p hpre hpost h e =
    crc_from_burst (calc_crc_byte s x) pre post a b c d (calc_crc_byte-lt s x p hpre.0) hpre.1 hpost
      h e

-- A corruption that leaves the checksum as it was did not touch two adjacent bytes alone: if two
-- byte strings differ at most in the bytes at two neighbouring places and have the same checksum,
-- those bytes are equal too.
pub calc_crc-detects_burst :
    (pre post : List ℕ) (a b c d : ℕ)
    → IsBytes pre
    → IsBytes post
    → IsBytes (a ∷ b ∷ c ∷ d ∷ [])
    → calc_crc (pre ++ (a ∷ b ∷ post)) ≡ calc_crc (pre ++ (c ∷ d ∷ post))
    → (a ≡ c) × (b ≡ d)
unfolding calc_crc
calc_crc-detects_burst pre post a b c d hpre hpost h e =
    crc_from_burst 0 pre post a b c d (omega arith) hpre hpost h e
