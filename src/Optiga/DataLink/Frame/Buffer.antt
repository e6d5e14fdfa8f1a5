-- ===== src/Optiga/DataLink/Frame/Buffer.antt =====
-- Frames inside the frame buffers: the payload that a buffer holds, and what sealing does to it.
use decada_embedded_example.Base.{
  ℕ, zero, suc, ◌+◌, ◌≤◌, ◌≡◌, refl, ap, sym, ◌∙◌, List, [], ◌∷◌, ◌++◌, length, take, drop, arith,
  length-set, length-take, length-drop, take-append, take-append-add,
}
use decada_embedded_example.Base.Word.{u8, ◌>>>◌}
use decada_embedded_example.Optiga.DataLink.Crc.{calc_crc}
use decada_embedded_example.Optiga.DataLink.Frame.{header_size, seal}
use decada_embedded_example.Optiga.DataLink.Frame.Layout.{covered, layout, room, seal_lem}

-- The `n` payload bytes in a buffer.
abbrev pub payload_in : ℕ → List ℕ → List ℕ
payload_in n buffer = take n (drop 3 buffer)

pub length-payload_in :
    (n : ℕ) (buffer : List ℕ) → header_size + n ≤ length buffer → length (payload_in n buffer) ≡ n
length-payload_in n buffer h = omega (arith, length-take n (drop 3 buffer), length-drop 3 buffer)

-- A buffer with room for a frame, taken apart.
record Room (n : ℕ) (buffer : List ℕ) : Type 0 where
  h0 : ℕ
  h1 : ℕ
  h2 : ℕ
  c0 : ℕ
  c1 : ℕ
  rest : List ℕ
  whole : buffer ≡ room h0 h1 h2 (payload_in n buffer) c0 c1 rest

two_more :
    (n : ℕ) (xs : List ℕ)
    → n + 2 ≤ length xs
    → (c0 : ℕ) × (c1 : ℕ) × (rest : List ℕ) × (xs ≡ take n xs ++ (c0 ∷ c1 ∷ rest))
two_more zero [] h = absurd (omega arith)
two_more zero (x ∷ []) h = absurd (omega arith)
two_more zero (x ∷ y ∷ xs) h = (x, y, xs, refl)
two_more (suc n) [] h = absurd (omega arith)
two_more (suc n) (x ∷ xs) h =
    let (c0, c1, rest, e) = two_more n xs (omega arith) in (c0, c1, rest, ap (λ r. x ∷ r) e)

room_of : (n : ℕ) (buffer : List ℕ) → header_size + n ≤ length buffer → Room n buffer
room_of n [] h = absurd (omega arith)
room_of n (a ∷ []) h = absurd (omega arith)
room_of n (a ∷ b ∷ []) h = absurd (omega arith)
room_of n (a ∷ b ∷ c ∷ xs) h =
    let (c0, c1, rest, e) = two_more n xs (omega arith) in
    record {
      h0 = a;
      h1 = b;
      h2 = c;
      c0 = c0;
      c1 = c1;
      rest = rest;
      whole = ap (λ r. a ∷ b ∷ c ∷ r) e;
    }

module _ (fctr n : ℕ) (buffer : List ℕ) (fits : header_size + n ≤ length buffer) where
  abbrev held : List ℕ
  held = payload_in n buffer

  seal_in :
      seal fctr n buffer
      ≡ covered fctr held
        ++ (u8 (calc_crc (covered fctr held) >>> 8)
            ∷ u8 (calc_crc (covered fctr held))
            ∷ (room_of n buffer fits).rest)
  seal_in =
      let r = room_of n buffer fits in
      let size = length-payload_in n buffer fits in
      ap (seal fctr n) r.whole
      ∙ ap (λ (k : ℕ). seal fctr k (room r.h0 r.h1 r.h2 held r.c0 r.c1 r.rest)) (sym size)
      ∙ seal_lem fctr held r.h0 r.h1 r.h2 r.c0 r.c1 r.rest

  -- The frame that leaves the buffer is the layout of the payload in it.
  pub take-seal_in : take (header_size + n) (seal fctr n buffer) ≡ layout fctr held
  take-seal_in =
      let size = length-payload_in n buffer fits in
      let e : header_size + n ≡ length (covered fctr held) + 2 = omega arith in
      let crc = calc_crc (covered fctr held) in
      rw (seal_in, e)
        (take-append-add (covered fctr held)
          (u8 (crc >>> 8) ∷ u8 crc ∷ (room_of n buffer fits).rest) 2)

  -- Sealing leaves the payload as it is.
  pub payload_in-seal : payload_in n (seal fctr n buffer) ≡ held
  payload_in-seal =
      let crc = calc_crc (covered fctr held) in
      let after = u8 (crc >>> 8) ∷ u8 crc ∷ (room_of n buffer fits).rest in
      ap (payload_in n) seal_in
      ∙ ap (λ (k : ℕ). take k (held ++ after)) (sym (length-payload_in n buffer fits))
      ∙ take-append held after

pub length-seal : (fctr n : ℕ) (buffer : List ℕ) → length (seal fctr n buffer) ≡ length buffer
unfolding seal
length-seal fctr n buffer = simp length-set

-- A control frame that is sealed in the same buffer puts its checksum over the first two bytes of
-- the payload that stood there.
pub payload_in-seal_control :
    (fctr n : ℕ) (buffer : List ℕ)
    → header_size + n ≤ length buffer
    → payload_in (suc (suc n)) (seal fctr 0 buffer) ≡ (
        let crc = calc_crc (covered fctr []) in
        u8 (crc >>> 8) ∷ u8 crc ∷ payload_in n (drop 2 buffer))
unfolding seal
payload_in-seal_control fctr n [] h = absurd (omega arith)
payload_in-seal_control fctr n (a ∷ []) h = absurd (omega arith)
payload_in-seal_control fctr n (a ∷ b ∷ []) h = absurd (omega arith)
payload_in-seal_control fctr n (a ∷ b ∷ c ∷ []) h = absurd (omega arith)
payload_in-seal_control fctr n (a ∷ b ∷ c ∷ d ∷ []) h = absurd (omega arith)
payload_in-seal_control fctr n (a ∷ b ∷ c ∷ d ∷ e ∷ xs) h = refl
