-- ===== src/Optiga/Util/Memmove.antt =====
-- `Utility_Memmove`, where both buffers lie in one memory.
use decada_embedded_example.Base.{
  ℕ, zero, suc, ◌+◌, ◌-◌, ◌≤◌, ◌<◌, ◌≡◌, ◌⊎◌, inl, inr, refl, ◌∙◌, List, true, false, ◌&&◌, length,
  set, length-set, get_or-set_same, get_or-set_other, le_or_lt, ltb, leb, if◌then◌else◌, arith,
}
use decada_embedded_example.Optiga.Util.Bytes.{at}

-- The first loop, from the last byte down: `n` bytes are left.
unfoldable pub copy_down : List ℕ → ℕ → ℕ → ℕ → List ℕ
copy_down bs dest src zero = bs
copy_down bs dest src (suc n) = copy_down (set bs (dest + n) (at bs (src + n))) dest src n

-- The second loop, from the byte `i` up, with `n` bytes left.
unfoldable pub copy_up : List ℕ → ℕ → ℕ → ℕ → ℕ → List ℕ
copy_up bs dest src i zero = bs
copy_up bs dest src i (suc n) = copy_up (set bs (dest + i) (at bs (src + i))) dest src (suc i) n

-- `Utility_Memmove`; `dest` and `src` are the places of the buffers in the memory `bs`.
unfoldable pub memmove : List ℕ → ℕ → ℕ → ℕ → List ℕ
memmove bs dest src n =
    if ltb src dest && leb dest (src + n - 1)
    then copy_down bs dest src n
    else copy_up bs dest src 0 n

-- From byte `i` on, `n` bytes of the destination are those that stood at the source in `bs`, and
-- the rest of the memory is that of `bs`.
pub record Moved (bs after : List ℕ) (dest src i n : ℕ) : Type 0 where
  pub inside : (k : ℕ) → i ≤ k → k < i + n → at after (dest + k) ≡ at bs (src + k)
  pub before : (j : ℕ) → j < dest + i → at after j ≡ at bs j
  pub behind : (j : ℕ) → dest + i + n ≤ j → at after j ≡ at bs j

copy_down-Moved :
    (n : ℕ) (bs : List ℕ) (dest src : ℕ)
    → src < dest
    → dest + n ≤ length bs
    → Moved bs (copy_down bs dest src n) dest src 0 n
unfolding copy_down
copy_down-Moved zero bs dest src h room = record {
  inside = λ k low high. absurd (omega arith);
  before = λ j _. refl;
  behind = λ j _. refl;
}
copy_down-Moved (suc n) bs dest src h room =
    let v = at bs (src + n) in
    let bs' = set bs (dest + n) v in
    let rest = copy_down-Moved n bs' dest src h (omega (arith, length-set bs (dest + n) v)) in
    record {
      inside = λ k low high. elim (le_or_lt n k) [
        | inl last ↦
            let same : k ≡ n = omega arith in
            rest.behind (dest + k) (omega arith)
            ∙ rw same (get_or-set_same bs (dest + n) v 0 (omega arith))
        | inr earlier ↦
            rest.inside k low (omega arith)
            ∙ get_or-set_other bs (dest + n) (src + k) v 0 (λ e. absurd (omega arith))
      ];
      before = λ j low.
          rest.before j low ∙ get_or-set_other bs (dest + n) j v 0 (λ e. absurd (omega arith));
      behind = λ j high.
          rest.behind j (omega arith)
          ∙ get_or-set_other bs (dest + n) j v 0 (λ e. absurd (omega arith));
    }

copy_up-Moved :
    (n : ℕ) (bs : List ℕ) (dest src i : ℕ)
    → (dest ≤ src) ⊎ (src + i + n ≤ dest)
    → dest + i + n ≤ length bs
    → Moved bs (copy_up bs dest src i n) dest src i n
unfolding copy_up
copy_up-Moved zero bs dest src i apart room = record {
  inside = λ k low high. absurd (omega arith);
  before = λ j _. refl;
  behind = λ j _. refl;
}
copy_up-Moved (suc n) bs dest src i apart room =
    let v = at bs (src + i) in
    let bs' = set bs (dest + i) v in
    let rest =
      copy_up-Moved n bs' dest src (suc i) (ground arith)
        (omega (arith, length-set bs (dest + i) v)) in
    record {
      inside = λ k low high. elim (le_or_lt k i) [
        | inl first ↦
            let same : k ≡ i = omega arith in
            rest.before (dest + k) (omega arith)
            ∙ rw same (get_or-set_same bs (dest + i) v 0 (omega arith))
        | inr later ↦
            rest.inside k later (omega arith)
            ∙ get_or-set_other bs (dest + i) (src + k) v 0 (λ e. ground arith)
      ];
      before = λ j low.
          rest.before j (omega arith)
          ∙ get_or-set_other bs (dest + i) j v 0 (λ e. absurd (omega arith));
      behind = λ j high.
          rest.behind j (omega arith)
          ∙ get_or-set_other bs (dest + i) j v 0 (λ e. absurd (omega arith));
    }

-- Whether or not the buffers overlap, and either way, after the copy the destination holds what
-- the source held before it, and the memory outside of the destination is as it was. The
-- destination lies in the memory.
pub memmove-Moved :
    (bs : List ℕ) (dest src n : ℕ)
    → dest + n ≤ length bs
    → Moved bs (memmove bs dest src n) dest src 0 n
unfolding memmove
memmove-Moved bs dest src n room = elim (le_or_lt dest src) [
  | inl below ↦
      let up : (ltb src dest && leb dest (src + n - 1)) ≡ false = ground arith in
      rw up (copy_up-Moved n bs dest src 0 (inl below) (omega arith))
  | inr above ↦ elim (le_or_lt (src + n) dest) [
    | inl apart ↦
        let up : (ltb src dest && leb dest (src + n - 1)) ≡ false = ground arith in
        rw up (copy_up-Moved n bs dest src 0 (inr (omega arith)) (omega arith))
    | inr overlap ↦
        let down : (ltb src dest && leb dest (src + n - 1)) ≡ true = ground arith in
        rw down (copy_down-Moved n bs dest src above room)
  ]
]
