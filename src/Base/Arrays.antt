-- ===== src/Base/Arrays.antt =====
-- C arrays and buffers as lists with native indices.
use Prim.Native.Nat.{ℕ, zero, suc, ◌+◌, ◌-◌, ◌≤◌, ◌<◌, min}
use mathlib.Core.Path.{◌≡◌, refl, ap, ◌∙◌}
use mathlib.Core.Logic.{◌≢◌}
use mathlib.Core.List.{List, [], ◌∷◌, ◌++◌}
use native.Mathlib.Nat.{zero-add, suc-add}
use native.Mathlib.Omega.{arith}

module _ {ℓ} {A : Type ℓ} where
  abbrev pub length : List A → ℕ
  length [] = 0
  length (x ∷ xs) = suc (length xs)

  abbrev pub get_or : List A → ℕ → A → A
  get_or [] i d = d
  get_or (x ∷ xs) zero d = x
  get_or (x ∷ xs) (suc i) d = get_or xs i d

  abbrev pub take : ℕ → List A → List A
  take zero xs = []
  take (suc n) [] = []
  take (suc n) (x ∷ xs) = x ∷ take n xs

  abbrev pub drop : ℕ → List A → List A
  drop zero xs = xs
  drop (suc n) [] = []
  drop (suc n) (x ∷ xs) = drop n xs

  pub length-append : (xs ys : List A) → length (xs ++ ys) ≡ length xs + length ys
  length-append [] ys = omega arith
  length-append (x ∷ xs) ys = omega (arith, length-append xs ys)

  pub length-take : (n : ℕ) (xs : List A) → length (take n xs) ≡ min n (length xs)
  length-take zero xs = omega arith
  length-take (suc n) [] = omega arith
  length-take (suc n) (x ∷ xs) = omega (arith, length-take n xs)

  pub length-drop : (n : ℕ) (xs : List A) → length (drop n xs) ≡ length xs - n
  length-drop zero xs = omega arith
  length-drop (suc n) [] = omega arith
  length-drop (suc n) (x ∷ xs) = omega (arith, length-drop n xs)

  pub take-append-drop : (n : ℕ) (xs : List A) → take n xs ++ drop n xs ≡ xs
  take-append-drop zero xs = refl
  take-append-drop (suc n) [] = refl
  take-append-drop (suc n) (x ∷ xs) = ap (λ r. x ∷ r) (take-append-drop n xs)

  -- A write out of bounds, undefined in C, changes nothing here.
  abbrev pub set : List A → ℕ → A → List A
  set [] i v = []
  set (x ∷ xs) zero v = v ∷ xs
  set (x ∷ xs) (suc i) v = x ∷ set xs i v

  -- `memcpy(buf + i, src, length src)`.
  abbrev pub copy_to : List A → ℕ → List A → List A
  copy_to buf i [] = buf
  copy_to buf i (x ∷ src) = copy_to (set buf i x) (suc i) src

  pub set-append :
      (xs ys : List A) (i : ℕ) (v : A) → set (xs ++ ys) (length xs + i) v ≡ xs ++ set ys i v
  set-append [] ys i v = rw zero-add
  set-append (x ∷ xs) ys i v = rw suc-add (ap (λ r. x ∷ r) (set-append xs ys i v))

  pub take-append : (xs ys : List A) → take (length xs) (xs ++ ys) ≡ xs
  take-append [] ys = refl
  take-append (x ∷ xs) ys = ap (λ r. x ∷ r) (take-append xs ys)

  pub get_or-append :
      (xs ys : List A) (i : ℕ) (d : A) → get_or (xs ++ ys) (length xs + i) d ≡ get_or ys i d
  get_or-append [] ys i d = rw zero-add
  get_or-append (x ∷ xs) ys i d = rw suc-add (get_or-append xs ys i d)

  pub take-append-add : (xs ys : List A) (n : ℕ) → take (length xs + n) (xs ++ ys) ≡ xs ++ take n ys
  take-append-add [] ys n = rw zero-add
  take-append-add (x ∷ xs) ys n = rw suc-add (ap (λ r. x ∷ r) (take-append-add xs ys n))

  pub set-append_at :
      (xs ys : List A) (x v : A) → set (xs ++ (x ∷ ys)) (length xs) v ≡ xs ++ (v ∷ ys)
  set-append_at [] ys x v = refl
  set-append_at (y ∷ xs) ys x v = ap (λ r. y ∷ r) (set-append_at xs ys x v)

  pub length-set : (xs : List A) (i : ℕ) (v : A) → length (set xs i v) ≡ length xs
  length-set [] i v = refl
  length-set (x ∷ xs) zero v = refl
  length-set (x ∷ xs) (suc i) v = ap suc (length-set xs i v)

  copy_to-suc :
      (x : A) (buf src : List A) (i : ℕ) → copy_to (x ∷ buf) (suc i) src ≡ x ∷ copy_to buf i src
  copy_to-suc x buf [] i = refl
  copy_to-suc x buf (y ∷ src) i = copy_to-suc x (set buf i y) src (suc i)

  pub copy_to_start :
      (buf src : List A)
      → length src ≤ length buf
      → copy_to buf 0 src ≡ src ++ drop (length src) buf
  copy_to_start buf [] h = refl
  copy_to_start [] (y ∷ src) h = absurd (omega arith)
  copy_to_start (b ∷ buf) (y ∷ src) h =
      copy_to-suc y buf src 0 ∙ ap (λ r. y ∷ r) (copy_to_start buf src (omega arith))

  copy_to-append :
      (xs ys src : List A) → copy_to (xs ++ ys) (length xs) src ≡ xs ++ copy_to ys 0 src
  copy_to-append [] ys src = refl
  copy_to-append (x ∷ xs) ys src =
      copy_to-suc x (xs ++ ys) src (length xs) ∙ ap (λ r. x ∷ r) (copy_to-append xs ys src)

  -- A write behind `xs`, with room for it.
  pub copy_to_behind :
      (xs ys src : List A)
      → length src ≤ length ys
      → copy_to (xs ++ ys) (length xs) src ≡ xs ++ (src ++ drop (length src) ys)
  copy_to_behind xs ys src h = copy_to-append xs ys src ∙ ap (λ r. xs ++ r) (copy_to_start ys src h)

  pub drop-append : (xs ys : List A) → drop (length xs) (xs ++ ys) ≡ ys
  drop-append [] ys = refl
  drop-append (x ∷ xs) ys = drop-append xs ys

  pub length-copy_to : (buf src : List A) (i : ℕ) → length (copy_to buf i src) ≡ length buf
  length-copy_to buf [] i = refl
  length-copy_to buf (x ∷ src) i = length-copy_to (set buf i x) src (suc i) ∙ length-set buf i x

  pub take_all : (n : ℕ) (xs : List A) → length xs ≤ n → take n xs ≡ xs
  take_all zero [] h = refl
  take_all (suc n) [] h = refl
  take_all zero (x ∷ xs) h = absurd (omega arith)
  take_all (suc n) (x ∷ xs) h = ap (λ r. x ∷ r) (take_all n xs (omega arith))

  pub drop-drop : (m n : ℕ) (xs : List A) → drop m (drop n xs) ≡ drop (n + m) xs
  drop-drop m zero xs = rw zero-add
  drop-drop zero (suc n) [] = rw suc-add
  drop-drop (suc m) (suc n) [] = rw suc-add
  drop-drop m (suc n) (x ∷ xs) = rw suc-add (drop-drop m n xs)

  pub get_or-set_same :
      (xs : List A) (i : ℕ) (v d : A) → i < length xs → get_or (set xs i v) i d ≡ v
  get_or-set_same [] i v d h = absurd (omega arith)
  get_or-set_same (x ∷ xs) zero v d h = refl
  get_or-set_same (x ∷ xs) (suc i) v d h = get_or-set_same xs i v d (omega arith)

  pub get_or-set_other :
      (xs : List A) (i j : ℕ) (v d : A) → j ≢ i → get_or (set xs i v) j d ≡ get_or xs j d
  get_or-set_other [] i j v d h = refl
  get_or-set_other (x ∷ xs) zero zero v d h = absurd (h refl)
  get_or-set_other (x ∷ xs) zero (suc j) v d h = refl
  get_or-set_other (x ∷ xs) (suc i) zero v d h = refl
  get_or-set_other (x ∷ xs) (suc i) (suc j) v d h = get_or-set_other xs i j v d (λ e. h (ap suc e))

  -- What was copied is there.
  pub take-drop-copy_to :
      (buf src : List A) (i : ℕ)
      → i + length src ≤ length buf
      → take (length src) (drop i (copy_to buf i src)) ≡ src
  take-drop-copy_to buf src zero h =
      ap (λ b. take (length src) b) (copy_to_start buf src (omega arith))
      ∙ take-append src (drop (length src) buf)
  take-drop-copy_to [] [] (suc i) h = refl
  take-drop-copy_to [] (y ∷ src) (suc i) h = absurd (omega arith)
  take-drop-copy_to (x ∷ buf) src (suc i) h =
      ap (λ b. take (length src) (drop (suc i) b)) (copy_to-suc x buf src i)
      ∙ take-drop-copy_to buf src i (omega arith)
