-- ===== src/Common/Lists.antt =====
-- Lists measured and indexed by the native numbers.
use Prim.Native.Nat.add
use Prim.Native.Nat.{ℕ, zero, suc, ◌+◌, ◌-◌, ◌≤◌, ◌<◌, min}
use mathlib.Core.Path.{◌≡◌, refl, sym, ap, ◌∙◌}
use mathlib.Core.List.{List, [], ◌∷◌, ◌++◌, append_assoc, map}
use native.Mathlib.Omega.{arith}

module _ {ℓ} {A : Type ℓ} where
  abbrev pub length : List A → ℕ
  length [] = 0
  length (x ∷ xs) = suc (length xs)

  abbrev pub get_or : List A → ℕ → A → A
  get_or [] i d = d
  get_or (x ∷ xs) zero d = x
  get_or (x ∷ xs) (suc i) d = get_or xs i d

  -- A write out of bounds changes nothing.
  abbrev pub set : List A → ℕ → A → List A
  set [] i v = []
  set (x ∷ xs) zero v = v ∷ xs
  set (x ∷ xs) (suc i) v = x ∷ set xs i v

  abbrev pub take : ℕ → List A → List A
  take zero xs = []
  take (suc n) [] = []
  take (suc n) (x ∷ xs) = x ∷ take n xs

  abbrev pub drop : ℕ → List A → List A
  drop zero xs = xs
  drop (suc n) [] = []
  drop (suc n) (x ∷ xs) = drop n xs

  abbrev pub replicate : ℕ → A → List A
  replicate zero a = []
  replicate (suc n) a = a ∷ replicate n a

  abbrev pub All {κ} : (A → Type κ) → List A → Type κ
  All P [] = Unit {κ}
  All P (x ∷ xs) = P x × All P xs

  -- memcpy(buf + pos, src, n), where the source and the destination are long enough.
  abbrev pub copy_to : List A → ℕ → List A → ℕ → List A
  copy_to buf pos src n = take pos buf ++ (take n src ++ drop (pos + n) buf)

module _ {ℓ} {A : Type ℓ} where
  pub length-append : (xs ys : List A) → length (xs ++ ys) ≡ length xs + length ys
  length-append [] ys = omega arith
  length-append (x ∷ xs) ys = omega (arith, length-append xs ys)

  pub length-set : (xs : List A) (i : ℕ) (v : A) → length (set xs i v) ≡ length xs
  length-set [] i v = refl
  length-set (x ∷ xs) zero v = refl
  length-set (x ∷ xs) (suc i) v = ap suc (length-set xs i v)

  pub length-take : (n : ℕ) (xs : List A) → length (take n xs) ≡ min n (length xs)
  length-take zero xs = omega arith
  length-take (suc n) [] = omega arith
  length-take (suc n) (x ∷ xs) = omega (arith, length-take n xs)

  pub length-drop : (n : ℕ) (xs : List A) → length (drop n xs) ≡ length xs - n
  length-drop zero xs = omega arith
  length-drop (suc n) [] = omega arith
  length-drop (suc n) (x ∷ xs) = omega (arith, length-drop n xs)

  pub length-replicate : (n : ℕ) (a : A) → length (replicate n a) ≡ n
  length-replicate zero a = refl
  length-replicate (suc n) a = ap suc (length-replicate n a)

  pub take-append-drop : (n : ℕ) (xs : List A) → take n xs ++ drop n xs ≡ xs
  take-append-drop zero xs = refl
  take-append-drop (suc n) [] = refl
  take-append-drop (suc n) (x ∷ xs) = ap (λ t. x ∷ t) (take-append-drop n xs)

  -- A cut at the seam of an append, and inside its first part.
  pub take-append_eq : (xs ys : List A) (n : ℕ) → length xs ≡ n → take n (xs ++ ys) ≡ xs
  take-append_eq [] ys zero h = refl
  take-append_eq [] ys (suc n) h = absurd (omega arith)
  take-append_eq (x ∷ xs) ys zero h = absurd (omega arith)
  take-append_eq (x ∷ xs) ys (suc n) h = ap (λ t. x ∷ t) (take-append_eq xs ys n (omega arith))

  pub drop-append_eq : (xs ys : List A) (n : ℕ) → length xs ≡ n → drop n (xs ++ ys) ≡ ys
  drop-append_eq [] ys zero h = refl
  drop-append_eq [] ys (suc n) h = absurd (omega arith)
  drop-append_eq (x ∷ xs) ys zero h = absurd (omega arith)
  drop-append_eq (x ∷ xs) ys (suc n) h = drop-append_eq xs ys n (omega arith)

  pub take-append_le : (n : ℕ) (xs ys : List A) → n ≤ length xs → take n (xs ++ ys) ≡ take n xs
  take-append_le zero xs ys h = refl
  take-append_le (suc n) [] ys h = absurd (omega arith)
  take-append_le (suc n) (x ∷ xs) ys h = ap (λ t. x ∷ t) (take-append_le n xs ys (omega arith))

  pub drop-append_le :
      (n : ℕ) (xs ys : List A) → n ≤ length xs → drop n (xs ++ ys) ≡ drop n xs ++ ys
  drop-append_le zero xs ys h = refl
  drop-append_le (suc n) [] ys h = absurd (omega arith)
  drop-append_le (suc n) (x ∷ xs) ys h = drop-append_le n xs ys (omega arith)

  -- A cut behind the seam.
  pub take-append_add : (xs ys : List A) (n : ℕ) → take (length xs + n) (xs ++ ys) ≡ xs ++ take n ys
  take-append_add [] ys n = rw add.zero
  take-append_add (x ∷ xs) ys n = rw add.suc (ap (λ t. x ∷ t) (take-append_add xs ys n))

  pub drop-append_add : (xs ys : List A) (n : ℕ) → drop (length xs + n) (xs ++ ys) ≡ drop n ys
  drop-append_add [] ys n = rw add.zero
  drop-append_add (x ∷ xs) ys n = rw add.suc (drop-append_add xs ys n)

  pub take_all : (n : ℕ) (xs : List A) → length xs ≤ n → take n xs ≡ xs
  take_all zero [] h = refl
  take_all zero (x ∷ xs) h = absurd (omega arith)
  take_all (suc n) [] h = refl
  take_all (suc n) (x ∷ xs) h = ap (λ t. x ∷ t) (take_all n xs (omega arith))

  pub drop_all : (n : ℕ) (xs : List A) → length xs ≤ n → drop n xs ≡ []
  drop_all zero [] h = refl
  drop_all zero (x ∷ xs) h = absurd (omega arith)
  drop_all (suc n) [] h = refl
  drop_all (suc n) (x ∷ xs) h = drop_all n xs (omega arith)

  pub drop-drop : (m n : ℕ) (xs : List A) → drop n (drop m xs) ≡ drop (m + n) xs
  drop-drop zero n xs = rw add.zero
  drop-drop (suc m) zero [] = sym (drop_all (suc m + 0) [] (omega arith))
  drop-drop (suc m) (suc n) [] = sym (drop_all (suc m + suc n) [] (omega arith))
  drop-drop (suc m) n (x ∷ xs) = rw add.suc (drop-drop m n xs)

  pub length-copy_to :
      (buf : List A) (pos : ℕ) (src : List A) (n : ℕ)
      → pos + n ≤ length buf
      → n ≤ length src
      → length (copy_to buf pos src n) ≡ length buf
  length-copy_to buf pos src n h k = omega (
    arith,
    length-append (take pos buf) (take n src ++ drop (pos + n) buf),
    length-append (take n src) (drop (pos + n) buf),
    length-take pos buf,
    length-take n src,
    length-drop (pos + n) buf,
  )

  -- What a copy leaves in front of its end.
  pub take-copy_to :
      (buf : List A) (pos : ℕ) (src : List A) (n : ℕ)
      → pos ≤ length buf
      → n ≤ length src
      → take (pos + n) (copy_to buf pos src n) ≡ take pos buf ++ take n src
  take-copy_to buf pos src n h k =
      ap (take (pos + n)) (sym (append_assoc (take pos buf) (take n src) (drop (pos + n) buf)))
      ∙ take-append_eq (take pos buf ++ take n src) (drop (pos + n) buf) (pos + n) (
          omega (
            arith,
            length-append (take pos buf) (take n src),
            length-take pos buf,
            length-take n src,
          ))

  pub take-replicate : (m n : ℕ) (a : A) → m ≤ n → take m (replicate n a) ≡ replicate m a
  take-replicate zero n a h = refl
  take-replicate (suc m) zero a h = absurd (omega arith)
  take-replicate (suc m) (suc n) a h = ap (λ t. a ∷ t) (take-replicate m n a (omega arith))

  pub get_or-append_left :
      (xs ys : List A) (i : ℕ) (d : A) → i < length xs → get_or (xs ++ ys) i d ≡ get_or xs i d
  get_or-append_left [] ys i d h = absurd (omega arith)
  get_or-append_left (x ∷ xs) ys zero d h = refl
  get_or-append_left (x ∷ xs) ys (suc i) d h = get_or-append_left xs ys i d (omega arith)

  pub get_or-append_end :
      (xs ys : List A) (y : A) (i : ℕ) (d : A) → i ≡ length xs → get_or (xs ++ y ∷ ys) i d ≡ y
  get_or-append_end [] ys y zero d h = refl
  get_or-append_end [] ys y (suc i) d h = absurd (omega arith)
  get_or-append_end (x ∷ xs) ys y zero d h = absurd (omega arith)
  get_or-append_end (x ∷ xs) ys y (suc i) d h = get_or-append_end xs ys y i d (omega arith)

  pub length-map {κ} : {B : Type κ} (f : A → B) (xs : List A) → length (map f xs) ≡ length xs
  length-map f [] = refl
  length-map f (x ∷ xs) = ap suc (length-map f xs)

  pub replicate-add : (m n : ℕ) (a : A) → replicate (m + n) a ≡ replicate m a ++ replicate n a
  replicate-add zero n a = rw add.zero
  replicate-add (suc m) n a = rw add.suc (ap (λ t. a ∷ t) (replicate-add m n a))

module _ {ℓ κ μ} {A : Type ℓ} {P : A → Type κ} {Q : A → Type μ} (f : (a : A) → P a → Q a) where
  pub All-imply : (xs : List A) → All P xs → All Q xs
  All-imply [] h = tt
  All-imply (x ∷ xs) h = (f x h.0, All-imply xs h.1)

module _ {ℓ κ} {A : Type ℓ} (P : A → Type κ) where
  pub All-append : (xs ys : List A) → All P xs → All P ys → All P (xs ++ ys)
  All-append [] ys h k = k
  All-append (x ∷ xs) ys h k = (h.0, All-append xs ys h.1 k)

  pub All-before : (xs ys : List A) → All P (xs ++ ys) → All P xs
  All-before [] ys h = tt
  All-before (x ∷ xs) ys h = (h.0, All-before xs ys h.1)

  pub All-behind : (xs ys : List A) → All P (xs ++ ys) → All P ys
  All-behind [] ys h = h
  All-behind (x ∷ xs) ys h = All-behind xs ys h.1
