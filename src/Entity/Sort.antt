-- ===== src/Entity/Sort.antt =====
-- The sort of BitcoinAnalysis/EntityProcess.h: the same elements, the least in front.
use bitcoin_analysis.Common.{
  ℕ, suc, ◌≤◌, ◌≡◌, refl, ap, ◌∙◌, List, [], ◌∷◌, Bool, true, false, leb, ◌==◌, if◌then◌else◌, All,
  arith, Bool-cases, leb-true, leb-false, inl, inr, length,
}
use bitcoin_analysis.Entity.{insert, sort}

unfoldable pub mem : ℕ → List ℕ → Bool
mem x [] = false
mem x (y ∷ ys) = let rest = mem x ys in if x == y then true else rest

pub mem-insert : (x y : ℕ) (ys : List ℕ) → mem x (insert y ys) ≡ mem x (y ∷ ys)
unfolding mem insert
mem-insert x y [] = refl
mem-insert x y (z ∷ zs) = ground (arith, mem-insert x y zs)

pub mem-sort : (x : ℕ) (xs : List ℕ) → mem x (sort xs) ≡ mem x xs
unfolding mem sort
mem-sort x [] = refl
mem-sort x (y ∷ ys) =
    mem-insert x y (sort ys) ∙ ap (λ b. if x == y then true else b) (mem-sort x ys)

abbrev pub Below : ℕ → List ℕ → Type 0
Below m xs = All (λ (x : ℕ). m ≤ x) xs

unfoldable pub Sorted : List ℕ → Type 0
Sorted [] = Unit
Sorted (x ∷ xs) = Below x xs × Sorted xs

Below-trans : (m n : ℕ) (xs : List ℕ) → m ≤ n → Below n xs → Below m xs
Below-trans m n [] h k = tt
Below-trans m n (x ∷ xs) h k = (omega (arith, k.0), Below-trans m n xs h k.1)

Below-insert : (m y : ℕ) (ys : List ℕ) → m ≤ y → Below m ys → Below m (insert y ys)
unfolding insert
Below-insert m y [] h k = (h, tt)
Below-insert m y (z ∷ zs) h k = elim (Bool-cases (leb y z)) [
  | inl e ↦ rw e (h, k)
  | inr e ↦ rw e (k.0, Below-insert m y zs h k.1)
]

insert-Sorted : (y : ℕ) (ys : List ℕ) → Sorted ys → Sorted (insert y ys)
unfolding Sorted insert
insert-Sorted y [] k = (tt, k)
insert-Sorted y (z ∷ zs) k = elim (Bool-cases (leb y z)) [
  | inl e ↦ rw e ((leb-true y z e, Below-trans y z zs (leb-true y z e) k.0), k)
  | inr e ↦ rw e (Below-insert z y zs (omega (arith, leb-false y z e)) k.0, insert-Sorted y zs k.1)
]

pub sort-Sorted : (xs : List ℕ) → Sorted (sort xs)
unfolding sort Sorted
sort-Sorted [] = tt
sort-Sorted (x ∷ xs) = insert-Sorted x (sort xs) (sort-Sorted xs)

length-insert : (y : ℕ) (ys : List ℕ) → length (insert y ys) ≡ suc (length ys)
unfolding insert
length-insert y [] = refl
length-insert y (z ∷ zs) = ground (arith, length-insert y zs)

pub length-sort : (xs : List ℕ) → length (sort xs) ≡ length xs
unfolding sort
length-sort [] = refl
length-sort (x ∷ xs) = length-insert x (sort xs) ∙ ap suc (length-sort xs)

pub mem-Below : (m x : ℕ) (xs : List ℕ) → Below m xs → mem x xs ≡ true → m ≤ x
unfolding mem
mem-Below m x [] h k = ground (arith, k)
mem-Below m x (y ∷ ys) h k = ground (arith, h.0, mem-Below m x ys h.1, k)

pub mem-first : (x : ℕ) (ys : List ℕ) → mem x (x ∷ ys) ≡ true
unfolding mem
mem-first x ys = ground arith

pub mem-later : (x y : ℕ) (ys : List ℕ) → mem x ys ≡ true → mem x (y ∷ ys) ≡ true
unfolding mem
mem-later x y ys h = ground (arith, h)
