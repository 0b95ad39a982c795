-- ===== src/Entity/Bytes.antt =====
-- The comparison of two arrays, which decides their equality.
use bitcoin_analysis.Common.{
  ℕ, ◌≡◌, ◌≢◌, refl, sym, ap, ap₂, ◌∙◌, List, [], ◌∷◌, true, false, ◌==◌, Bool-cases, inl, inr,
  ==-true, ==-refl, true≢false, if◌then◌else◌,
}
use bitcoin_analysis.Entity.{same_bytes}

pub same_bytes_refl : (a : List ℕ) → same_bytes a a ≡ true
same_bytes_refl [] = refl
same_bytes_refl (x ∷ xs) = rw (==-refl x) (same_bytes_refl xs)

pub same_bytes-eq : (a b : List ℕ) → same_bytes a b ≡ true → a ≡ b
same_bytes-eq [] [] h = refl
same_bytes-eq [] (y ∷ ys) h = absurd (true≢false (sym h))
same_bytes-eq (x ∷ xs) [] h = absurd (true≢false (sym h))
same_bytes-eq (x ∷ xs) (y ∷ ys) h = elim (Bool-cases (x == y)) [
  | inl e ↦
      ap₂ ◌∷◌ (==-true x y e)
        (same_bytes-eq xs ys (sym (ap (λ b. if b then same_bytes xs ys else false) e) ∙ h))
  | inr e ↦ absurd (true≢false (sym h ∙ ap (λ b. if b then same_bytes xs ys else false) e))
]

pub same_bytes-differ : (a b : List ℕ) → same_bytes a b ≡ false → a ≢ b
same_bytes-differ a b h e = true≢false (sym (same_bytes_refl a) ∙ ap (same_bytes a) e ∙ h)
