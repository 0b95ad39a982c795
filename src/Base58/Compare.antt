-- ===== src/Base58/Compare.antt =====
-- The comparison and the subtraction of two numbers of BLOCKCHAIN_BASE58 in
-- BitcoinAnalysis/hash.h, on their values.
use bitcoin_analysis.Common.{
  ℕ, ◌+◌, ◌*◌, ◌<◌, ◌≤◌, ◌≡◌, refl, List, [], ◌∷◌, ltb, if◌then◌else◌, ◌⊎◌, inl, inr, All, IsByte,
  length, get_or, u16, arith, if_elim,
}
use bitcoin_analysis.Block.Reader.{le_value}
use bitcoin_analysis.Base58.Encoder.{
  equal, more_than, less_than, compare_bytes, compare_loop, compare_to_big_int, subtract_loop,
  subtract,
}
use bitcoin_analysis.Base58.Trim.{Trim, Trim-tail, Trim-positive, le_value-normalise}

more_length : (a b : List ℕ) → All IsByte b → Trim a → length b < length a → le_value b < le_value a
more_length [] b h t l = absurd (omega (arith, l))
more_length (x ∷ xs) [] h t l = omega (arith, Trim-positive x xs t)
more_length (x ∷ xs) (y ∷ ys) h t l =
    omega (arith, h.0, more_length xs ys h.1 (Trim-tail x xs t) (omega (arith, l)))

compare_bytes-step :
    (x y v w : ℕ)
    → x < 256
    → y < 256
    → elim (compare_bytes v w) [
      | equal ↦ compare_bytes x y
      | more_than ↦ more_than
      | less_than ↦ less_than
    ]
      ≡ compare_bytes (x + 256 * v) (y + 256 * w)
unfolding compare_bytes
compare_bytes-step x y v w h k = ground (arith, h, k)

compare_loop-value :
    (a b : List ℕ)
    → All IsByte a
    → All IsByte b
    → length a ≡ length b
    → compare_loop a b ≡ compare_bytes (le_value a) (le_value b)
unfolding compare_loop compare_bytes
compare_loop-value [] [] h k e = refl
compare_loop-value [] (y ∷ ys) h k e = absurd (omega (arith, e))
compare_loop-value (x ∷ xs) [] h k e = absurd (omega (arith, e))
compare_loop-value (x ∷ xs) (y ∷ ys) h k e =
    rw (compare_loop-value xs ys h.1 k.1 (omega (arith, e)))
      (compare_bytes-step x y (le_value xs) (le_value ys) h.0 k.0)

compare_bytes-more : (v w : ℕ) → w < v → more_than ≡ compare_bytes v w
unfolding compare_bytes
compare_bytes-more v w h = ground (arith, h)

compare_bytes-less : (v w : ℕ) → v < w → less_than ≡ compare_bytes v w
unfolding compare_bytes
compare_bytes-less v w h = ground (arith, h)

-- Numbers without zeros on top are compared as their values are.
pub compare_to_big_int-le_value :
    (a b : List ℕ)
    → All IsByte a
    → All IsByte b
    → Trim a
    → Trim b
    → compare_to_big_int a b ≡ compare_bytes (le_value a) (le_value b)
unfolding compare_to_big_int
compare_to_big_int-le_value a b h k t u =
    if_elim (λ c. c ≡ compare_bytes (le_value a) (le_value b)) (ltb (length b) (length a)) _ _
      (λ e. compare_bytes-more (le_value a) (le_value b) (more_length a b k t (ground (arith, e))))
      (λ e.
        if_elim (λ c. c ≡ compare_bytes (le_value a) (le_value b)) (ltb (length a) (length b)) _ _
          (λ f.
            compare_bytes-less (le_value a) (le_value b) (more_length b a h u (ground (arith, f))))
          (λ f. compare_loop-value a b h k (ground (arith, e, f))))

-- The byte behind the shorter number, if there is one, is not 0.
le_value-subtract_loop :
    (a b : List ℕ) (carry : ℕ)
    → All IsByte a
    → All IsByte b
    → carry < 2
    → (length a ≡ length b) ⊎ (0 < get_or a (length b) 0)
    → le_value b + carry ≤ le_value a
    → le_value (subtract_loop a b carry) + (le_value b + carry) ≡ le_value a
unfolding subtract_loop
le_value-subtract_loop [] b c h k l p q = omega (arith, q)
le_value-subtract_loop (x ∷ xs) [] c h k l (inl p) q = absurd (omega (arith, p))
le_value-subtract_loop (x ∷ xs) [] c h k l (inr p) q = ground (arith, h.0, l, p)
le_value-subtract_loop (x ∷ xs) (y ∷ ys) c h k l p q =
    let borrow : ℕ = if ltb x (u16 (c + y)) then 1 else 0 in
    let rest =
      le_value-subtract_loop xs ys borrow h.1 k.1 (ground arith)
        (elim p [ inl e ↦ inl (omega (arith, e)) | inr e ↦ inr e ])
        (ground (arith, q, h.0, k.0, l)) in
    ground (arith, rest, h.0, k.0, l)

-- A difference has the value of the difference, where the number is not the less one, and where it
-- is as long as what is taken away or has a byte behind it that is not 0.
pub le_value-subtract :
    (a b : List ℕ)
    → All IsByte a
    → All IsByte b
    → (length a ≡ length b) ⊎ (0 < get_or a (length b) 0)
    → le_value b ≤ le_value a
    → le_value (subtract a b) + le_value b ≡ le_value a
unfolding subtract
le_value-subtract a b h k p q = omega (
  arith,
  le_value-normalise (subtract_loop a b 0),
  le_value-subtract_loop a b 0 h k (omega arith) p (omega (arith, q)),
)
