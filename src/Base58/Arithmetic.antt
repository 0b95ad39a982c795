-- ===== src/Base58/Arithmetic.antt =====
-- The arithmetic of BLOCKCHAIN_BASE58 in BitcoinAnalysis/hash.h on the values of its numbers.
use bitcoin_analysis.Common.{
  ℕ, ◌+◌, ◌*◌, ◌/◌, ◌%◌, ◌^◌, ◌<◌, ◌≡◌, refl, ap, ◌∙◌, List, [], ◌∷◌, true, ◌==◌, ltb,
  if◌then◌else◌, All, IsByte, u8, u16, bit_or, arith, Bool-cases, inl, inr, ==-true, if_elim,
}
use bitcoin_analysis.Common.Bits.{bit_or_disjoint}
use native.Mathlib.Nat.{mul-le-mul}
use bitcoin_analysis.Block.Reader.{le_value}
use bitcoin_analysis.Base58.{
  multiply_loop, is_zero, multiply, propagate, add_loop, add, divide_loop, drop_last_zero,
  divide_by58, modulo_with58,
}

pub product_fits : (carry d b : ℕ) → carry < 256 → d < 256 → b < 256 → carry + d * b < 2 ^ 16
product_fits carry d b h k l =
    grind (arith, mul-le-mul {n₁ = d} {m₁ = b} {n₂ = 255} {m₂ = 255} (omega arith) (omega arith))

module _ (b : ℕ) (byte : b < 256) where
  le_value-multiply_loop :
      (carry : ℕ) (ds : List ℕ)
      → carry < 256
      → All IsByte ds
      → le_value (multiply_loop b carry ds) ≡ le_value ds * b + carry
  unfolding multiply_loop
  le_value-multiply_loop carry [] h k = ground arith
  le_value-multiply_loop carry (d ∷ ds) h k =
      let fits = product_fits carry d b h k.0 byte in
      let rest =
        le_value-multiply_loop (u16 (carry + d * b) / 2 ^ 8) ds (omega (arith, fits)) k.1 in
      grind (arith, rest, fits)

-- The overflow is 0 or 1.
le_value-propagate :
    (xs : List ℕ) (o : ℕ) → o < 2 → All IsByte xs → le_value (propagate xs o) ≡ le_value xs + o
unfolding propagate
le_value-propagate [] o h k = ground arith
le_value-propagate (x ∷ xs) o h k =
    let rest = le_value-propagate xs (if u8 (x + 1) == 0 then 1 else 0) (ground arith) k.1 in
    ground (arith, rest, k.0)

pub le_value-add_loop :
    (xs ys : List ℕ) (o : ℕ)
    → o < 2
    → All IsByte xs
    → All IsByte ys
    → le_value (add_loop xs ys o) ≡ le_value xs + le_value ys + o
unfolding add_loop
le_value-add_loop xs [] o h k l = omega (arith, le_value-propagate xs o h k)
le_value-add_loop [] (y ∷ ys) o h k l = ground (
  arith,
  l.0,
  le_value-add_loop [] ys (if ltb (u8 (0 + (y + o))) (y + o) then 1 else 0) (ground arith) k l.1,
)
le_value-add_loop (x ∷ xs) (y ∷ ys) o h k l = ground (
  arith,
  k.0,
  l.0,
  le_value-add_loop xs ys (if ltb (u8 (x + (y + o))) (y + o) then 1 else 0) (ground arith) k.1 l.1,
)

modulo_with58-le_value : (a : List ℕ) → modulo_with58 a ≡ le_value a % 58
unfolding modulo_with58
modulo_with58-le_value [] = omega arith
modulo_with58-le_value (d ∷ ds) = omega (arith, modulo_with58-le_value ds)

pub divide_loop-le_value :
    (a : List ℕ)
    → All IsByte a
    → (le_value a ≡ 58 * le_value (divide_loop a).0 + (divide_loop a).1) × ((divide_loop a).1 < 58)
unfolding divide_loop
divide_loop-le_value [] h = (omega arith, omega arith)
divide_loop-le_value (d ∷ ds) h =
    let rest = divide_loop-le_value ds h.1 in
    let high : ℕ = (divide_loop ds).1 in
    let joined : bit_or (u16 (high * 2 ^ 8)) d ≡ high * 2 ^ 8 + d =
      ap (λ (k : ℕ). bit_or k d) {x = u16 (high * 2 ^ 8)} (omega (arith, rest.1))
      ∙ bit_or_disjoint 8 high d h.0 in
    (omega (arith, joined, rest.0, rest.1, h.0), omega (arith, joined, rest.1, h.0))

pub le_value-drop_last_zero : (a : List ℕ) → le_value (drop_last_zero a) ≡ le_value a
unfolding drop_last_zero
le_value-drop_last_zero [] = refl
le_value-drop_last_zero (d ∷ []) = ground arith
le_value-drop_last_zero (d ∷ e ∷ es) = omega (arith, le_value-drop_last_zero (e ∷ es))

pub is_zero-le_value : (a : List ℕ) → is_zero a ≡ true → le_value a ≡ 0
unfolding is_zero
is_zero-le_value [] h = refl
is_zero-le_value (d ∷ []) h = ground (arith, h)
is_zero-le_value (d ∷ e ∷ es) h = ground (arith, h)

-- The division and the remainder belong together: a number is 58 times its quotient, and its
-- remainder, which is less than 58.
pub divide_by58-modulo_with58 :
    (a : List ℕ)
    → All IsByte a
    → (le_value a ≡ 58 * le_value (divide_by58 a) + modulo_with58 a) × (modulo_with58 a < 58)
unfolding divide_by58
divide_by58-modulo_with58 a h = elim (Bool-cases (is_zero a)) [
  | inl zero_number ↦ rw zero_number (
    omega (arith, modulo_with58-le_value a, is_zero-le_value a zero_number),
    omega (arith, modulo_with58-le_value a),
  )
  | inr other ↦ rw other (
    omega (
      arith,
      modulo_with58-le_value a,
      (divide_loop-le_value a h).0,
      (divide_loop-le_value a h).1,
      le_value-drop_last_zero (divide_loop a).0,
    ),
    omega (arith, modulo_with58-le_value a),
  )
]

-- A product has the value of the product, also where it gets a byte longer.
pub le_value-multiply :
    (a : List ℕ) (b : ℕ) → b < 256 → All IsByte a → le_value (multiply a b) ≡ le_value a * b
unfolding multiply
le_value-multiply a b h k =
    let P : List ℕ → Type 0 = λ r. le_value r ≡ le_value a * b in
    if_elim P (b == 0) _ _ (λ e. grind (arith, ==-true b 0 e))
      λ _.
        if_elim P (is_zero a) _ _ (λ e. grind (arith, is_zero-le_value a e))
          λ _. omega (arith, le_value-multiply_loop b h 0 a (omega arith) k)

-- A sum has the value of the sum, whichever number is longer.
pub le_value-add :
    (a b : List ℕ) → All IsByte a → All IsByte b → le_value (add a b) ≡ le_value a + le_value b
unfolding add
le_value-add a b h k = omega (arith, le_value-add_loop a b 0 (omega arith) h k)

-- The results are bytes.
multiply_loop-All : (b carry : ℕ) (ds : List ℕ) → All IsByte (multiply_loop b carry ds)
unfolding multiply_loop
multiply_loop-All b carry [] =
    if_elim (All IsByte) (carry == 0) _ _ (λ _. tt) (λ _. (omega arith, tt))
multiply_loop-All b carry (d ∷ ds) =
    (omega arith, multiply_loop-All b (u16 (carry + d * b) / 2 ^ 8) ds)

pub multiply-All : (a : List ℕ) (b : ℕ) → All IsByte a → All IsByte (multiply a b)
unfolding multiply
multiply-All a b h =
    if_elim (All IsByte) (b == 0) _ _ (λ _. (omega arith, tt))
      λ _. if_elim (All IsByte) (is_zero a) _ _ (λ _. h) λ _. multiply_loop-All b 0 a

propagate-All : (xs : List ℕ) (o : ℕ) → All IsByte xs → All IsByte (propagate xs o)
unfolding propagate
propagate-All [] o h = if_elim (All IsByte) (o == 0) _ _ (λ _. tt) (λ _. (omega arith, tt))
propagate-All (x ∷ xs) o h =
    if_elim (All IsByte) (o == 0) _ _ (λ _. h) (λ _. (omega arith, propagate-All xs _ h.1))

add_loop-All : (xs ys : List ℕ) (o : ℕ) → All IsByte xs → All IsByte (add_loop xs ys o)
unfolding add_loop
add_loop-All xs [] o h = propagate-All xs o h
add_loop-All [] (y ∷ ys) o h = (omega arith, add_loop-All [] ys _ tt)
add_loop-All (x ∷ xs) (y ∷ ys) o h = (omega arith, add_loop-All xs ys _ h.1)

pub add-All : (a b : List ℕ) → All IsByte a → All IsByte (add a b)
unfolding add
add-All a b h = add_loop-All a b 0 h
