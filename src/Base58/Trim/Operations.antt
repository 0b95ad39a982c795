-- ===== src/Base58/Trim/Operations.antt =====
-- The operations of BLOCKCHAIN_BASE58 in BitcoinAnalysis/hash.h put no zero on top.
use bitcoin_analysis.Common.{
  ℕ, ◌+◌, ◌*◌, ◌/◌, ◌^◌, ◌<◌, ◌≤◌, ◌≡◌, List, [], ◌∷◌, ◌==◌, ltb, if◌then◌else◌, All, IsByte, u8,
  u16, arith, ==-true, ==-false, if_elim, bit_or,
}
use bitcoin_analysis.Block.Reader.{le_value}
use bitcoin_analysis.Base58.Arithmetic.{
  divide_loop-le_value, divide_by58-modulo_with58, le_value-add_loop, product_fits,
}
use native.Mathlib.Nat.{mul-le-mul}
use bitcoin_analysis.Base58.{
  multiply_loop, is_zero, multiply, propagate, add_loop, add, divide_loop, drop_last_zero,
  divide_by58,
}
use bitcoin_analysis.Base58.Trim.{
  Trim, Trim-tail, Trim-positive, push-Trim, low-Trim, Positive, Positive-cons,
}

multiply_loop-Trim :
    (b carry : ℕ) (ds : List ℕ)
    → 0 < b
    → b < 256
    → carry < 256
    → All IsByte ds
    → Trim ds
    → 0 < le_value ds
    → Trim (multiply_loop b carry ds)
unfolding multiply_loop Trim
multiply_loop-Trim b carry [] h l c k t p = absurd (omega (arith, p))
multiply_loop-Trim b carry (d ∷ []) h l c k t p =
    let fits = product_fits carry d b c k.0 l in
    let product =
      mul-le-mul {n₁ = 1} {m₁ = 1} {n₂ = d} {m₂ = b} (omega (arith, t)) (omega (arith, h)) in
    if_elim (λ r. Trim (u8 (u16 (carry + d * b)) ∷ r)) (u16 (carry + d * b) / 256 == 0) _ _
      (λ e. omega (arith, product, fits, ==-true (u16 (carry + d * b) / 256) 0 e))
      (λ e. omega (arith, fits, ==-false (u16 (carry + d * b) / 256) 0 e))
multiply_loop-Trim b carry (d ∷ e ∷ es) h l c k t p =
    multiply_loop-Trim b (u16 (carry + d * b) / 2 ^ 8) (e ∷ es) h l (omega arith) k.1 t
      (Trim-positive e es t)

propagate-Trim : (xs : List ℕ) (o : ℕ) → Trim xs → Trim (propagate xs o)
unfolding propagate Trim
propagate-Trim [] o t = if_elim Trim (o == 0) _ _ (λ _. tt) (λ _. omega arith)
propagate-Trim (x ∷ []) o t =
    if_elim Trim (o == 0) _ _ (λ _. t)
      (λ _.
        if_elim (λ l. Trim (u8 (x + 1) ∷ l)) ((if u8 (x + 1) == 0 then 1 else 0) == 0) _ _
          (λ e. ground (arith, e)) (λ _. omega arith))
propagate-Trim (x ∷ y ∷ ys) o t =
    if_elim Trim (o == 0) _ _ (λ _. t)
      (λ _.
        if_elim (λ l. Trim (u8 (x + 1) ∷ l)) ((if u8 (x + 1) == 0 then 1 else 0) == 0) _ _ (λ _. t)
          (λ _. propagate-Trim (y ∷ ys) 1 t))

last-Positive : (q0 q1 : ℕ) → (q1 ≡ 0 → 0 < q0) → Positive (drop_last_zero (q0 ∷ q1 ∷ []))
unfolding drop_last_zero Trim Positive
last-Positive q0 q1 h =
    let P : List ℕ → Type 0 = λ l. Trim (q0 ∷ l) × (0 < le_value (q0 ∷ l)) in
    if_elim P (q1 == 0) _ _ (λ e. (h (==-true q1 0 e), omega (arith, h (==-true q1 0 e))))
      (λ e. (omega (arith, ==-false q1 0 e), omega (arith, ==-false q1 0 e)))

divide_loop-Positive :
    (d e : ℕ) (es : List ℕ)
    → All IsByte (d ∷ e ∷ es)
    → Trim (e ∷ es)
    → Positive (drop_last_zero (divide_loop (d ∷ e ∷ es)).0)
unfolding divide_loop drop_last_zero Trim
divide_loop-Positive d e [] h t =
    let low = divide_loop-le_value (d ∷ e ∷ []) h in
    let top = divide_loop-le_value (e ∷ []) h.1 in
    last-Positive _ _ (λ z. omega (arith, z, Trim-positive e [] t, low.0, low.1, top.0, top.1))
divide_loop-Positive d e (f ∷ fs) h t = Positive-cons _ _ (divide_loop-Positive e f fs h.1 t)

single-Trim : (d : ℕ) → All IsByte (d ∷ []) → 58 ≤ d → Trim (divide_by58 (d ∷ []))
unfolding divide_by58 is_zero drop_last_zero divide_loop Trim
single-Trim d h p =
    if_elim Trim (d == 0) _ _ (λ e. absurd (omega (arith, p, ==-true d 0 e)))
      (λ _. push-Trim (u8 (bit_or 0 d / 58)) [] tt)

-- The quotient of a number of 58 or more has no zero on top.
pub divide_by58-Positive :
    (a : List ℕ) → All IsByte a → Trim a → 58 ≤ le_value a → Positive (divide_by58 a)
unfolding divide_by58 is_zero Positive Trim
divide_by58-Positive [] h t p = absurd (omega (arith, p))
divide_by58-Positive (d ∷ []) h t p =
    let value = divide_by58-modulo_with58 (d ∷ []) h in
    (single-Trim d h (omega (arith, p)), omega (arith, value.0, value.1, p))
divide_by58-Positive (d ∷ e ∷ es) h t p = divide_loop-Positive d e es h (Trim-tail d (e ∷ es) t)

pub multiply-Trim :
    (a : List ℕ) (b : ℕ) → 0 < b → b < 256 → All IsByte a → Positive a → Trim (multiply a b)
unfolding multiply Positive
multiply-Trim a b h l k t =
    if_elim Trim (b == 0) _ _ (λ e. absurd (omega (arith, h, ==-true b 0 e)))
      (λ _.
        if_elim Trim (is_zero a) _ _ (λ _. t.0)
          (λ _. multiply_loop-Trim b 0 a h l (omega arith) k t.0 t.1))

add_loop-Trim :
    (xs ys : List ℕ) (o : ℕ)
    → o < 2
    → All IsByte xs
    → All IsByte ys
    → Trim xs
    → Trim ys
    → Trim (add_loop xs ys o)
unfolding add_loop
add_loop-Trim xs [] o b h k t u = propagate-Trim xs o t
add_loop-Trim [] (y ∷ ys) o b h k t u =
    low-Trim _ _
      (add_loop-Trim [] ys (if ltb (u8 (0 + (y + o))) (y + o) then 1 else 0) (ground arith) h k.1 t
        (Trim-tail y ys u))
      (omega (arith, le_value-add_loop [] (y ∷ ys) o b h k, Trim-positive y ys u))
add_loop-Trim (x ∷ xs) (y ∷ ys) o b h k t u =
    low-Trim _ _
      (add_loop-Trim xs ys (if ltb (u8 (x + (y + o))) (y + o) then 1 else 0) (ground arith) h.1 k.1
        (Trim-tail x xs t) (Trim-tail y ys u))
      (omega (arith, le_value-add_loop (x ∷ xs) (y ∷ ys) o b h k, Trim-positive y ys u))

pub add-Trim : (a b : List ℕ) → All IsByte a → All IsByte b → Trim a → Trim b → Trim (add a b)
unfolding add
add-Trim a b h k t u = add_loop-Trim a b 0 (omega arith) h k t u

divide_loop-All : (a : List ℕ) → All IsByte (divide_loop a).0
unfolding divide_loop
divide_loop-All [] = tt
divide_loop-All (d ∷ ds) = (omega arith, divide_loop-All ds)

drop_last_zero-All : (a : List ℕ) → All IsByte a → All IsByte (drop_last_zero a)
unfolding drop_last_zero
drop_last_zero-All [] h = tt
drop_last_zero-All (d ∷ []) h = if_elim (All IsByte) (d == 0) _ _ (λ _. tt) (λ _. h)
drop_last_zero-All (d ∷ e ∷ es) h = (h.0, drop_last_zero-All (e ∷ es) h.1)

pub divide_by58-All : (a : List ℕ) → All IsByte a → All IsByte (divide_by58 a)
unfolding divide_by58
divide_by58-All a h =
    if_elim (All IsByte) (is_zero a) _ _ (λ _. h)
      (λ _. drop_last_zero-All (divide_loop a).0 (divide_loop-All a))
