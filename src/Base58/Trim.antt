-- ===== src/Base58/Trim.antt =====
-- Numbers of BLOCKCHAIN_BASE58 in BitcoinAnalysis/hash.h without a zero on top: each value has one,
-- and the operations keep them.
pub mod Operations
pub mod Decoded
use bitcoin_analysis.Common.{
  ℕ, ◌+◌, ◌*◌, ◌/◌, ◌^◌, ◌<◌, ◌≤◌, ◌≡◌, refl, ap₂, List, [], ◌∷◌, ◌==◌, ltb, if◌then◌else◌, All,
  IsByte, u8, u16, arith, ==-true, ==-false, if_elim, bit_or,
}
use bitcoin_analysis.Block.Reader.{le_value}
use bitcoin_analysis.Base58.Arithmetic.{
  divide_loop-le_value, divide_by58-modulo_with58, le_value-add_loop, product_fits,
}
use native.Mathlib.Nat.{mul-le-mul}
use bitcoin_analysis.Base58.{
  drop_zeros, normalise, multiply_loop, is_zero, multiply, propagate, add_loop, add, divide_loop,
  drop_last_zero, divide_by58,
}

unfoldable pub Trim : List ℕ → Type 0
Trim [] = Unit
Trim (d ∷ []) = 0 < d
Trim (d ∷ e ∷ es) = Trim (e ∷ es)

pub Trim-cons : (d : ℕ) (ds : List ℕ) → 0 < le_value ds → Trim ds → Trim (d ∷ ds)
unfolding Trim
Trim-cons d [] h k = absurd (omega (arith, h))
Trim-cons d (e ∷ es) h k = k

pub Trim-tail : (d : ℕ) (ds : List ℕ) → Trim (d ∷ ds) → Trim ds
unfolding Trim
Trim-tail d [] h = tt
Trim-tail d (e ∷ es) h = h

pub Trim-positive : (d : ℕ) (ds : List ℕ) → Trim (d ∷ ds) → 0 < le_value (d ∷ ds)
unfolding Trim
Trim-positive d [] h = omega (arith, h)
Trim-positive d (e ∷ es) h = omega (arith, Trim-positive e es h)

-- Two numbers without zeros on top that have the same value are the same.
pub Trim-unique :
    (a b : List ℕ) → All IsByte a → All IsByte b → Trim a → Trim b → le_value a ≡ le_value b → a ≡ b
Trim-unique [] [] h k p q e = refl
Trim-unique [] (y ∷ ys) h k p q e = absurd (omega (arith, e, Trim-positive y ys q))
Trim-unique (x ∷ xs) [] h k p q e = absurd (omega (arith, e, Trim-positive x xs p))
Trim-unique (x ∷ xs) (y ∷ ys) h k p q e =
    let high =
      Trim-unique xs ys h.1 k.1 (Trim-tail x xs p) (Trim-tail y ys q)
        (omega (arith, e, h.0, k.0)) in
    ap₂ (λ (d : ℕ) (ds : List ℕ). d ∷ ds) (omega (arith, e, h.0, k.0)) high

-- A byte below a number, without a zero on top.
abbrev push : ℕ → List ℕ → List ℕ
push d l = elim l [ [] ↦ if d == 0 then [] else d ∷ [] | e ∷ es ↦ d ∷ (e ∷ es) ]

pub push-Trim : (d : ℕ) (l : List ℕ) → Trim l → Trim (push d l)
unfolding Trim
push-Trim d [] h = if_elim Trim (d == 0) _ _ (λ _. tt) (λ e. omega (arith, ==-false d 0 e))
push-Trim d (e ∷ es) h = h

le_value-push : (d : ℕ) (l : List ℕ) → le_value (push d l) ≡ d + 256 * le_value l
le_value-push d [] = ground arith
le_value-push d (e ∷ es) = refl

push-All : (d : ℕ) (l : List ℕ) → d < 256 → All IsByte l → All IsByte (push d l)
push-All d [] b h = if_elim (All IsByte) (d == 0) _ _ (λ _. tt) (λ e. (b, tt))
push-All d (e ∷ es) b h = (b, h)

drop_zeros-Trim : (ds : List ℕ) → Trim (drop_zeros ds)
unfolding drop_zeros Trim
drop_zeros-Trim [] = tt
drop_zeros-Trim (d ∷ ds) = push-Trim d (drop_zeros ds) (drop_zeros-Trim ds)

le_value-drop_zeros : (ds : List ℕ) → le_value (drop_zeros ds) ≡ le_value ds
unfolding drop_zeros
le_value-drop_zeros [] = refl
le_value-drop_zeros (d ∷ ds) =
    omega (arith, le_value-push d (drop_zeros ds), le_value-drop_zeros ds)

drop_zeros-All : (ds : List ℕ) → All IsByte ds → All IsByte (drop_zeros ds)
unfolding drop_zeros
drop_zeros-All [] h = tt
drop_zeros-All (d ∷ ds) h = push-All d (drop_zeros ds) h.0 (drop_zeros-All ds h.1)

pub le_value-normalise : (a : List ℕ) → le_value (normalise a) ≡ le_value a
unfolding normalise
le_value-normalise [] = refl
le_value-normalise (d ∷ ds) = omega (arith, le_value-drop_zeros ds)

pub normalise-All : (a : List ℕ) → All IsByte a → All IsByte (normalise a)
unfolding normalise
normalise-All [] h = tt
normalise-All (d ∷ ds) h = (h.0, drop_zeros-All ds h.1)

pub low-Trim : (d : ℕ) (ds : List ℕ) → Trim ds → 0 < le_value (d ∷ ds) → Trim (d ∷ ds)
unfolding Trim
low-Trim d [] h p = omega (arith, p)
low-Trim d (e ∷ es) h p = h

-- The normal form of a number that is not 0 has no zero on top.
pub normalise-Trim : (a : List ℕ) → 0 < le_value a → Trim (normalise a)
unfolding normalise Trim
normalise-Trim [] h = tt
normalise-Trim (d ∷ ds) h =
    low-Trim d (drop_zeros ds) (drop_zeros-Trim ds) (omega (arith, h, le_value-drop_zeros ds))

-- A number that is not 0, without a zero on top.
unfoldable pub Positive : List ℕ → Type 0
Positive l = Trim l × (0 < le_value l)

pub Positive-cons : (d : ℕ) (l : List ℕ) → Positive l → Positive (d ∷ l)
unfolding Positive
Positive-cons d l h = (Trim-cons d l h.1 h.0, omega (arith, h.1))
