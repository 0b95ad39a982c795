-- ===== src/Base58/Trim/Decoded.antt =====
-- CBDecodeBase58 of BitcoinAnalysis/hash.h puts no zero on top before it adds those of the ones.
use bitcoin_analysis.Common.{
  ℕ, zero, suc, ◌<◌, ◌≡◌, List, [], ◌∷◌, false, ◌==◌, All, IsByte, u8, arith, if_elim,
}
use native.Mathlib.Nat.{mul-le-mul}
use bitcoin_analysis.Block.Reader.{le_value}
use bitcoin_analysis.Base58.{multiply, from_pow, pow_loop, alpha_index, decode_step, decode_loop}
use bitcoin_analysis.Base58.Arithmetic.{le_value-multiply, multiply-All, add-All}
use bitcoin_analysis.Base58.Decode.{from_pow-value}
use bitcoin_analysis.Base58.Trim.{Trim, Positive}
use bitcoin_analysis.Base58.Trim.Operations.{multiply-Trim, add-Trim}

multiply-Positive :
    (a : List ℕ) (b : ℕ) → 0 < b → b < 256 → All IsByte a → Positive a → Positive (multiply a b)
unfolding Positive
multiply-Positive a b h l k p = (
  multiply-Trim a b h l k p,
  omega (
    arith,
    le_value-multiply a b l k,
    mul-le-mul {n₁ = 1} {m₁ = 1} {n₂ = le_value a} {m₂ = b} (omega (arith, p.1)) (omega (arith, h)),
  ),
)

pow_loop-Positive :
    (a n : ℕ) (bi : List ℕ)
    → 0 < a
    → a < 256
    → All IsByte bi
    → Positive bi
    → Positive (pow_loop a n bi)
unfolding pow_loop
pow_loop-Positive a zero bi h l k p = p
pow_loop-Positive a (suc n) bi h l k p =
    pow_loop-Positive a n (multiply bi a) h l (multiply-All bi a k) (multiply-Positive bi a h l k p)

pub Trim-nil : Trim []
unfolding Trim
Trim-nil = tt

pub Positive-Trim : (a : List ℕ) → Positive a → Trim a
unfolding Positive
Positive-Trim a h = h.0

Positive-value : (a : List ℕ) → Positive a → 0 < le_value a
unfolding Positive
Positive-value a h = h.1

one-Positive : Positive (1 ∷ [])
unfolding Positive Trim
one-Positive = (omega arith, omega arith)

from_pow-Positive : (n : ℕ) → Positive (from_pow 58 n)
unfolding from_pow
from_pow-Positive n =
    pow_loop-Positive 58 n (1 ∷ []) (omega arith) (omega arith) (omega arith, tt) one-Positive

alpha_index-positive : (c : ℕ) → c < 256 → (c == 49) ≡ false → 0 < alpha_index c
unfolding alpha_index
alpha_index-positive c h e = ground (arith, h, e)

alpha_index-small : (c : ℕ) → alpha_index c < 256
unfolding alpha_index
alpha_index-small c = ground arith

decode_step-Trim :
    (place c : ℕ) (bi : List ℕ)
    → c < 256
    → All IsByte bi
    → Trim bi
    → Trim (decode_step place c bi) × All IsByte (decode_step place c bi)
unfolding decode_step
decode_step-Trim place c bi h k t =
    let P : List ℕ → Type 0 = λ r. Trim r × All IsByte r in
    let power = (from_pow-value 58 (u8 place) (omega arith)).1 in
    let factor = multiply (from_pow 58 (u8 place)) (alpha_index c) in
    let bytes = multiply-All (from_pow 58 (u8 place)) (alpha_index c) power in
    if_elim P (c == 49) _ _ (λ e. (t, k))
      (λ e. (
        add-Trim bi factor k bytes t (
            multiply-Trim (from_pow 58 (u8 place)) (alpha_index c) (alpha_index-positive c h e)
              (alpha_index-small c) power (from_pow-Positive (u8 place))),
        add-All bi factor k,
      ))

pub decode_loop-Trim :
    (place : ℕ) (cs bi : List ℕ)
    → All IsByte cs
    → All IsByte bi
    → Trim bi
    → Trim (decode_loop place cs bi) × All IsByte (decode_loop place cs bi)
unfolding decode_loop
decode_loop-Trim place [] bi h k t = (t, k)
decode_loop-Trim place (c ∷ cs) bi h k t =
    let step = decode_step-Trim place c bi h.0 k t in
    decode_loop-Trim (suc place) cs (decode_step place c bi) h.1 step.1 step.0
