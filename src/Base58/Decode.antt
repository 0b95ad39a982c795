-- ===== src/Base58/Decode.antt =====
-- CBDecodeBase58 of BitcoinAnalysis/hash.h: the number that a string of base 58 digits stands for.
use bitcoin_analysis.Common.{
  ℕ, zero, suc, ◌+◌, ◌*◌, ◌^◌, ◌<◌, ◌≤◌, ◌≡◌, refl, sym, ap, ap₂, ◌∙◌, List, [], ◌∷◌, ◌++◌, ◌==◌,
  All, IsByte, some, length-append, lt→ltb, length, replicate, reverse, get_or, u8, arith, if_elim,
  ==-true,
}
use native.Mathlib.Nat.{pow-suc, pow-zero, mul_assoc, mul_comm, mul-add, add_assoc}
use mathlib.Core.List.{reverse-cons}
use bitcoin_analysis.Block.Reader.{le_value}
use bitcoin_analysis.Base58.{
  multiply, pow_loop, from_pow, base58_characters, alpha_index, decode_step, decode_loop,
  leading_ones, returns, decode_base58,
}
use bitcoin_analysis.Base58.Arithmetic.{le_value-multiply, le_value-add, multiply-All, add-All}

pow_loop-value :
    (a n : ℕ) (bi : List ℕ)
    → a < 256
    → All IsByte bi
    → (le_value (pow_loop a n bi) ≡ le_value bi * a ^ n) × All IsByte (pow_loop a n bi)
unfolding pow_loop
pow_loop-value a zero bi h k = (grind (arith, pow-zero a), k)
pow_loop-value a (suc n) bi h k =
    let rest = pow_loop-value a n (multiply bi a) h (multiply-All bi a k) in
    (
      rest.0
          ∙ ap (λ (v : ℕ). v * a ^ n) (le_value-multiply bi a h k)
          ∙ mul_assoc (le_value bi) a (a ^ n)
          ∙ ap (λ (v : ℕ). le_value bi * v) (mul_comm a (a ^ n) ∙ sym (pow-suc a n)),
      rest.1,
    )

-- The power of a base, multiplied up.
pub from_pow-value :
    (a n : ℕ) → a < 256 → (le_value (from_pow a n) ≡ a ^ n) × All IsByte (from_pow a n)
unfolding from_pow
from_pow-value a n h =
    let r = pow_loop-value a n (1 ∷ []) h (omega arith, tt) in (omega (arith, r.0), r.1)

alpha_index-byte : (c : ℕ) → alpha_index c < 256
unfolding alpha_index
alpha_index-byte c = ground arith

-- The value of digits, the lowest first.
unfoldable pub value58 : List ℕ → ℕ
value58 [] = 0
value58 (c ∷ cs) = alpha_index c + 58 * value58 cs

pub alpha_index-one : alpha_index 49 ≡ 0
unfolding alpha_index
alpha_index-one = refl

module _ (place c : ℕ) (bi : List ℕ) (h : place < 256) (k : All IsByte bi) where
  decode_step-value :
      (le_value (decode_step place c bi) ≡ le_value bi + alpha_index c * 58 ^ place)
      × All IsByte (decode_step place c bi)
  unfolding decode_step
  decode_step-value =
      let power = from_pow-value 58 (u8 place) (omega arith) in
      let factor = multiply (from_pow 58 (u8 place)) (alpha_index c) in
      let same : 58 ^ u8 place ≡ 58 ^ place = ap (λ (n : ℕ). 58 ^ n) {x = u8 place} (omega arith) in
      let P : List ℕ → Type 0 =
        λ r. (le_value r ≡ le_value bi + alpha_index c * 58 ^ place) × All IsByte r in
      if_elim P (c == 49) _ _
        (λ e. (grind (arith, ap alpha_index (==-true c 49 e), alpha_index-one), k))
        (λ _. (
          grind (
            arith,
            same,
            power.0,
            le_value-add bi factor k
                (multiply-All (from_pow 58 (u8 place)) (alpha_index c) power.1),
            le_value-multiply (from_pow 58 (u8 place)) (alpha_index c) (alpha_index-byte c) power.1,
          ),
          add-All bi factor k,
        ))

value58-cons : (c : ℕ) (cs : List ℕ) → value58 (c ∷ cs) ≡ alpha_index c + 58 * value58 cs
unfolding value58
value58-cons c cs = refl

pub decode_loop-value :
    (place : ℕ) (cs bi : List ℕ)
    → place + length cs ≤ 256
    → All IsByte bi
    → le_value (decode_loop place cs bi) ≡ le_value bi + 58 ^ place * value58 cs
unfolding decode_loop value58
decode_loop-value place [] bi h k = grind arith
decode_loop-value place (c ∷ cs) bi h k =
    let step = decode_step-value place c bi (omega arith) k in
    let rest = decode_loop-value (suc place) cs (decode_step place c bi) (omega arith) step.1 in
    let p : ℕ = 58 ^ place in
    let v : ℕ = value58 cs in
    let next : 58 ^ suc place * v ≡ p * (58 * v) =
      ap (λ (q : ℕ). q * v) (pow-suc 58 place) ∙ mul_assoc p 58 v in
    let parts : p * value58 (c ∷ cs) ≡ p * alpha_index c + p * (58 * v) =
      ap (λ (d : ℕ). p * d) (value58-cons c cs) ∙ mul-add p (alpha_index c) (58 * v) in
    rest
    ∙ ap₂ (λ (m : ℕ) (n : ℕ). m + n)
        (step.0 ∙ ap (λ (m : ℕ). le_value bi + m) (mul_comm (alpha_index c) p)) next
    ∙ add_assoc (le_value bi) (p * alpha_index c) (p * (58 * v))
    ∙ ap (λ (m : ℕ). le_value bi + m) (sym parts)

pub le_value-zeros : (xs : List ℕ) (n : ℕ) → le_value (xs ++ replicate n 0) ≡ le_value xs
le_value-zeros [] zero = refl
le_value-zeros [] (suc n) = omega (arith, le_value-zeros [] n)
le_value-zeros (x ∷ xs) n = omega (arith, le_value-zeros xs n)

leading_ones-length : (str : List ℕ) → leading_ones str ≤ length str
unfolding leading_ones
leading_ones-length [] = omega arith
leading_ones-length (c ∷ cs) = ground (arith, leading_ones-length cs)

-- The number that is decoded, where the function returns.
pub decode_base58-some :
    (bi str : List ℕ)
    → 0 < length str
    → leading_ones str < 256
    → decode_base58 bi str
      ≡ some (decode_loop 0 (reverse str) bi ++ replicate (u8 (leading_ones str)) 0)
unfolding decode_base58 returns
decode_base58-some bi str h k = rw (lt→ltb 0 (length str) h, lt→ltb (leading_ones str) 256 k) refl

length-reverse : (xs : List ℕ) → length (reverse xs) ≡ length xs
length-reverse [] = refl
length-reverse (x ∷ xs) =
    ap length (reverse-cons x xs)
    ∙ omega (arith, length-append (reverse xs) (x ∷ []), length-reverse xs)

-- For a string that is not empty and has at most 128 characters, CBDecodeBase58 returns, and has
-- added to the number it was given, the 0 in the code, the value of the string in base 58, where
-- each character counts as the ranges of characters say and the last one is the lowest; the zeros
-- put on the end do not change it.
pub le_value-decode_base58 :
    (bi str : List ℕ)
    → 0 < length str
    → length str ≤ 128
    → All IsByte bi
    → (number : List ℕ) × (decode_base58 bi str ≡ some number)
      × (le_value number ≡ le_value bi + value58 (reverse str))
le_value-decode_base58 bi str nonempty short k = (
  decode_loop 0 (reverse str) bi ++ replicate (u8 (leading_ones str)) 0,
  decode_base58-some bi str nonempty (omega (arith, short, leading_ones-length str)),
  le_value-zeros (decode_loop 0 (reverse str) bi) _
      ∙ grind (
        arith,
        decode_loop-value 0 (reverse str) bi (omega (arith, short, length-reverse str)) k,
      ),
)

Indices : ℕ → List ℕ → Type 0
Indices i [] = Unit
Indices i (c ∷ cs) = (alpha_index c ≡ i) × Indices (suc i) cs

Indices-get :
    (i j : ℕ) (cs : List ℕ) → Indices i cs → j < length cs → alpha_index (get_or cs j 0) ≡ i + j
unfolding Indices
Indices-get i j [] h k = absurd (omega arith)
Indices-get i zero (c ∷ cs) h k = omega (arith, h.0)
Indices-get i (suc j) (c ∷ cs) h k = omega (arith, Indices-get (suc i) j cs h.1 (omega arith))

characters-Indices : Indices 0 base58_characters
unfolding Indices alpha_index
characters-Indices = omega arith

-- The ranges of characters give each of the 58 characters of the alphabet its place in it.
pub alpha_index-characters : (i : ℕ) → i < 58 → alpha_index (get_or base58_characters i 0) ≡ i
alpha_index-characters i h = omega (arith, Indices-get 0 i base58_characters characters-Indices h)
