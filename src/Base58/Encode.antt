-- ===== src/Base58/Encode.antt =====
-- The digits of CBEncodeBase58 of BitcoinAnalysis/hash.h.
use bitcoin_analysis.Common.{
  ℕ, zero, suc, ◌+◌, ◌*◌, ◌^◌, ◌<◌, ◌≤◌, ◌≡◌, refl, ap, ◌∙◌, List, [], ◌∷◌, true, false, ◌==◌, ltb,
  All, IsByte, arith, Bool-cases, inl, inr, ==-true, if_elim, le→ltb, and_false, length, get_or,
  ◌⊎◌,
}
use native.Mathlib.Nat.{pow-suc}
use bitcoin_analysis.Block.Reader.{le_value}
use bitcoin_analysis.Base58.{normalise, divide_by58, modulo_with58, alpha_index, base58_characters}
use bitcoin_analysis.Base58.Arithmetic.{divide_by58-modulo_with58}
use bitcoin_analysis.Base58.Decode.{value58, alpha_index-characters, alpha_index-one}
use bitcoin_analysis.Base58.Encoder.{
  compare_bytes, compare_to58, is_at_least, subtract_byte_loop, subtract_byte, Encoding, text,
  prepend, character, encode_loop,
}
use bitcoin_analysis.Base58.Trim.{
  Trim, Positive, normalise-Trim, le_value-normalise, normalise-All, Trim-positive,
}
use bitcoin_analysis.Base58.Trim.Operations.{divide_by58-Positive, divide_by58-All}

-- What is taken away with its borrows is gone from the value.
le_value-subtract_byte_loop :
    (b : ℕ) (a : List ℕ)
    → b < 256
    → All IsByte a
    → b ≤ le_value a
    → le_value (subtract_byte_loop b a) + b ≡ le_value a
unfolding subtract_byte_loop
le_value-subtract_byte_loop b [] l h p = omega (arith, p)
le_value-subtract_byte_loop b (d ∷ ds) l h p =
    if_elim (λ r. le_value r + b ≡ le_value (d ∷ ds)) (ltb d b) _ _
      (λ e.
        let less : d < b = ground (arith, e) in
        let rest = le_value-subtract_byte_loop 1 ds (omega arith) h.1 (omega (arith, p, less, l)) in
        omega (arith, rest, less, l, h.0))
      (λ e. let more : b ≤ d = ground (arith, e) in omega (arith, more))

subtract_byte_loop-All : (b : ℕ) (a : List ℕ) → All IsByte a → All IsByte (subtract_byte_loop b a)
unfolding subtract_byte_loop
subtract_byte_loop-All b [] h = tt
subtract_byte_loop-All b (d ∷ ds) h =
    if_elim (All IsByte) (ltb d b) _ _ (λ _. (omega arith, subtract_byte_loop-All 1 ds h.1))
      (λ _. (omega (arith, h.0), h.1))

-- The number less its remainder, where it is at least 58.
less_remainder :
    (a : List ℕ)
    → All IsByte a
    → 58 ≤ le_value a
    → (le_value (divide_by58 (subtract_byte a (modulo_with58 a))) * 58 + modulo_with58 a
        ≡ le_value a)
      × Positive (divide_by58 (subtract_byte a (modulo_with58 a)))
      × All IsByte (divide_by58 (subtract_byte a (modulo_with58 a)))
unfolding subtract_byte
less_remainder a h p =
    let m = modulo_with58 a in
    let all = divide_by58-modulo_with58 a h in
    let taken = le_value-subtract_byte_loop m a (omega (arith, all.1)) h (omega (arith, all.0)) in
    let b = subtract_byte_loop m a in
    let bytes = normalise-All b (subtract_byte_loop-All m a h) in
    let rest = divide_by58-modulo_with58 (normalise b) bytes in
    (
      omega (arith, all.0, all.1, taken, rest.0, rest.1, le_value-normalise b),
      divide_by58-Positive (normalise b) bytes
          (normalise-Trim b (omega (arith, all.0, all.1, taken, p)))
          (omega (arith, all.0, all.1, taken, p, le_value-normalise b)),
      divide_by58-All (normalise b) bytes,
    )

-- The comparison with 58 compares the values.
compare_to58-more : (a : List ℕ) → 58 ≤ le_value a → is_at_least (compare_to58 a) ≡ true
unfolding compare_to58 compare_bytes is_at_least
compare_to58-more [] h = absurd (omega (arith, h))
compare_to58-more (d ∷ []) h = ground (arith, h)
compare_to58-more (d ∷ e ∷ es) h = ground (arith, h)

compare_to58-less : (d : ℕ) → d < 58 → is_at_least (compare_to58 (d ∷ [])) ≡ false
unfolding compare_to58 compare_bytes is_at_least
compare_to58-less d h = ground (arith, h)

-- The last digit, the highest one, is not the digit 0.
unfoldable pub Top : List ℕ → Type 0
Top [] = ⊥
Top (c ∷ []) = (c == 49) ≡ false
Top (c ∷ d ∷ ds) = Top (d ∷ ds)

Top-cons : (c : ℕ) (ds : List ℕ) → Top ds → Top (c ∷ ds)
unfolding Top
Top-cons c [] h = absurd h
Top-cons c (d ∷ ds) h = h

-- The digits of a number, the lowest first.
pub record Digits (e : Encoding) (value most : ℕ) : Type 0 where
  pub digits : List ℕ
  pub encoded : e ≡ text digits
  pub same_value : value58 digits ≡ value
  pub top : Top digits
  pub bytes : All IsByte digits
  pub short : length digits ≤ most

get_or-byte : (cs : List ℕ) (i : ℕ) → All IsByte cs → get_or cs i 0 < 256
get_or-byte [] i h = omega arith
get_or-byte (c ∷ cs) zero h = h.0
get_or-byte (c ∷ cs) (suc i) h = get_or-byte cs i h.1

character-byte : (i : ℕ) → character i < 256
character-byte i = get_or-byte base58_characters i (omega arith)

character-top : (i : ℕ) → 0 < i → i < 58 → (character i == 49) ≡ false
character-top i h k = elim (Bool-cases (character i == 49)) [
  | inl e ↦ absurd (
      omega (
        arith,
        h,
        alpha_index-characters i k,
        alpha_index-one,
        ap alpha_index {x = character i} {y = 49} (==-true (character i) 49 e),
      ))
  | inr e ↦ e
]

small-Digits :
    (max x fuel : ℕ) (a : List ℕ)
    → Positive a
    → le_value a < 58
    → Digits (encode_loop (suc fuel) max x a) (le_value a) (suc fuel)
unfolding encode_loop Top value58 Positive Trim
small-Digits max x fuel [] p h = absurd (omega (arith, p.1))
small-Digits max x fuel (d ∷ e ∷ es) p h = absurd (omega (arith, h, Trim-positive e es p.0))
small-Digits max x fuel (d ∷ []) p h = rw (compare_to58-less d (omega (arith, h))) record {
  digits = character d ∷ [];
  encoded = refl;
  same_value = omega (arith, alpha_index-characters d (omega (arith, h)));
  top = character-top d p.0 (omega (arith, h));
  bytes = (character-byte d, tt);
  short = omega arith;
}

prepend-Digits :
    (e : Encoding) (value m most : ℕ)
    → m < 58
    → Digits e value most
    → Digits (prepend (character m) e) (value * 58 + m) (suc most)
unfolding value58 prepend
prepend-Digits e value m most h d = record {
  digits = character m ∷ d.digits;
  encoded = ap (prepend (character m)) d.encoded;
  same_value = omega (arith, d.same_value, alpha_index-characters m h);
  top = Top-cons (character m) d.digits d.top;
  bytes = (character-byte m, d.bytes);
  short = omega (arith, d.short);
}

pub other-Digits :
    {e f : Encoding} {v w most : ℕ} → f ≡ e → v ≡ w → Digits e v most → Digits f w most
other-Digits p q d = record {
  digits = d.digits;
  encoded = p ∙ d.encoded;
  same_value = d.same_value ∙ q;
  top = d.top;
  bytes = d.bytes;
  short = d.short;
}

module _ (max x fuel : ℕ) (a : List ℕ) (m : x + 3 ≤ max) (h : All IsByte a)
    (big : 58 ≤ le_value a) where
  encode_loop-more :
      encode_loop (suc fuel) max x a
      ≡ prepend
          (character (modulo_with58 a))
          (encode_loop fuel max (suc x) (divide_by58 (subtract_byte a (modulo_with58 a))))
  unfolding encode_loop
  encode_loop-more =
      rw (compare_to58-more a big, le→ltb max (x + 3) m, and_false (ltb (length a) (x + 3))) refl

-- Where a number is at least 58 or has no zero on top, fuel enough for its digits gives them all,
-- and they stand for the number.
pub encode_loop-Digits :
    (max x fuel : ℕ) (a : List ℕ)
    → All IsByte a
    → Positive a ⊎ (58 ≤ le_value a)
    → le_value a < 58 ^ suc fuel
    → x + fuel + 3 ≤ max
    → Digits (encode_loop (suc fuel) max x a) (le_value a) (suc fuel)
encode_loop-Digits max x zero a h (inl p) l m = small-Digits max x 0 a p (omega (arith, l))
encode_loop-Digits max x zero a h (inr big) l m = absurd (omega (arith, l, big))
encode_loop-Digits max x (suc fuel) a h p l m =
    let rest = λ (big : 58 ≤ le_value a).
      let next = less_remainder a h big in
      let q = divide_by58 (subtract_byte a (modulo_with58 a)) in
      let below : le_value q < 58 ^ suc fuel = omega (arith, next.0, l, pow-suc 58 (suc fuel)) in
      other-Digits (encode_loop-more max x (suc fuel) a (omega (arith, m)) h big) next.0 (
        prepend-Digits _ (le_value q) (modulo_with58 a) (suc fuel) (divide_by58-modulo_with58 a h).1
          (encode_loop-Digits max (suc x) fuel q next.2 (inl next.1) below (omega (arith, m)))) in
    elim p [
      | inr big ↦ rest big
      | inl positive ↦ elim (Bool-cases (ltb (le_value a) 58)) [
        | inl less ↦ small-Digits max x (suc fuel) a positive (ground (arith, less))
        | inr more ↦ rest (ground (arith, more))
      ]
    ]
