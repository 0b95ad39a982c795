-- ===== src/Hash/Sha256/Logic.antt =====
-- Ch and Maj are written with fewer operations than in the standard; they are the same functions.
use Prim.Native.Nat.{differ}
use bitcoin_analysis.Common.{
  ℕ, zero, suc, ◌-◌, ◌/◌, ◌%◌, ◌^◌, ◌<◌, min, max, ◌≡◌, refl, arith, bit_and, bit_or, bit_xor,
  not32,
}
use bitcoin_analysis.Common.Table.{all_below}
use bitcoin_analysis.Common.Bits.Halves.{
  halves, lasts, eq_of_halves, complement-half, complement-last, by_table3,
}
use bitcoin_analysis.Hash.Sha256.{choose, majority}
use native.Mathlib.Nat.{pow-suc}

choose_digits :
    (k x y z : ℕ)
    → x < 2 ^ k
    → y < 2 ^ k
    → z < 2 ^ k
    → bit_xor z (bit_and x (bit_xor y z)) ≡ bit_xor (bit_and x y) (bit_and (2 ^ k - 1 - x) z)
choose_digits zero x y z hx hy hz =
    let ex : x ≡ 0 = omega arith in
    let ey : y ≡ 0 = omega arith in let ez : z ≡ 0 = omega arith in rw (ex, ey, ez)
choose_digits (suc k) x y z hx hy hz =
    eq_of_halves _ _
      (simp (
        halves,
        complement-half k x hx,
        choose_digits k (x / 2) (y / 2) (z / 2) (omega (arith, pow-suc 2 k))
            (omega (arith, pow-suc 2 k)) (omega (arith, pow-suc 2 k)),
      ))
      (simp (lasts, complement-last k x hx)
        (by_table3 (λ a b c. differ c (min a (differ b c)))
          (λ a b c. differ (min a b) (min (1 - a) c)) (x % 2) (y % 2) (z % 2)
          (unfold all_below in refl) (omega arith) (omega arith) (omega arith)))

majority_digits :
    (k x y z : ℕ)
    → x < 2 ^ k
    → y < 2 ^ k
    → z < 2 ^ k
    → bit_or (bit_and x (bit_or y z)) (bit_and y z)
      ≡ bit_xor (bit_xor (bit_and x y) (bit_and x z)) (bit_and y z)
majority_digits zero x y z hx hy hz =
    let ex : x ≡ 0 = omega arith in
    let ey : y ≡ 0 = omega arith in let ez : z ≡ 0 = omega arith in rw (ex, ey, ez)
majority_digits (suc k) x y z hx hy hz =
    eq_of_halves _ _
      (simp (
        halves,
        majority_digits k (x / 2) (y / 2) (z / 2) (omega (arith, pow-suc 2 k))
            (omega (arith, pow-suc 2 k)) (omega (arith, pow-suc 2 k)),
      ))
      (simp (lasts) (
        by_table3 (λ a b c. max (min a (max b c)) (min b c))
          (λ a b c. differ (differ (min a b) (min a c)) (min b c)) (x % 2) (y % 2) (z % 2)
          (unfold all_below in refl) (omega arith) (omega arith) (omega arith)))

-- Ch and Maj of 32-bit words are the standard's (x & y) ^ (~x & z) and (x & y) ^ (x & z) ^ (y & z).
pub choose-majority-standard :
    (x y z : ℕ)
    → x < 2 ^ 32
    → y < 2 ^ 32
    → z < 2 ^ 32
    → (choose x y z ≡ bit_xor (bit_and x y) (bit_and (not32 x) z))
      × (majority x y z ≡ bit_xor (bit_xor (bit_and x y) (bit_and x z)) (bit_and y z))
unfolding choose majority
choose-majority-standard x y z hx hy hz =
    (choose_digits 32 x y z hx hy hz, majority_digits 32 x y z hx hy hz)
