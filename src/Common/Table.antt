-- ===== src/Common/Table.antt =====
-- Facts on one byte, checked for each of its values.
use Prim.Native.Nat.{ℕ, zero, suc, ◌<◌, bit_and}
use mathlib.Core.Path.{◌≡◌, refl}
use mathlib.Core.Bool.{Bool, true, ◌&&◌}
use native.Mathlib.Omega.{arith}
use bitcoin_analysis.Common.Tests.{◌==◌, ==_iff}

unfoldable pub all_below : ℕ → (ℕ → Bool) → Bool
all_below zero test = true
all_below (suc limit) test = test limit && all_below limit test

-- The entry of one number in such a table.
pub entry :
    (limit : ℕ) (test : ℕ → Bool) (i : ℕ) → i < limit → all_below limit test ≡ true → test i ≡ true
unfolding all_below
entry zero test i low table = absurd (omega arith)
entry (suc limit) test i low table = ground (arith, entry limit test i)

-- A mask keeps the numbers below `n`, if it keeps each of them.
below_mask :
    (n m : ℕ) → all_below n (λ x. bit_and x m == x) ≡ true → (x : ℕ) → x < n → bit_and x m ≡ x
below_mask n m t x h = (==_iff _ x).0 (entry n _ x h t)

module _ (x : ℕ) where
  pub bit_and_byte : x < 256 → bit_and x 255 ≡ x
  unfolding all_below
  bit_and_byte = below_mask 256 255 refl x

  pub bit_and_below_four : x < 4 → bit_and x 3 ≡ x
  unfolding all_below
  bit_and_below_four = below_mask 4 3 refl x

  pub bit_and_below_sixteen : x < 16 → bit_and x 15 ≡ x
  unfolding all_below
  bit_and_below_sixteen = below_mask 16 15 refl x

  pub bit_and_below_sixty_four : x < 64 → bit_and x 63 ≡ x
  unfolding all_below
  bit_and_below_sixty_four = below_mask 64 63 refl x
