-- ===== src/Common/Integers.antt =====
-- Signed counters of BitcoinAnalysis, and what they are as a `unit32`.
use bitcoin_analysis.Common.{ℕ, zero, suc, ◌-◌, ◌%◌, ◌^◌, ◌≡◌, refl, u32}

pub data ℤ : Type 0 where
  pos negsuc : ℕ → ℤ

unfoldable pub succ : ℤ → ℤ
succ (pos n) = pos (suc n)
succ (negsuc zero) = pos 0
succ (negsuc (suc n)) = negsuc n

unfoldable pub pred : ℤ → ℤ
pred (pos zero) = negsuc 0
pred (pos (suc n)) = pos n
pred (negsuc n) = negsuc (suc n)

pub pred-succ : (z : ℤ) → pred (succ z) ≡ z
unfolding pred succ
pred-succ (pos n) = refl
pred-succ (negsuc zero) = refl
pred-succ (negsuc (suc n)) = refl

-- The conversion to 32 bits.
unfoldable pub word : ℤ → ℕ
word (pos n) = u32 n
word (negsuc n) = u32 (2 ^ 32 - 1 - n % 2 ^ 32)
