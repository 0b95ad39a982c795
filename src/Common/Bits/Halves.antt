-- ===== src/Common/Bits/Halves.antt =====
-- The bit operations one digit at a time: the half and the last digit of a result. An equation
-- between bitwise terms is proved by these and a table of digits, by induction on the width.
use Prim.Native.Nat.{ℕ, zero, suc, ◌-◌, ◌/◌, ◌%◌, ◌^◌, ◌<◌, min, max, differ}
use Prim.Native.Nat.{bit_and, bit_or, bit_xor}
use mathlib.Core.Path.{◌≡◌}
use mathlib.Core.Bool.{Bool, true}
use native.Mathlib.Nat.{pow-suc}
use native.Mathlib.Omega.{arith}
use bitcoin_analysis.Common.Tests.{◌==◌, ==_iff}
use bitcoin_analysis.Common.Table.{all_below, entry}
use bitcoin_analysis.Common.Bits.Step.{bit_and_step, bit_or_step, bit_xor_step}

differ-lt : (a b : ℕ) → a < 2 → b < 2 → differ a b < 2
differ-lt zero b ha hb = hb
differ-lt (suc zero) zero ha hb = omega arith
differ-lt (suc zero) (suc zero) ha hb = omega arith
differ-lt (suc zero) (suc (suc b)) ha hb = absurd (omega arith)
differ-lt (suc (suc a)) b ha hb = absurd (omega arith)

pub bit_and-half : (a b : ℕ) → bit_and a b / 2 ≡ bit_and (a / 2) (b / 2)
bit_and-half a b = omega (arith, bit_and_step a b)

pub bit_and-last : (a b : ℕ) → bit_and a b % 2 ≡ min (a % 2) (b % 2)
bit_and-last a b = omega (arith, bit_and_step a b)

pub bit_or-half : (a b : ℕ) → bit_or a b / 2 ≡ bit_or (a / 2) (b / 2)
bit_or-half a b = omega (arith, bit_or_step a b)

pub bit_or-last : (a b : ℕ) → bit_or a b % 2 ≡ max (a % 2) (b % 2)
bit_or-last a b = omega (arith, bit_or_step a b)

pub bit_xor-half : (a b : ℕ) → bit_xor a b / 2 ≡ bit_xor (a / 2) (b / 2)
bit_xor-half a b =
    omega (arith, bit_xor_step a b, differ-lt (a % 2) (b % 2) (omega arith) (omega arith))

pub bit_xor-last : (a b : ℕ) → bit_xor a b % 2 ≡ differ (a % 2) (b % 2)
bit_xor-last a b =
    omega (arith, bit_xor_step a b, differ-lt (a % 2) (b % 2) (omega arith) (omega arith))

pub ruleset halves = (bit_and-half, bit_or-half, bit_xor-half)

pub ruleset lasts = (bit_and-last, bit_or-last, bit_xor-last)

pub eq_of_halves : (a b : ℕ) → a / 2 ≡ b / 2 → a % 2 ≡ b % 2 → a ≡ b
eq_of_halves a b h k = omega arith

-- The complement in `k + 1` digits.
pub complement-half : (k x : ℕ) → x < 2 ^ suc k → (2 ^ suc k - 1 - x) / 2 ≡ 2 ^ k - 1 - x / 2
complement-half k x h = omega (arith, pow-suc 2 k)

pub complement-last : (k x : ℕ) → x < 2 ^ suc k → (2 ^ suc k - 1 - x) % 2 ≡ 1 - x % 2
complement-last k x h = omega (arith, pow-suc 2 k)

-- An equation of three digits, by its table.
abbrev pub table3 : (ℕ → ℕ → ℕ → ℕ) → (ℕ → ℕ → ℕ → ℕ) → Bool
table3 f g = all_below 2 (λ a. all_below 2 (λ b. all_below 2 (λ c. f a b c == g a b c)))

pub by_table3 :
    (f g : ℕ → ℕ → ℕ → ℕ) (a b c : ℕ)
    → table3 f g ≡ true
    → a < 2
    → b < 2
    → c < 2
    → f a b c ≡ g a b c
by_table3 f g a b c t ha hb hc = (==_iff _ _).0 (entry 2 _ c hc (entry 2 _ b hb (entry 2 _ a ha t)))
