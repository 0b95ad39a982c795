-- ===== src/Common/Bits.antt =====
-- The bit operations at variables: both operands are cut at a common place, and fields that do
-- not overlap are a sum.
mod Step
pub mod Halves
use bitcoin_analysis.Common.Table.{
  bit_and_below_four, bit_and_below_sixteen, bit_and_below_sixty_four,
}
use Step.{bit_and_step, bit_or_step, bit_xor_step}
use Prim.Native.Nat.{ℕ, zero, suc, ◌+◌, ◌*◌, ◌/◌, ◌%◌, ◌^◌, ◌≤◌, ◌<◌, min, max, differ}
use Prim.Native.Nat.{bit_and, bit_or, bit_xor, bit_or-bitwise, bit_xor-bitwise}
use mathlib.Core.Path.{◌≡◌, refl, sym, ap, ◌∙◌}
use native.Mathlib.Nat.{pow-suc}
use native.Mathlib.Omega.{arith}

double_shift : (k x : ℕ) → x * 2 ^ suc k ≡ x * 2 ^ k + x * 2 ^ k
double_shift k x = omega (arith, ap (λ (p : ℕ). x * p) (pow-suc 2 k))

module _ (op f : ℕ → ℕ → ℕ) (zeros : op 0 0 ≡ 0)
    (op_step : (a b : ℕ) → op a b ≡ op (a / 2) (b / 2) * 2 + f (a % 2) (b % 2)) where
  op_fields :
      (k q r a c : ℕ)
      → a < 2 ^ k
      → c < 2 ^ k
      → op (q * 2 ^ k + a) (r * 2 ^ k + c) ≡ op q r * 2 ^ k + op a c
  op_fields zero q r a c ha hc = ground (arith, zeros)
  op_fields (suc k) q r a c ha hc = ground (
    arith,
    op_step (q * 2 ^ suc k + a) (r * 2 ^ suc k + c),
    op_step a c,
    double_shift k q,
    double_shift k r,
    double_shift k (op q r),
    op_fields k q r (a / 2) (c / 2) (omega arith) (omega arith),
  )

-- Each operation works on the parts above and below bit `k` apart.
pub bit_and_fields :
    (k q r a c : ℕ)
    → a < 2 ^ k
    → c < 2 ^ k
    → bit_and (q * 2 ^ k + a) (r * 2 ^ k + c) ≡ bit_and q r * 2 ^ k + bit_and a c
bit_and_fields = op_fields bit_and min refl bit_and_step

pub bit_or_fields :
    (k q r a c : ℕ)
    → a < 2 ^ k
    → c < 2 ^ k
    → bit_or (q * 2 ^ k + a) (r * 2 ^ k + c) ≡ bit_or q r * 2 ^ k + bit_or a c
bit_or_fields = op_fields bit_or max refl bit_or_step

pub bit_xor_fields :
    (k q r a c : ℕ)
    → a < 2 ^ k
    → c < 2 ^ k
    → bit_xor (q * 2 ^ k + a) (r * 2 ^ k + c) ≡ bit_xor q r * 2 ^ k + bit_xor a c
bit_xor_fields = op_fields bit_xor differ refl bit_xor_step

-- Zero on the right, by the digits of the left operand.
module _ (op f : ℕ → ℕ → ℕ) (g : ℕ → ℕ) (zeros : op 0 0 ≡ g 0)
    (op_step : (a b : ℕ) → op a b ≡ op (a / 2) (b / 2) * 2 + f (a % 2) (b % 2))
    (g_step : (a : ℕ) → g a ≡ g (a / 2) * 2 + f (a % 2) 0) where
  op-zero : (limit a : ℕ) → a ≤ limit → op a 0 ≡ g a
  op-zero limit zero low = zeros
  op-zero zero (suc a) low = absurd (omega arith)
  op-zero (suc limit) (suc a) low =
      op_step (suc a) 0
      ∙ ap (λ (t : ℕ). t * 2 + f (suc a % 2) 0) (op-zero limit (suc a / 2) (omega arith))
      ∙ sym (g_step (suc a))

differ-zero : (a : ℕ) → a < 2 → differ a 0 ≡ a
differ-zero zero h = refl
differ-zero (suc zero) h = refl
differ-zero (suc (suc a)) h = absurd (omega arith)

pub bit_or-zero : (a : ℕ) → bit_or a 0 ≡ a
bit_or-zero a = op-zero bit_or max (λ x. x) refl bit_or_step (λ x. omega arith) a a (omega arith)

pub bit_and-zero : (a : ℕ) → bit_and a 0 ≡ 0
bit_and-zero a = op-zero bit_and min (λ x. 0) refl bit_and_step (λ x. omega arith) a a (omega arith)

pub bit_xor-zero : (a : ℕ) → bit_xor a 0 ≡ a
bit_xor-zero a =
    op-zero bit_xor differ (λ x. x) refl bit_xor_step
      (λ x. omega (arith, differ-zero (x % 2) (omega arith))) a a (omega arith)

pub zero-bit_or : (b : ℕ) → bit_or 0 b ≡ b
zero-bit_or b = bit_or-bitwise 0 b

pub zero-bit_xor : (b : ℕ) → bit_xor 0 b ≡ b
zero-bit_xor b = bit_xor-bitwise 0 b

pub two_pow_pos : (k : ℕ) → 0 < 2 ^ k
two_pow_pos zero = omega arith
two_pow_pos (suc k) = omega (arith, pow-suc 2 k, two_pow_pos k)

-- Fields that do not overlap add up.
pub bit_or_disjoint : (k q a : ℕ) → a < 2 ^ k → bit_or (q * 2 ^ k) a ≡ q * 2 ^ k + a
bit_or_disjoint k q a h =
    ground (arith, bit_or_fields k q 0 0 a (two_pow_pos k) h, bit_or-zero q, zero-bit_or a)

pub bit_or_disjoint_low : (k q a : ℕ) → a < 2 ^ k → bit_or a (q * 2 ^ k) ≡ q * 2 ^ k + a
bit_or_disjoint_low k q a h =
    ground (arith, bit_or_fields k 0 q a 0 h (two_pow_pos k), bit_or-zero a, zero-bit_or q)

pub bit_xor_disjoint : (k q a : ℕ) → a < 2 ^ k → bit_xor a (q * 2 ^ k) ≡ q * 2 ^ k + a
bit_xor_disjoint k q a h =
    ground (arith, bit_xor_fields k 0 q a 0 h (two_pow_pos k), bit_xor-zero a, zero-bit_xor q)

-- The same, for operands that equal such fields.
pub bit_or_eq : (k q a x y : ℕ) → a < 2 ^ k → x ≡ q * 2 ^ k → y ≡ a → bit_or x y ≡ q * 2 ^ k + a
bit_or_eq k q a x y h ex ey = rw (ex, ey) (bit_or_disjoint k q a h)

pub bit_or_eq_low : (k q a x y : ℕ) → a < 2 ^ k → x ≡ a → y ≡ q * 2 ^ k → bit_or x y ≡ q * 2 ^ k + a
bit_or_eq_low k q a x y h ex ey = rw (ex, ey) (bit_or_disjoint_low k q a h)

pub bit_and_eq :
    (k q r a c x y : ℕ)
    → a < 2 ^ k
    → c < 2 ^ k
    → x ≡ q * 2 ^ k + a
    → y ≡ r * 2 ^ k + c
    → bit_and x y ≡ bit_and q r * 2 ^ k + bit_and a c
bit_and_eq k q r a c x y ha hc ex ey = rw (ex, ey) (bit_and_fields k q r a c ha hc)

pub bit_or_fields_eq :
    (k q r a c x y : ℕ)
    → a < 2 ^ k
    → c < 2 ^ k
    → x ≡ q * 2 ^ k + a
    → y ≡ r * 2 ^ k + c
    → bit_or x y ≡ bit_or q r * 2 ^ k + bit_or a c
bit_or_fields_eq k q r a c x y ha hc ex ey = rw (ex, ey) (bit_or_fields k q r a c ha hc)

pub bit_xor_fields_eq :
    (k q r a c x y : ℕ)
    → a < 2 ^ k
    → c < 2 ^ k
    → x ≡ q * 2 ^ k + a
    → y ≡ r * 2 ^ k + c
    → bit_xor x y ≡ bit_xor q r * 2 ^ k + bit_xor a c
bit_xor_fields_eq k q r a c x y ha hc ex ey = rw (ex, ey) (bit_xor_fields k q r a c ha hc)

-- Masks of 2, 4 and 6 ones.
pub bit_and_three : (x : ℕ) → bit_and x 3 ≡ x % 4
bit_and_three x = omega (
  arith,
  bit_and_eq 2 (x / 4) 0 (x % 4) 3 x 3 (omega arith) (omega arith) (omega arith) refl,
  bit_and-zero (x / 4),
  bit_and_below_four (x % 4) (omega arith),
)

pub bit_and_fifteen : (x : ℕ) → bit_and x 15 ≡ x % 16
bit_and_fifteen x = omega (
  arith,
  bit_and_eq 4 (x / 16) 0 (x % 16) 15 x 15 (omega arith) (omega arith) (omega arith) refl,
  bit_and-zero (x / 16),
  bit_and_below_sixteen (x % 16) (omega arith),
)

pub bit_and_sixty_three : (x : ℕ) → bit_and x 63 ≡ x % 64
bit_and_sixty_three x = omega (
  arith,
  bit_and_eq 6 (x / 64) 0 (x % 64) 63 x 63 (omega arith) (omega arith) (omega arith) refl,
  bit_and-zero (x / 64),
  bit_and_below_sixty_four (x % 64) (omega arith),
)
