-- ===== src/Common/Bits/Step.antt =====
-- The law of each bit operation for the lowest digit. The native operations are a recursion on the
-- digits that counts down from the first operand; here one digit is split off any two numbers.
use Prim.Native.Nat.{ℕ, zero, suc, ◌+◌, ◌-◌, ◌*◌, ◌/◌, ◌%◌, ◌≤◌, min, max, differ, digits, bitwise}
use Prim.Native.Nat.{bit_and, bit_or, bit_xor, bit_and-bitwise, bit_or-bitwise, bit_xor-bitwise}
use mathlib.Core.Path.{◌≡◌, refl, sym, ap, ◌∙◌}
use native.Mathlib.Omega.{arith}

module _ (rest : ℕ → ℕ) (digit : ℕ → ℕ → ℕ)
    (rest_digit : (b : ℕ) → rest b ≡ rest (b / 2) * 2 + digit 0 (b % 2)) where
  -- A spare unit of the count changes nothing.
  spare_one :
      (count x y : ℕ) → x ≤ count → digits rest digit (suc count) x y ≡ digits rest digit count x y
  spare_one count zero y low = at_zero count
    where
      at_zero : (k : ℕ) → digits rest digit (suc k) zero y ≡ digits rest digit k zero y
      at_zero zero = refl
      at_zero (suc k) = refl
  spare_one zero (suc x) y low = absurd (omega arith)
  spare_one (suc count) (suc x) y low =
      ap (λ (t : ℕ). t * 2 + digit (suc x % 2) (y % 2))
        (spare_one count (suc x / 2) (y / 2) (omega arith))

  spare_many :
      (spare count total x y : ℕ)
      → spare + count ≡ total
      → x ≤ count
      → digits rest digit total x y ≡ digits rest digit count x y
  spare_many zero count total x y sum low =
      ap (λ (k : ℕ). digits rest digit k x y) {x = total} {y = count} (omega arith)
  spare_many (suc spare) count zero x y sum low = absurd (omega arith)
  spare_many (suc spare) count (suc total) x y sum low =
      spare_one total x y (omega arith) ∙ spare_many spare count total x y (omega arith) low

  split_digit :
      (x y : ℕ)
      → bitwise rest digit x y ≡ bitwise rest digit (x / 2) (y / 2) * 2 + digit (x % 2) (y % 2)
  split_digit zero y = rest_digit y
  split_digit (suc x) y =
      ap (λ (t : ℕ). t * 2 + digit (suc x % 2) (y % 2))
        (spare_many (x - suc x / 2) (suc x / 2) x (suc x / 2) (y / 2) (omega arith) (omega arith))

pub bit_and_step : (x y : ℕ) → bit_and x y ≡ bit_and (x / 2) (y / 2) * 2 + min (x % 2) (y % 2)
bit_and_step x y =
    bit_and-bitwise x y
    ∙ split_digit (λ b. 0) min (λ b. omega arith) x y
    ∙ ap (λ (t : ℕ). t * 2 + min (x % 2) (y % 2)) (sym (bit_and-bitwise (x / 2) (y / 2)))

pub bit_or_step : (x y : ℕ) → bit_or x y ≡ bit_or (x / 2) (y / 2) * 2 + max (x % 2) (y % 2)
bit_or_step x y =
    bit_or-bitwise x y
    ∙ split_digit (λ b. b) max (λ b. omega arith) x y
    ∙ ap (λ (t : ℕ). t * 2 + max (x % 2) (y % 2)) (sym (bit_or-bitwise (x / 2) (y / 2)))

pub bit_xor_step : (x y : ℕ) → bit_xor x y ≡ bit_xor (x / 2) (y / 2) * 2 + differ (x % 2) (y % 2)
bit_xor_step x y =
    bit_xor-bitwise x y
    ∙ split_digit (λ b. b) differ (λ b. omega arith) x y
    ∙ ap (λ (t : ℕ). t * 2 + differ (x % 2) (y % 2)) (sym (bit_xor-bitwise (x / 2) (y / 2)))
