-- ===== src/Unzip/Fuel.antt =====
-- The loop over blocks of BitcoinAnalysis/unzipBlocks.h ends.
use bitcoin_analysis.Common.{
  ℕ, zero, suc, ◌+◌, ◌-◌, ◌<◌, ◌≤◌, ◌^◌, ◌≡◌, ◌≢◌, refl, List, [], Bool, true, false, Option, none,
  some, ltb, length, take, drop, arith, ltb-true, and-==, length-take, length-drop, if_elim,
}
use bitcoin_analysis.Database.{Database}
use bitcoin_analysis.Ledger.{KeyValue}
use bitcoin_analysis.Unzip.{
  Head, head_of, block_at, body_size, body_at, next_pos, is_good, Run, out_of_fuel, Step, ends,
  goes, step_of, block_step, block_loop,
}

pub block_size-bounded : (start : List ℕ) → (head_of start).block_size < 2 ^ 32
unfolding head_of
block_size-bounded start = omega arith

length-body_at :
    (file : List ℕ) (p : ℕ) (head : Head) → length (body_at file p head) ≤ length file - (p + 88)
unfolding body_at
length-body_at file p head =
    if_elim (λ l. length l ≤ length file - (p + 88)) (ltb (p + 88) (2 ^ 31))
      (take (body_size head) (drop (p + 88) file)) []
      (λ e.
        omega (arith, length-take (body_size head) (drop (p + 88) file), length-drop (p + 88) file))
      (λ e. omega arith)

-- The position moves on, where the file is one that an `int` can address.
next_pos-moves :
    (file : List ℕ) (p : ℕ) (head : Head)
    → head.block_size < 2 ^ 32
    → length file < 2 ^ 31
    → p < length file
    → is_good file p head ≡ true
    → p < next_pos p head
unfolding is_good next_pos body_size
next_pos-moves file p head size small h good =
    let whole =
      and-== (length (body_at file p head)) (body_size head) (ltb (next_pos p head) (2 ^ 31))
        good in
    omega (arith, size, small, h, whole, length-body_at file p head)

module _ (garbage : List ℕ) (kv : KeyValue) (db : Database) where
  -- A step that ends, ends with a result; one that goes on has a byte to read, and moves.
  Progressing : ℕ → ℕ → Step garbage kv db → Type 0
  Progressing size block_pos (ends o) = o ≢ out_of_fuel
  Progressing size block_pos (goes q next) = (block_pos < size) × (block_pos < q)

  step_of-Progressing :
      (size p q : ℕ) (behind : Bool) (result : Option (Run garbage kv db)) (r : Run garbage kv db)
      (has good : Bool)
      → (has ≡ true → p < size)
      → (p < size → good ≡ true → p < q)
      → Progressing size p (step_of garbage kv db has behind result good q p r)
  unfolding step_of Progressing
  step_of-Progressing size p q behind result r false good h k = λ e. ground (arith, e)
  step_of-Progressing size p q true result r true good h k = λ e. ground (arith, e)
  step_of-Progressing size p q false none r true good h k = λ e. ground (arith, e)
  step_of-Progressing size p q false (some s) r true true h k = (h refl, k (h refl) refl)
  step_of-Progressing size p q false (some s) r true false h k = λ e. ground (arith, e)

  block_step-Progressing :
      (file : List ℕ) (stop p : ℕ) (r : Run garbage kv db)
      → length file < 2 ^ 31
      → Progressing (length file) p (block_step garbage kv db file stop p r)
  unfolding block_step
  block_step-Progressing file stop p r small =
      let head : Head = head_of (block_at file p) in
      step_of-Progressing (length file) p (next_pos p head) _ _ r (ltb p (length file))
        (is_good file p head) (λ e. ltb-true p (length file) e)
        (next_pos-moves file p head (block_size-bounded (block_at file p)) small)

  -- A step's result is one, if that of the rest is.
  after_step :
      (fuel : ℕ) (file : List ℕ) (stop block_pos : ℕ)
      → length file < block_pos + suc fuel
      → ((p : ℕ) (next : Run garbage kv db)
          → length file < p + fuel
          → 0 < fuel
          → block_loop garbage kv db fuel file stop p next ≢ out_of_fuel)
      → (s : Step garbage kv db) → Progressing (length file) block_pos s
      → elim s [ ends o ↦ o | goes q next ↦ block_loop garbage kv db fuel file stop q next ]
        ≢ out_of_fuel
  unfolding Progressing
  after_step fuel file stop block_pos h rest (ends o) p = p
  after_step fuel file stop block_pos h rest (goes q next) p =
      rest q next (omega (arith, p.0, p.1)) (omega (arith, p.0))

  -- The loop over the blocks of a file of less than 2^31 bytes comes to an end: one round more than
  -- the file has bytes behind the position is always enough, whatever the blocks hold.
  pub block_loop-enough :
      (fuel : ℕ) (file : List ℕ) (stop block_pos : ℕ) (r : Run garbage kv db)
      → length file < 2 ^ 31
      → length file < block_pos + fuel
      → 0 < fuel
      → block_loop garbage kv db fuel file stop block_pos r ≢ out_of_fuel
  unfolding block_loop
  block_loop-enough zero file stop block_pos r small h k = absurd (omega arith)
  block_loop-enough (suc fuel) file stop block_pos r small h k =
      after_step fuel file stop block_pos h
        (λ p next. block_loop-enough fuel file stop p next small)
        (block_step garbage kv db file stop block_pos r)
        (block_step-Progressing file stop block_pos r small)
