-- ===== src/Unzip/Resume.antt =====
-- A run of BitcoinAnalysis/unzipBlocks.h that stops at a time, and the next run from the values it
-- saved.
use bitcoin_analysis.Common.{
  ℕ, zero, suc, ◌+◌, ◌≤◌, ◌≡◌, ◌≢◌, refl, sym, ap, ap₂, ◌∙◌, List, Bool, true, false, Option, none,
  some, ltb, arith, le→ltb, ltb-false,
}
use bitcoin_analysis.Common.Integers.{ℤ, pred-succ}
use bitcoin_analysis.Database.{Database}
use bitcoin_analysis.Ledger.{KeyValue}
use bitcoin_analysis.Unzip.{
  Run, Outcome, out_of_fuel, stopped, Step, ends, goes, counted, step_of, head_of, block_at,
  block_step, block_loop, saved, next_pos,
}

module _ (garbage : List ℕ) (kv : KeyValue) (db : Database) where
  -- The position and the state of a stop.
  stop_pos : Step garbage kv db → ℕ
  stop_pos (ends (stopped p r)) = p
  stop_pos _ = 0

  stop_run : Run garbage kv db → Step garbage kv db → Run garbage kv db
  stop_run d (ends (stopped p r)) = r
  stop_run d _ = d

  module _ (next_pos block_pos : ℕ) (r : Run garbage kv db) where
    step_of-later :
        (has behind later good : Bool) (result : Option (Run garbage kv db)) (p : ℕ)
        (next : Run garbage kv db)
        → (behind ≡ false → later ≡ false)
        → step_of garbage kv db has behind result good next_pos block_pos r ≡ goes p next
        → step_of garbage kv db has later result good next_pos block_pos r ≡ goes p next
    unfolding step_of
    step_of-later false behind later good result p next h k = absurd (ground (arith, k))
    step_of-later true true later good result p next h k = absurd (ground (arith, k))
    step_of-later true false later good none p next h k = absurd (ground (arith, k))
    step_of-later true false later true (some s) p next h k = rw (h refl) k
    step_of-later true false later false (some s) p next h k = absurd (ground (arith, k))

    step_of-stopped :
        (has behind good : Bool) (result : Option (Run garbage kv db)) (p : ℕ)
        (next : Run garbage kv db)
        → step_of garbage kv db has behind result good next_pos block_pos r ≡ ends (stopped p next)
        → (p ≡ block_pos) × (next ≡ counted garbage kv db r)
    unfolding step_of stop_pos stop_run
    step_of-stopped false behind good result p next k = absurd (ground (arith, k))
    step_of-stopped true true good result p next k =
        (sym (ap stop_pos k), sym (ap (stop_run next) k))
    step_of-stopped true false good none p next k = absurd (ground (arith, k))
    step_of-stopped true false true (some s) p next k = absurd (ground (arith, k))
    step_of-stopped true false false (some s) p next k = absurd (ground (arith, k))

  saved-counted : (r : Run garbage kv db) → saved garbage kv db (counted garbage kv db r) ≡ r
  unfolding saved
  saved-counted r =
      ap (λ (n : ℤ). record { block_num = n; txcounter = r.txcounter; ledger = r.ledger })
        (pred-succ r.block_num)

  -- One round of the loop.
  pub block_loop-ends :
      (fuel : ℕ) (file : List ℕ) (stop p : ℕ) (r : Run garbage kv db) (o : Outcome garbage kv db)
      → block_step garbage kv db file stop p r ≡ ends o
      → block_loop garbage kv db (suc fuel) file stop p r ≡ o
  unfolding block_loop
  block_loop-ends fuel file stop p r o h = rw (block_loop, h) refl

  pub block_loop-goes :
      (fuel : ℕ) (file : List ℕ) (stop p q : ℕ) (r next : Run garbage kv db)
      → block_step garbage kv db file stop p r ≡ goes q next
      → block_loop garbage kv db (suc fuel) file stop p r
        ≡ block_loop garbage kv db fuel file stop q next
  unfolding block_loop
  block_loop-goes fuel file stop p q r next h = rw (block_loop, h) refl

  -- A round that goes on does so with a later stop time; one that stops leaves the state.
  pub block_step-later :
      (file : List ℕ) (stop later p q : ℕ) (r next : Run garbage kv db)
      → stop ≤ later
      → block_step garbage kv db file stop p r ≡ goes q next
      → block_step garbage kv db file later p r ≡ goes q next
  unfolding block_step
  block_step-later file stop later p q r next h k =
      step_of-later (next_pos p (head_of (block_at file p))) p r _
        (ltb stop (head_of (block_at file p)).time_stamp)
        (ltb later (head_of (block_at file p)).time_stamp) _ _ q next
        (λ e. le→ltb _ _ (omega (arith, h, ltb-false stop _ e))) k

  block_step-stopped :
      (file : List ℕ) (stop p q : ℕ) (r next : Run garbage kv db)
      → block_step garbage kv db file stop p r ≡ ends (stopped q next)
      → (q ≡ p) × (next ≡ counted garbage kv db r)
  unfolding block_step
  block_step-stopped file stop p q r next k =
      step_of-stopped (next_pos p (head_of (block_at file p))) p r _ _ _ _ q next k

  module _ (file : List ℕ) (stop : ℕ) where
    abbrev loop : ℕ → ℕ → Run garbage kv db → Outcome garbage kv db
    loop fuel p r = block_loop garbage kv db fuel file stop p r

    more_case :
        (n fuel p : ℕ) (r : Run garbage kv db)
        → ((q : ℕ) (next : Run garbage kv db)
            → loop fuel q next ≢ out_of_fuel
            → loop (fuel + n) q next ≡ loop fuel q next)
        → loop (suc fuel) p r ≢ out_of_fuel
        → (s : Step garbage kv db) → block_step garbage kv db file stop p r ≡ s
        → loop (suc (fuel + n)) p r ≡ loop (suc fuel) p r
    more_case n fuel p r rest h (ends o) e =
        block_loop-ends (fuel + n) file stop p r o e ∙ sym (block_loop-ends fuel file stop p r o e)
    more_case n fuel p r rest h (goes q next) e =
        let one = block_loop-goes fuel file stop p q r next e in
        block_loop-goes (fuel + n) file stop p q r next e ∙ rest q next (λ z. h (one ∙ z)) ∙ sym one

    -- More fuel gives the same result.
    pub block_loop-more :
        (n fuel p : ℕ) (r : Run garbage kv db)
        → loop fuel p r ≢ out_of_fuel
        → loop (fuel + n) p r ≡ loop fuel p r
    unfolding block_loop
    block_loop-more n zero p r h = absurd (h refl)
    block_loop-more n (suc fuel) p r h =
        ap (λ (k : ℕ). loop k p r) {x = suc fuel + n} {y = suc (fuel + n)} (omega arith)
        ∙ more_case n fuel p r (λ q next. block_loop-more n fuel q next) h
            (block_step garbage kv db file stop p r) refl

  module _ (file : List ℕ) (stop later fuel2 q : ℕ) (r1 : Run garbage kv db) (order : stop ≤ later)
      (second : block_loop garbage kv db fuel2 file later q (saved garbage kv db r1)
        ≢ out_of_fuel) where
    abbrev last : Outcome garbage kv db
    last = block_loop garbage kv db fuel2 file later q (saved garbage kv db r1)

    resume_case :
        (fuel p : ℕ) (r : Run garbage kv db)
        → ((p1 : ℕ) (next : Run garbage kv db)
            → loop file stop fuel p1 next ≡ stopped q r1
            → loop file later (fuel + fuel2) p1 next ≡ last)
        → loop file stop (suc fuel) p r ≡ stopped q r1
        → (s : Step garbage kv db) → block_step garbage kv db file stop p r ≡ s
        → loop file later (suc (fuel + fuel2)) p r ≡ last
    resume_case fuel p r rest h (ends o) e =
        let at_stop =
          block_step-stopped file stop p q r r1
            (e ∙ ap ends (sym (block_loop-ends fuel file stop p r o e) ∙ h)) in
        let same : loop file later fuel2 p r ≡ last = sym (
          ap₂ (λ (k : ℕ) x. loop file later fuel2 k x) at_stop.0
            (ap (saved garbage kv db) at_stop.1 ∙ saved-counted r)) in
        ap (λ (k : ℕ). loop file later k p r) {x = suc (fuel + fuel2)} {y = fuel2 + suc fuel}
          (omega arith)
        ∙ block_loop-more file later (suc fuel) fuel2 p r (λ z. second (sym same ∙ z))
        ∙ same
    resume_case fuel p r rest h (goes p1 next) e =
        block_loop-goes (fuel + fuel2) file later p p1 r next
          (block_step-later file stop later p p1 r next order e)
        ∙ rest p1 next (sym (block_loop-goes fuel file stop p p1 r next e) ∙ h)

    -- A run over a file that stops at a time, and a second run with the same or a later stop time
    -- and with enough fuel, which starts from the position and the counters that the first one saved,
    -- end as one run with the later stop time does, with the fuel of both.
    pub block_loop-saved :
        (fuel p : ℕ) (r : Run garbage kv db)
        → block_loop garbage kv db fuel file stop p r ≡ stopped q r1
        → block_loop garbage kv db (fuel + fuel2) file later p r
          ≡ block_loop garbage kv db fuel2 file later q (saved garbage kv db r1)
    unfolding block_loop
    block_loop-saved zero p r h = absurd (ground (arith, h))
    block_loop-saved (suc fuel) p r h =
        ap (λ (k : ℕ). loop file later k p r) {x = suc fuel + fuel2} {y = suc (fuel + fuel2)}
          (omega arith)
        ∙ resume_case fuel p r (λ p1 next. block_loop-saved fuel p1 next) h
            (block_step garbage kv db file stop p r) refl
