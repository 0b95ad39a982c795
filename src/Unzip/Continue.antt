-- ===== src/Unzip/Continue.antt =====
-- The loop of BitcoinAnalysis/unzipBlocks.h over the files comes to an end, and a run goes on where
-- one before it has stopped, also in a later file.
use Prim.Native.String.{String}
use bitcoin_analysis.Common.{
  ℕ, zero, suc, ◌+◌, ◌≤◌, ◌≡◌, ◌≢◌, refl, sym, ap, ◌∙◌, List, Bool, true, false, Option, none, some,
  length, arith, get_or, ltb-false, le→ltb, ◌<◌, ◌^◌,
}
use bitcoin_analysis.Database.{Database}
use bitcoin_analysis.Ledger.{KeyValue}
use bitcoin_analysis.Period.Names.{blkname}
use bitcoin_analysis.Unzip.{
  Run, Outcome, out_of_fuel, failed, end_of_file, stopped, Step, ends, goes, step_of, block_step,
  block_loop, saved,
}
use bitcoin_analysis.Unzip.Fuel.{block_loop-enough}
use bitcoin_analysis.Unzip.Resume.{
  block_loop-ends, block_loop-goes, block_step-later, block_loop-more, block_loop-saved,
}
use bitcoin_analysis.Unzip.Files.{over_file, Finish, unfinished, crashed, at_stop, file_loop}

-- A file that a position, an `int`, can address.
unfoldable pub IsSmall : Option (List ℕ) → Type 0
IsSmall none = Unit
IsSmall (some file) = length file < 2 ^ 31

module _ (garbage : List ℕ) (kv : KeyValue) (db : Database) where
  step_of-end :
      (has behind later good : Bool) (result : Option (Run garbage kv db)) (next_pos p q : ℕ)
      (r next : Run garbage kv db)
      → (behind ≡ false → later ≡ false)
      → step_of garbage kv db has behind result good next_pos p r ≡ ends (end_of_file q next)
      → step_of garbage kv db has later result good next_pos p r ≡ ends (end_of_file q next)
  unfolding step_of
  step_of-end false behind later good result n p q r next k h = h
  step_of-end true true later good result n p q r next k h = absurd (ground (arith, h))
  step_of-end true false later good none n p q r next k h = absurd (ground (arith, h))
  step_of-end true false later true (some s) n p q r next k h = absurd (ground (arith, h))
  step_of-end true false later false (some s) n p q r next k h = rw (k refl) h

  block_step-end :
      (file : List ℕ) (stop later p q : ℕ) (r next : Run garbage kv db)
      → stop ≤ later
      → block_step garbage kv db file stop p r ≡ ends (end_of_file q next)
      → block_step garbage kv db file later p r ≡ ends (end_of_file q next)
  unfolding block_step
  block_step-end file stop later p q r next order h =
      step_of-end _ _ _ _ _ _ p q r next
        (λ e. le→ltb _ _ (omega (arith, order, ltb-false stop _ e))) h

  module _ (file : List ℕ) (stop later : ℕ) (order : stop ≤ later) (q : ℕ)
      (last : Run garbage kv db) where
    end_case :
        (fuel p : ℕ) (r : Run garbage kv db)
        → ((p1 : ℕ) (next : Run garbage kv db)
            → block_loop garbage kv db fuel file stop p1 next ≡ end_of_file q last
            → block_loop garbage kv db fuel file later p1 next ≡ end_of_file q last)
        → block_loop garbage kv db (suc fuel) file stop p r ≡ end_of_file q last
        → (s : Step garbage kv db) → block_step garbage kv db file stop p r ≡ s
        → block_loop garbage kv db (suc fuel) file later p r ≡ end_of_file q last
    end_case fuel p r rest h (ends o) e =
        block_loop-ends garbage kv db fuel file later p r (end_of_file q last) (
          block_step-end file stop later p q r last order
            (e ∙ ap ends (sym (block_loop-ends garbage kv db fuel file stop p r o e) ∙ h)))
    end_case fuel p r rest h (goes p1 next) e =
        block_loop-goes garbage kv db fuel file later p p1 r next
          (block_step-later garbage kv db file stop later p p1 r next order e)
        ∙ rest p1 next (sym (block_loop-goes garbage kv db fuel file stop p p1 r next e) ∙ h)

    -- A file that is read to its end is read to its end with a later stop time.
    block_loop-end :
        (fuel p : ℕ) (r : Run garbage kv db)
        → block_loop garbage kv db fuel file stop p r ≡ end_of_file q last
        → block_loop garbage kv db fuel file later p r ≡ end_of_file q last
    unfolding block_loop
    block_loop-end zero p r h = absurd (ground (arith, h))
    block_loop-end (suc fuel) p r h =
        end_case fuel p r (λ p1 next. block_loop-end fuel p1 next) h
          (block_step garbage kv db file stop p r) refl

  over_file-enough :
      (o : Option (List ℕ)) (stop p : ℕ) (r : Run garbage kv db)
      → IsSmall o
      → over_file garbage kv db o stop p r ≢ out_of_fuel
  unfolding over_file IsSmall
  over_file-enough none stop p r small = λ e. ground (arith, e)
  over_file-enough (some file) stop p r small =
      block_loop-enough garbage kv db (suc (length file)) file stop p r small (omega arith)
        (omega arith)

  -- The file, the position and the state of a stop.
  stop_file : Finish garbage kv db → ℕ
  stop_file (at_stop n p r) = n
  stop_file _ = 0

  stop_pos : Finish garbage kv db → ℕ
  stop_pos (at_stop n p r) = p
  stop_pos _ = 0

  stop_run : Run garbage kv db → Finish garbage kv db → Run garbage kv db
  stop_run d (at_stop n p r) = r
  stop_run d _ = d

  module _ (files : String → Option (List ℕ)) (small : (path : String) → IsSmall (files path)) where
    abbrev over : ℕ → ℕ → ℕ → Run garbage kv db → Outcome garbage kv db
    over n stop p r = over_file garbage kv db (files (get_or blkname n "")) stop p r

    abbrev after_file : ℕ → ℕ → ℕ → Outcome garbage kv db → Finish garbage kv db
    after_file k stop n o = elim o [
      | out_of_fuel ↦ unfinished
      | failed ↦ crashed
      | end_of_file p next ↦ file_loop garbage kv db files k stop (suc n) 0 p next
      | stopped p next ↦ at_stop n p next
    ]

    finishes_case :
        (k stop n : ℕ)
        → ((p : ℕ) (next : Run garbage kv db)
            → file_loop garbage kv db files k stop (suc n) 0 p next ≢ unfinished)
        → (o : Outcome garbage kv db) → o ≢ out_of_fuel
        → after_file k stop n o ≢ unfinished
    finishes_case k stop n rest out_of_fuel h = λ e. h refl
    finishes_case k stop n rest failed h = λ e. ground (arith, e)
    finishes_case k stop n rest (end_of_file p next) h = rest p next
    finishes_case k stop n rest (stopped p next) h = λ e. ground (arith, e)

    -- The loop over the files, each of less than 2^31 bytes, comes to an end, whatever they hold.
    pub file_loop-finishes :
        (k stop n start p : ℕ) (r : Run garbage kv db)
        → file_loop garbage kv db files k stop n start p r ≢ unfinished
    unfolding file_loop
    file_loop-finishes zero stop n start p r = λ e. ground (arith, e)
    file_loop-finishes (suc k) stop n start p r =
        finishes_case k stop n (λ q next. file_loop-finishes k stop (suc n) 0 q next)
          (over n stop start r)
          (over_file-enough (files (get_or blkname n "")) stop start r
            (small (get_or blkname n "")))

    file_loop-after :
        (k stop n start p : ℕ) (r : Run garbage kv db) (o : Outcome garbage kv db)
        → over n stop start r ≡ o
        → file_loop garbage kv db files (suc k) stop n start p r ≡ after_file k stop n o
    unfolding file_loop
    file_loop-after k stop n start p r o e = ap (after_file k stop n) e

    module _ (stop later : ℕ) (order : stop ≤ later) where
      over_file-end :
          (o : Option (List ℕ)) (p q : ℕ) (r next : Run garbage kv db)
          → over_file garbage kv db o stop p r ≡ end_of_file q next
          → over_file garbage kv db o later p r ≡ end_of_file q next
      unfolding over_file
      over_file-end none p q r next h = h
      over_file-end (some file) p q r next h =
          block_loop-end file stop later order q next (suc (length file)) p r h

      over_file-saved :
          (o : Option (List ℕ)) (p q : ℕ) (r next : Run garbage kv db)
          → IsSmall o
          → over_file garbage kv db o stop p r ≡ stopped q next
          → over_file garbage kv db o later p r
            ≡ over_file garbage kv db o later q (saved garbage kv db next)
      unfolding over_file IsSmall
      over_file-saved none p q r next tiny h = absurd (ground (arith, h))
      over_file-saved (some file) p q r next tiny h =
          let fuel : ℕ = suc (length file) in
          sym (
            block_loop-more garbage kv db file later fuel fuel p r (
              block_loop-enough garbage kv db fuel file later p r tiny (omega arith) (omega arith)))
          ∙ block_loop-saved garbage kv db file stop later fuel q next order
              (block_loop-enough garbage kv db fuel file later q (saved garbage kv db next) tiny
                (omega arith) (omega arith))
              fuel p r h

      module _ (n1 p1 p2 : ℕ) (r1 : Run garbage kv db) where
        continue_case :
            (k n start p : ℕ) (r : Run garbage kv db)
            → ((q : ℕ) (next : Run garbage kv db)
                → file_loop garbage kv db files k stop (suc n) 0 q next ≡ at_stop n1 p1 r1
                → (m : ℕ) × (suc n + k ≡ n1 + m)
                  × (file_loop garbage kv db files k later (suc n) 0 q next
                      ≡ file_loop garbage kv db files m later n1 p1 p2 (saved garbage kv db r1)))
            → (o : Outcome garbage kv db) → over n stop start r ≡ o
            → after_file k stop n o ≡ at_stop n1 p1 r1
            → (m : ℕ) × (n + suc k ≡ n1 + m)
              × (file_loop garbage kv db files (suc k) later n start p r
                  ≡ file_loop garbage kv db files m later n1 p1 p2 (saved garbage kv db r1))
        unfolding stop_file stop_pos stop_run file_loop
        continue_case k n start p r rest out_of_fuel e h = absurd (ground (arith, h))
        continue_case k n start p r rest failed e h = absurd (ground (arith, h))
        continue_case k n start p r rest (end_of_file q next) e h =
            let (m, count, same) = rest q next h in
            (
              m,
              omega (arith, count),
              file_loop-after k later n start p r (end_of_file q next)
                    (over_file-end (files (get_or blkname n "")) start q r next e)
                  ∙ same,
            )
        continue_case k n start p r rest (stopped q next) e h =
            let from = λ (m : ℕ) (q : ℕ) (next : Run garbage kv db).
              file_loop garbage kv db files (suc k) later m q p2 (saved garbage kv db next) in
            (
              suc k,
              ap (λ (m : ℕ). m + suc k) {x = n} {y = n1} (ap stop_file h),
              file_loop-after k later n start p r (over n later q (saved garbage kv db next)) (
                    over_file-saved (files (get_or blkname n "")) start q r next
                      (small (get_or blkname n "")) e)
                  ∙ sym (
                      file_loop-after k later n q p2 (saved garbage kv db next)
                        (over n later q (saved garbage kv db next)) refl)
                  ∙ ap (λ (m : ℕ). from m q next) (ap stop_file h)
                  ∙ ap (λ (p : ℕ). from n1 p next) (ap stop_pos h)
                  ∙ ap (from n1 p1) (ap (stop_run next) h),
            )

        -- Where every file has less than 2^31 bytes, a run that stops at a block, in whichever file,
        -- and a second run over the files from that one on, with the same or a later stop time, from
        -- the position and the counters that the first one saved, end as one run with the later stop
        -- time does.
        pub file_loop-saved :
            (k n start p : ℕ) (r : Run garbage kv db)
            → file_loop garbage kv db files k stop n start p r ≡ at_stop n1 p1 r1
            → (m : ℕ) × (n + k ≡ n1 + m)
              × (file_loop garbage kv db files k later n start p r
                  ≡ file_loop garbage kv db files m later n1 p1 p2 (saved garbage kv db r1))
        unfolding file_loop
        file_loop-saved zero n start p r h = absurd (ground (arith, h))
        file_loop-saved (suc k) n start p r h =
            continue_case k n start p r (λ q next. file_loop-saved k (suc n) 0 q next)
              (over n stop start r) refl h
