-- ===== src/Console/Months.antt =====
-- main of BitcoinAnalysis/console.cpp against the calendar.
use Prim.Native.String.{String}
use bitcoin_analysis.Common.{ℕ, zero, suc, ◌-◌, List, [], ◌∷◌, Option, none, some}
use bitcoin_analysis.Database.{Database}
use bitcoin_analysis.Ledger.{KeyValue}
use bitcoin_analysis.Period.{Parameters, set_parameter}
use bitcoin_analysis.Period.Calendar.{january_2009, year_of, month_of, days_in}
use bitcoin_analysis.Statistics.{Query}
use bitcoin_analysis.Statistics.Stream.{Answer, Stream}
use bitcoin_analysis.Statistics.Report.{statistical}
use bitcoin_analysis.Statistics.Lines.{fresh}
use bitcoin_analysis.Unzip.Files.{Parameter, unzip_blocks}
use bitcoin_analysis.Console.{para_loop}

-- The texts of the two dates of a month.
abbrev before_of : Option Parameters → String
before_of none = ""
before_of (some t) = t.before_time

abbrev after_of : Option Parameters → String
after_of none = ""
after_of (some t) = t.after_time

-- Months one after the other.
abbrev pub months_from : ℕ → ℕ → List ℕ
months_from zero m = []
months_from (suc n) m = m ∷ months_from n (suc m)

module _ (garbage : List ℕ) (kv : KeyValue) (db : Database) (files : String → Option (List ℕ))
    (mktime : ℕ → ℕ → ℕ → ℕ) {V : Type 0}
    (ask : db.State → String → String → Query → Answer V) where
  abbrev Result : Type 0
  Result = Option (Parameter garbage kv db × List (Stream V))

  -- The statistics in front of those of the months that follow.
  abbrev with_rest : Stream V → Result → Result
  with_rest s none = none
  with_rest s (some (p, ss)) = some (p, s ∷ ss)

  -- Month after month by the calendar: the blocks as far as the month's last day, and then the
  -- statistics of what is left, with the texts of two dates.
  unfoldable pub months_run : (ℕ → String) → (ℕ → String) → ℕ → ℕ → Parameter garbage kv db → Result
  months_run befores afters zero m p = some (p, [])
  months_run befores afters (suc n) m p =
      elim (unzip_blocks garbage kv db files
        (mktime (year_of m) (month_of m) (days_in (year_of m) (month_of m))) p) [
          | none ↦ none
          | some q ↦
              elim (statistical (ask q.run.ledger.world.state (befores m) (afters m)) fresh) [
                | none ↦ none
                | some s ↦ with_rest s (months_run befores afters n (suc m) q)
              ]
        ]

  -- The texts that the tables hold for a month.
  abbrev befores : ℕ → String
  befores m = before_of (set_parameter (m - january_2009))

  abbrev afters : ℕ → String
  afters m = after_of (set_parameter (m - january_2009))

  abbrev run : ℕ → ℕ → Parameter garbage kv db → Result
  run = months_run befores afters

  abbrev loop : ℕ → ℕ → Parameter garbage kv db → Result
  loop = para_loop garbage kv db files mktime ask

  abbrev after_statistics : ℕ → ℕ → Parameter garbage kv db → Option (Stream V) → Result
  after_statistics n m q o = elim o [ none ↦ none | some s ↦ with_rest s (run n (suc m) q) ]

  abbrev after_blocks : ℕ → ℕ → Option (Parameter garbage kv db) → Result
  after_blocks n m o = elim o [
    | none ↦ none
    | some q ↦
        after_statistics n m q
          (statistical (ask q.run.ledger.world.state (befores m) (afters m)) fresh)
  ]
