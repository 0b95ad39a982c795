-- ===== src/Console.antt =====
-- main of BitcoinAnalysis/console.cpp: for each of ten months the parameters are set, the blocks
-- are unpacked as far as the end of the month, and the statistics are written. What the database
-- answers to a statement depends on its state and on the texts of the two dates.
pub mod Months
mod Runs
use Prim.Native.String.{String}
use bitcoin_analysis.Common.{ℕ, zero, suc, List, [], ◌∷◌, Option, none, some}
use bitcoin_analysis.Database.{Database}
use bitcoin_analysis.Ledger.{KeyValue}
use bitcoin_analysis.Period.{Parameters, set_parameter}
use bitcoin_analysis.Statistics.{Query}
use bitcoin_analysis.Statistics.Stream.{Answer, Stream}
use bitcoin_analysis.Statistics.Report.{statistical}
use bitcoin_analysis.Statistics.Lines.{fresh}
use bitcoin_analysis.Unzip.Files.{Parameter, unzip_blocks}

module _ (garbage : List ℕ) (kv : KeyValue) (db : Database) (files : String → Option (List ℕ))
    (mktime : ℕ → ℕ → ℕ → ℕ) {V : Type 0}
    (ask : db.State → String → String → Query → Answer V) where
  -- The stop is the last second of the day that is set.
  abbrev pub stop_of : Parameters → ℕ
  stop_of t = mktime t.stopyear t.stopmon t.stopday

  abbrev pub asked : Parameters → Parameter garbage kv db → Query → Answer V
  asked t p = ask p.run.ledger.world.state t.before_time t.after_time

  abbrev pub with_statistics :
      Parameter garbage kv db → Option (Stream V) → Option (Parameter garbage kv db × Stream V)
  with_statistics p none = none
  with_statistics p (some s) = some (p, s)

  abbrev pub after_unzip :
      Parameters → Option (Parameter garbage kv db) → Option (Parameter garbage kv db × Stream V)
  after_unzip t none = none
  after_unzip t (some p) = with_statistics p (statistical (asked t p) fresh)

  abbrev pub with_parameters :
      Parameter garbage kv db → Option Parameters → Option (Parameter garbage kv db × Stream V)
  with_parameters p none = none
  with_parameters p (some t) = after_unzip t (unzip_blocks garbage kv db files (stop_of t) p)

  abbrev pub and_more :
      Stream V
      → Option (Parameter garbage kv db × List (Stream V))
      → Option (Parameter garbage kv db × List (Stream V))
  and_more s none = none
  and_more s (some (p, ss)) = some (p, s ∷ ss)

  abbrev pub next_month :
      Option (Parameter garbage kv db × Stream V)
      → (Parameter garbage kv db → Option (Parameter garbage kv db × List (Stream V)))
      → Option (Parameter garbage kv db × List (Stream V))
  next_month none rest = none
  next_month (some (p, s)) rest = and_more s (rest p)

  -- `n` months from `para` on: what is left for the next run, and the statistics of each month.
  unfoldable pub para_loop :
      ℕ → ℕ → Parameter garbage kv db → Option (Parameter garbage kv db × List (Stream V))
  para_loop zero para p = some (p, [])
  para_loop (suc n) para p =
      next_month (with_parameters p (set_parameter para)) (para_loop n (suc para))

  unfoldable pub main : Parameter garbage kv db → Option (Parameter garbage kv db × List (Stream V))
  main p = para_loop 10 20 p
