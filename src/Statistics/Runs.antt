-- ===== src/Statistics/Runs.antt =====
-- Statistics at concrete answers and rows.
use bitcoin_analysis.Common.{ℕ, ◌≡◌, refl, List, [], ◌∷◌, ◌≢◌, All, ◌+◌, drop, map, some}
use mathlib.Core.Path.{subst}
use bitcoin_analysis.Statistics.{
  Query, Table, outvalue, txtime, count_all, select, at_least, between, with_time, within_window,
  txinfo,
}
use bitcoin_analysis.Statistics.Rows.{
  Row, Window, count_rows, count_of, selects, is_in_time, is_in_range, count_of-split,
}
use bitcoin_analysis.Statistics.Tables.{btc}
use bitcoin_analysis.Statistics.Tables.Windows.{tx_amount, tx_size}
use bitcoin_analysis.Statistics.Stream.{Answer, cell, null}
use bitcoin_analysis.Statistics.Report.{statistical}
use bitcoin_analysis.Statistics.Printed.{copies}
use bitcoin_analysis.Statistics.Partition.{
  sent_distributions, sent_distributions-total, total, Splits, tx_amount-gap,
}
use bitcoin_analysis.Statistics.Lines.{fresh, final, report_items, line_items}
use bitcoin_analysis.Statistics.Written.{statistical-final}

abbrev year : Window
year = record { before = 2000; after = 1000 }

abbrev row_of : ℕ → Row
row_of v = record { value = λ c. v; time = λ c. 1500 }

-- Three rows in each table, of which one is in the gap of the amounts.
abbrev three_rows : Table → List Row
three_rows t = row_of 7 ∷ row_of (btc 410) ∷ row_of (btc 700) ∷ []

abbrev counts : Query → ℕ
counts = count_of year three_rows

abbrev counts-Splits : Splits counts
counts-Splits = record { split = count_of-split year three_rows }

abbrev counted : Query → Answer ℕ
counted q = cell (counts q)

IsCell : Answer ℕ → Type 0
IsCell (cell v) = Unit
IsCell a = ⊥

counted-cell : (q : Query) → counted q ≢ null
unfolding IsCell
counted-cell q e = subst IsCell e tt

statistical-final_example :
    statistical counted fresh
    ≡ some (
        final
          (report_items counted)
          (copies 71 (line_items counted (with_time (within_window txtime)) tx_size)))
statistical-final_example = statistical-final counted counted-cell

tx_amount-gap_example :
    total counts (map (with_time (within_window txtime)) (drop 22 tx_amount))
      + counts
          (select count_all txinfo (within_window txtime) (between outvalue (btc 400) (btc 420)))
    ≡ counts (select count_all txinfo (within_window txtime) (at_least outvalue (btc 320)))
tx_amount-gap_example = tx_amount-gap counts counts-Splits

three_rows-gap :
    counts (select count_all txinfo (within_window txtime) (between outvalue (btc 400) (btc 420)))
    ≡ 1
unfolding count_of count_rows selects is_in_time is_in_range
three_rows-gap = refl

sent_distributions-total_example :
    All
      (λ d.
        total counts d.queries
        ≡ counts (select count_all d.table d.time (at_least d.column d.least)))
      sent_distributions
sent_distributions-total_example = sent_distributions-total counts counts-Splits
