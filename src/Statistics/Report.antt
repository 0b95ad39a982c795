-- ===== src/Statistics/Report.antt =====
-- The function `statistical` of BitcoinAnalysis/Statistical.h in its parts, in the source's order.
use bitcoin_analysis.Common.{ℕ, List}
use bitcoin_analysis.Statistics.{
  Query, with_time, firsttm, lasttm, txtime, blktime, is_after_after, is_after_before,
  within_window,
}
use bitcoin_analysis.Statistics.Tables.Address.{address, new_add, unstop_add}
use bitcoin_analysis.Statistics.Tables.Entity.{entity, new_entity, unstop_entity}
use bitcoin_analysis.Statistics.Tables.Chain.{transaction, block}
use bitcoin_analysis.Statistics.Tables.Counts.{num_of_add_of_entity, txcnt_of_add, txcnt_of_entity}
use bitcoin_analysis.Statistics.Tables.Outputs.{outval_of_add, outval_of_entity, outval_of_tx}
use bitcoin_analysis.Statistics.Tables.Balances.{bal_of_add, bal_of_entity}
use bitcoin_analysis.Statistics.Tables.Peaks.{maxbal_of_add, maxbal_of_entity}
use bitcoin_analysis.Statistics.Tables.Windows.{tx_amount, tx_size}
use bitcoin_analysis.Statistics.Stream.{
  Answer, Action, Item, heading, amounts_heading, rule, run_time, line_end, report_file,
  tx_amount_2, tx_size_2, put, query_slot, query_loop, slot, repeat, open_file, close_file, ◌⨟◌,
}

-- A statement that is sent as it stands.
abbrev pub as_is : Query → Query
as_is q = q

module _ {V : Type 0} (ask : Query → Answer V) where
  -- The heading of a chapter, and that of one of the distributions.
  unfoldable pub chapter : ℕ → Action V
  chapter n = put rule ⨟ put (heading n 0) ⨟ put rule

  unfoldable pub title : Item V → Action V
  title x = put rule ⨟ put x

  -- A loop over `n` elements from an index on, and the end of its line.
  unfoldable pub line_of : (Query → Query) → List Query → ℕ → ℕ → Action V
  line_of add_time array i n = query_loop ask add_time array i n ⨟ put line_end

  unfoldable pub chapter_of : ℕ → (Query → Query) → List Query → ℕ → Action V
  chapter_of c add_time array n = chapter c ⨟ line_of add_time array 0 n

  unfoldable pub section_of : Item V → List Query → ℕ → Action V
  section_of x array n = title x ⨟ line_of as_is array 0 n

  unfoldable pub over_addresses : Action V
  over_addresses =
      chapter_of 1 as_is address 28
      ⨟ chapter_of 2 (with_time (is_after_after firsttm)) new_add 21
      ⨟ chapter_of 3 (with_time (is_after_before lasttm)) unstop_add 25

  unfoldable pub over_entities : Action V
  over_entities =
      chapter_of 4 as_is entity 31
      ⨟ chapter_of 5 (with_time (is_after_after firsttm)) new_entity 25
      ⨟ chapter_of 6 (with_time (is_after_before lasttm)) unstop_entity 29

  -- The first statement is sent as it stands, the others with the time.
  unfoldable pub over_chain : Action V
  over_chain =
      chapter 7
      ⨟ query_slot ask as_is (slot transaction 0)
      ⨟ line_of (with_time (is_after_after txtime)) transaction 1 21
      ⨟ chapter 8
      ⨟ query_slot ask as_is (slot block 0)
      ⨟ line_of (with_time (is_after_after blktime)) block 1 17

  -- The distributions; the last one is headed and sent as the sixth, and not the table of fees.
  unfoldable pub distributions : Action V
  distributions =
      chapter 9
      ⨟ section_of (heading 9 2) num_of_add_of_entity 31
      ⨟ section_of (heading 9 3) outval_of_add 48
      ⨟ section_of (heading 9 4) outval_of_entity 48
      ⨟ section_of (heading 9 5) bal_of_add 58
      ⨟ section_of (heading 9 6) bal_of_entity 58
      ⨟ section_of (heading 9 7) maxbal_of_add 58
      ⨟ section_of (heading 9 8) maxbal_of_entity 58
      ⨟ section_of (heading 9 9) txcnt_of_add 25
      ⨟ section_of (heading 9 10) txcnt_of_entity 25
      ⨟ section_of amounts_heading outval_of_tx 48
      ⨟ section_of (heading 9 7) maxbal_of_add 58

  unfoldable pub report : Action V
  report = put run_time ⨟ over_addresses ⨟ over_entities ⨟ over_chain ⨟ distributions

  -- A window's line, the same in every round.
  unfoldable pub amounts_line : Action V
  amounts_line = line_of (with_time (within_window txtime)) tx_amount 22 14

  unfoldable pub sizes_line : Action V
  sizes_line = line_of (with_time (within_window txtime)) tx_size 0 33

  unfoldable pub statistical : Action V
  statistical =
      open_file report_file
      ⨟ report
      ⨟ open_file tx_amount_2
      ⨟ repeat 71 amounts_line
      ⨟ close_file
      ⨟ open_file tx_size_2
      ⨟ repeat 71 sizes_line
      ⨟ close_file
