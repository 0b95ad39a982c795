-- ===== src/Statistics/Lines.antt =====
-- The lines that `statistical` of BitcoinAnalysis/Statistical.h is meant to write, as lists.
use bitcoin_analysis.Common.{ℕ, List, [], ◌∷◌, ◌++◌, map, none, false, take, drop}
use bitcoin_analysis.Statistics.{
  Query, with_time, firsttm, lasttm, txtime, blktime, is_after_after, is_after_before,
}
use bitcoin_analysis.Statistics.Tables.Address.{address, new_add, unstop_add}
use bitcoin_analysis.Statistics.Tables.Entity.{entity, new_entity, unstop_entity}
use bitcoin_analysis.Statistics.Tables.Chain.{transaction, block}
use bitcoin_analysis.Statistics.Tables.Counts.{num_of_add_of_entity, txcnt_of_add, txcnt_of_entity}
use bitcoin_analysis.Statistics.Tables.Outputs.{outval_of_add, outval_of_entity, outval_of_tx}
use bitcoin_analysis.Statistics.Tables.Balances.{bal_of_add, bal_of_entity}
use bitcoin_analysis.Statistics.Tables.Peaks.{maxbal_of_add, maxbal_of_entity}
use bitcoin_analysis.Statistics.Stream.{
  Stream, Answer, Item, heading, amounts_heading, rule, run_time, line_end, report_file, tx_size_2,
}
use bitcoin_analysis.Statistics.Report.{as_is}
use bitcoin_analysis.Statistics.Printed.{answers}

module _ {V : Type 0} where
  -- The stream as it is declared.
  abbrev pub fresh : Stream V
  fresh = record { current = none; is_failed = false; written = [] }

  unfoldable pub chapter_items : ℕ → List (Item V)
  chapter_items n = rule ∷ heading n 0 ∷ rule ∷ []

  unfoldable pub title_items : Item V → List (Item V)
  title_items x = rule ∷ x ∷ []

  -- The stream at the end, where the report has the items `xs`, and the second file of windows `zs`.
  abbrev pub final : List (Item V) → List (Item V) → Stream V
  final xs zs = record {
    current = none;
    is_failed = false;
    written = map (λ x. (report_file, x)) xs ++ map (λ x. (tx_size_2, x)) zs;
  }

module _ {V : Type 0} (ask : Query → Answer V) where
  -- The answers to an array and the end of the line.
  unfoldable pub line_items : (Query → Query) → List Query → List (Item V)
  line_items add_time qs = answers ask add_time qs ++ (line_end ∷ [])

  -- A chapter of one line, and a titled line.
  unfoldable pub chapter_line : ℕ → (Query → Query) → List Query → List (Item V)
  chapter_line c add_time qs = chapter_items c ++ line_items add_time qs

  unfoldable pub titled_line : Item V → List Query → List (Item V)
  titled_line x qs = title_items x ++ line_items as_is qs

  unfoldable pub address_items : List (Item V)
  address_items =
      chapter_line 1 as_is address
      ++ (chapter_line 2 (with_time (is_after_after firsttm)) new_add
          ++ chapter_line 3 (with_time (is_after_before lasttm)) unstop_add)

  unfoldable pub entity_items : List (Item V)
  entity_items =
      chapter_line 4 as_is entity
      ++ (chapter_line 5 (with_time (is_after_after firsttm)) new_entity
          ++ chapter_line 6 (with_time (is_after_before lasttm)) unstop_entity)

  -- The first answer of these chapters is over all the rows.
  unfoldable pub chain_items : List (Item V)
  chain_items =
      chapter_items 7
      ++ (answers ask as_is (take 1 transaction)
          ++ (line_items (with_time (is_after_after txtime)) (drop 1 transaction)
              ++ (chapter_items 8
                  ++ (answers ask as_is (take 1 block)
                      ++ line_items (with_time (is_after_after blktime)) (drop 1 block)))))

  unfoldable pub distribution_items : List (Item V)
  distribution_items =
      chapter_items 9
      ++ (titled_line (heading 9 2) num_of_add_of_entity
          ++ (titled_line (heading 9 3) outval_of_add
              ++ (titled_line (heading 9 4) outval_of_entity
                  ++ (titled_line (heading 9 5) bal_of_add
                      ++ (titled_line (heading 9 6) bal_of_entity
                          ++ (titled_line (heading 9 7) maxbal_of_add
                              ++ (titled_line (heading 9 8) maxbal_of_entity
                                  ++ (titled_line (heading 9 9) txcnt_of_add
                                      ++ (titled_line (heading 9 10) txcnt_of_entity
                                          ++ (titled_line amounts_heading outval_of_tx
                                              ++ titled_line (heading 9 7) maxbal_of_add))))))))))

  unfoldable pub report_items : List (Item V)
  report_items =
      (run_time ∷ []) ++ (address_items ++ (entity_items ++ (chain_items ++ distribution_items)))
