-- ===== src/Statistics/Written.antt =====
-- What `statistical` of BitcoinAnalysis/Statistical.h has written, file by file, when it returns.
use bitcoin_analysis.Common.{
  ℕ, ◌+◌, ◌≡◌, refl, sym, ap, ◌∙◌, ◌≢◌, List, [], ◌∷◌, ◌++◌, map, append-nil, none, some, false,
  drop, length, take_all, length-drop, arith,
}
use mathlib.Core.Path.{subst}
use bitcoin_analysis.Statistics.{
  Query, with_time, firsttm, lasttm, txtime, blktime, is_after_after, is_after_before,
  within_window,
}
use bitcoin_analysis.Statistics.Tables.Address.{address, new_add, unstop_add}
use bitcoin_analysis.Statistics.Tables.Entity.{entity, new_entity, unstop_entity}
use bitcoin_analysis.Statistics.Tables.Chain.{transaction, block}
use bitcoin_analysis.Statistics.Tables.Counts.{num_of_add_of_entity, txcnt_of_add, txcnt_of_entity}
use bitcoin_analysis.Statistics.Tables.Outputs.{outval_of_add, outval_of_entity, outval_of_tx}
use bitcoin_analysis.Statistics.Tables.Balances.{bal_of_add, bal_of_entity}
use bitcoin_analysis.Statistics.Tables.Peaks.{maxbal_of_add, maxbal_of_entity}
use bitcoin_analysis.Statistics.Tables.Windows.{tx_amount, tx_size}
use bitcoin_analysis.Statistics.Stream.{
  Answer, null, Action, Item, heading, amounts_heading, rule, run_time, line_end, report_file,
  tx_amount_2, tx_size_2, put, query_slot, query_loop, slot, open_file, close_file, ◌⨟◌, go_on,
  open_from, close_from,
}
use bitcoin_analysis.Statistics.Report.{
  as_is, chapter, title, line_of, chapter_of, section_of, over_addresses, over_entities, over_chain,
  distributions, report, amounts_line, sizes_line, statistical,
}
use bitcoin_analysis.Statistics.Printed.{
  Writes, answers, items_of, copies, writing, lost, stream_of, emitted, put-Writes, then-Writes,
  repeat-Writes, query_loop-Writes, found-Writes,
}
use bitcoin_analysis.Statistics.Lines.{
  fresh, chapter_items, title_items, final, line_items, chapter_line, titled_line, address_items,
  entity_items, chain_items, distribution_items, report_items,
}

module _ {V : Type 0} where
  -- A file that is opened before the last one is closed gets nothing.
  files-written :
      {xs ys zs : List (Item V)} {a b c : Action V}
      → Writes xs a
      → Writes ys b
      → Writes zs c
      → (open_file report_file
            ⨟ a
            ⨟ open_file tx_amount_2
            ⨟ b
            ⨟ close_file
            ⨟ open_file tx_size_2
            ⨟ c
            ⨟ close_file)
          fresh
        ≡ some (final xs zs)
  unfolding open_file open_from close_file close_from stream_of emitted
  files-written {xs = xs} {zs = zs} {b = b} {c = c} ha hb hc =
      let w = map (λ (x : Item V). (report_file, x)) xs in
      ap
        (λ o.
          go_on o (open_file tx_amount_2 ⨟ b ⨟ close_file ⨟ open_file tx_size_2 ⨟ c ⨟ close_file))
        (ha.runs (writing report_file) [])
      ∙ ap (λ o. go_on o (close_file ⨟ open_file tx_size_2 ⨟ c ⨟ close_file))
          (hb.runs (lost report_file) w)
      ∙ ap (λ o. go_on o close_file) (hc.runs (writing tx_size_2) (w ++ []))
      ∙ ap
          (λ l. some (record {
            current = none;
            is_failed = false;
            written = l ++ map (λ (x : Item V). (tx_size_2, x)) zs;
          }))
          (append-nil w)

module _ {V : Type 0} (ask : Query → Answer V) where
  chapter-Writes : (n : ℕ) → Writes (chapter_items n) (chapter ask n)
  unfolding chapter_items chapter
  chapter-Writes n =
      then-Writes (put-Writes rule) (then-Writes (put-Writes (heading n 0)) (put-Writes rule))

  title-Writes : (x : Item V) → Writes (title_items x) (title ask x)
  unfolding title_items title
  title-Writes x = then-Writes (put-Writes rule) (put-Writes x)

  module _ (never_null : (q : Query) → ask q ≢ null) where
    line-Writes :
        (add_time : Query → Query) (array : List Query) (i n : ℕ)
        → i + n ≡ length array
        → Writes (line_items ask add_time (drop i array)) (line_of ask add_time array i n)
    unfolding line_items line_of
    line-Writes add_time array i n h =
        subst
          (λ (l : List Query).
            Writes (answers ask add_time l ++ (line_end ∷ []))
              (query_loop ask add_time array i n ⨟ put line_end))
          (take_all n (drop i array) (omega (arith, h, length-drop i array)))
          (then-Writes (query_loop-Writes ask never_null add_time array i n (omega (arith, h)))
            (put-Writes line_end))

    chapter_of-Writes :
        (c : ℕ) (add_time : Query → Query) (array : List Query) (n : ℕ)
        → n ≡ length array
        → Writes (chapter_line ask c add_time array) (chapter_of ask c add_time array n)
    unfolding chapter_line chapter_of
    chapter_of-Writes c add_time array n h =
        then-Writes (chapter-Writes c) (line-Writes add_time array 0 n (omega (arith, h)))

    section_of-Writes :
        (x : Item V) (array : List Query) (n : ℕ)
        → n ≡ length array
        → Writes (titled_line ask x array) (section_of ask x array n)
    unfolding titled_line section_of
    section_of-Writes x array n h =
        then-Writes (title-Writes x) (line-Writes as_is array 0 n (omega (arith, h)))

    over_addresses-Writes : Writes (address_items ask) (over_addresses ask)
    unfolding address_items over_addresses
    over_addresses-Writes = then-Writes (chapter_of-Writes 1 as_is address 28 refl) (
        then-Writes (chapter_of-Writes 2 (with_time (is_after_after firsttm)) new_add 21 refl)
          (chapter_of-Writes 3 (with_time (is_after_before lasttm)) unstop_add 25 refl))

    over_entities-Writes : Writes (entity_items ask) (over_entities ask)
    unfolding entity_items over_entities
    over_entities-Writes = then-Writes (chapter_of-Writes 4 as_is entity 31 refl) (
        then-Writes (chapter_of-Writes 5 (with_time (is_after_after firsttm)) new_entity 25 refl)
          (chapter_of-Writes 6 (with_time (is_after_before lasttm)) unstop_entity 29 refl))

    first-Writes :
        (q : Query) (qs : List Query)
        → Writes (answers ask as_is (q ∷ [])) (query_slot ask as_is (slot (q ∷ qs) 0))
    unfolding answers
    first-Writes q qs =
        subst (λ xs. Writes xs (query_slot ask as_is (some q)))
          (sym (append-nil (items_of (ask q)))) (found-Writes ask never_null as_is q)

    over_chain-Writes : Writes (chain_items ask) (over_chain ask)
    unfolding chain_items over_chain
    over_chain-Writes = then-Writes (chapter-Writes 7) (
        then-Writes (first-Writes _ (drop 1 transaction)) (
          then-Writes (line-Writes (with_time (is_after_after txtime)) transaction 1 21 refl) (
            then-Writes (chapter-Writes 8) (
              then-Writes (first-Writes _ (drop 1 block))
                (line-Writes (with_time (is_after_after blktime)) block 1 17 refl)))))

    distributions-Writes : Writes (distribution_items ask) (distributions ask)
    unfolding distribution_items distributions
    distributions-Writes = then-Writes (chapter-Writes 9) (
        then-Writes (section_of-Writes (heading 9 2) num_of_add_of_entity 31 refl) (
          then-Writes (section_of-Writes (heading 9 3) outval_of_add 48 refl) (
            then-Writes (section_of-Writes (heading 9 4) outval_of_entity 48 refl) (
              then-Writes (section_of-Writes (heading 9 5) bal_of_add 58 refl) (
                then-Writes (section_of-Writes (heading 9 6) bal_of_entity 58 refl) (
                  then-Writes (section_of-Writes (heading 9 7) maxbal_of_add 58 refl) (
                    then-Writes (section_of-Writes (heading 9 8) maxbal_of_entity 58 refl) (
                      then-Writes (section_of-Writes (heading 9 9) txcnt_of_add 25 refl) (
                        then-Writes (section_of-Writes (heading 9 10) txcnt_of_entity 25 refl) (
                          then-Writes (section_of-Writes amounts_heading outval_of_tx 48 refl)
                            (section_of-Writes (heading 9 7) maxbal_of_add 58 refl)))))))))))

    report-Writes : Writes (report_items ask) (report ask)
    unfolding report_items report
    report-Writes = then-Writes (put-Writes run_time) (
        then-Writes over_addresses-Writes
          (then-Writes over_entities-Writes (then-Writes over_chain-Writes distributions-Writes)))

    amounts_line-Writes :
        Writes
          (line_items ask (with_time (within_window txtime)) (drop 22 tx_amount))
          (amounts_line ask)
    unfolding amounts_line
    amounts_line-Writes = line-Writes (with_time (within_window txtime)) tx_amount 22 14 refl

    sizes_line-Writes :
        Writes (line_items ask (with_time (within_window txtime)) tx_size) (sizes_line ask)
    unfolding sizes_line
    sizes_line-Writes = line-Writes (with_time (within_window txtime)) tx_size 0 33 refl

    -- Where the server answers no statement with NULL, the function returns. The report has every
    -- chapter with the answers to its statements, the file of sizes has 71 copies of one line, and
    -- the file of amounts has nothing, since it is opened while the report is open.
    pub statistical-final :
        statistical ask fresh
        ≡ some (
            final
              (report_items ask)
              (copies 71 (line_items ask (with_time (within_window txtime)) tx_size)))
    unfolding statistical
    statistical-final =
        files-written report-Writes (repeat-Writes 71 amounts_line-Writes)
          (repeat-Writes 71 sizes_line-Writes)
