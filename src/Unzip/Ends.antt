-- ===== src/Unzip/Ends.antt =====
-- How the loop of BitcoinAnalysis/unzipBlocks.h ends before a file's end, or behind it.
mod Runs
use bitcoin_analysis.Common.{
  ap₂, ◌-◌, ℕ, zero, suc, ◌+◌, ◌-◌, ◌<◌, ◌≤◌, ◌^◌, ◌≡◌, refl, sym, ap, ◌∙◌, List, ◌++◌,
  append_assoc, append-nil, true, false, Option, none, some, leb, ltb, ◌==◌, if◌then◌else◌, length,
  take, drop, map, All, arith, u16, take-append_eq, drop-append_eq, length-append, lt→ltb, le→leb,
  le→ltb,
}
use bitcoin_analysis.Block.Reader.{read_var_len}
use bitcoin_analysis.Block.Reader.RoundTrip.{Reads, compact_size, read_var_len-compact_size}
use bitcoin_analysis.Block.Script.{twice_sha256}
use bitcoin_analysis.Block.Transaction.{Transaction, read_transaction}
use bitcoin_analysis.Block.Transaction.RoundTrip.{read_transaction-transaction_bytes}
use bitcoin_analysis.Block.Transaction.Wire.{concat_map, transaction_bytes, IsTransaction}
use bitcoin_analysis.Database.{Database}
use bitcoin_analysis.Ledger.{KeyValue, Tx, State}
use bitcoin_analysis.Unzip.Placed.{block_step-block_bytes, block_step-late}
use bitcoin_analysis.Unzip.Whole.{loop_on, go_on, rounds, block_loop-blocks}
use bitcoin_analysis.Unzip.Wire.{
  stop_outcome, WireBlock, IsWireBlock, file_bytes, process_blocks, reward_after, wire_tx,
  process_all, block_result, process_block, went_on,
}
use bitcoin_analysis.Unzip.Decoded.{after, Decodes, transactions_loop-process_all}
use bitcoin_analysis.Unzip.{
  failed, stopped, counted, body_size, block_loop, Outcome, end_of_file, ends, goes, Step, is_good,
  block_at, read_block, step_of, block_step, sum_outputs, block_reward, Head, head_of, paid_of,
  Progress, tx_of, processed, moved_on, transaction_step, transactions_loop, Run, block_process,
  block_done, with_count, one_block,
}

module _ (garbage : List ℕ) (kv : KeyValue) (db : Database) (stop : ℕ) where
  with_late :
      (front late : List ℕ) (fuel : ℕ) (o : Option (Run garbage kv db))
      → 0 < length late
      → stop < (head_of (block_at late 0)).time_stamp
      → go_on garbage kv db stop (suc fuel) (front ++ late) (length front) o
        ≡ stop_outcome garbage kv db (length front) o
  unfolding block_loop
  with_late front late fuel none h time = refl
  with_late front late fuel (some next) h time =
      ap (loop_on garbage kv db stop fuel (front ++ late))
        (block_step-late garbage kv db front late stop next h time)

  -- In a file of less than 2^31 bytes, blocks stand one behind the other from the position on, none
  -- of them behind the stop time, each with its size and with fewer than 2^16 transactions that fit
  -- the C++ structs. Where one that is behind the stop time follows them, whatever else it holds
  -- and also where its header is cut short, the loop, with more rounds than blocks, processes the
  -- blocks in front of it and stops at its first byte, and has counted it, or it fails where a
  -- transaction cannot be processed.
  pub block_loop-late :
      (bs : List WireBlock) (front late : List ℕ) (pos fuel : ℕ) (r : Run garbage kv db)
      → All (IsWireBlock stop) bs
      → length front ≡ pos
      → length bs < fuel
      → length (front ++ (file_bytes bs ++ late)) < 2 ^ 31
      → 0 < length late
      → stop < (head_of (block_at late 0)).time_stamp
      → block_loop garbage kv db fuel (front ++ (file_bytes bs ++ late)) stop pos r
        ≡ stop_outcome garbage kv db
            (length (front ++ file_bytes bs))
            (process_blocks garbage kv db bs r)
  block_loop-late bs front late pos fuel r all e h small some_byte time =
      let (m, count) = rounds garbage kv db stop (length bs) fuel h in
      ap (λ (n : ℕ). block_loop garbage kv db n (front ++ (file_bytes bs ++ late)) stop pos r) count
      ∙ block_loop-blocks garbage kv db stop bs front late pos (suc m) r all e small
      ∙ ap
          (λ l.
            go_on garbage kv db stop (suc m) l (length (front ++ file_bytes bs))
              (process_blocks garbage kv db bs r))
          (sym (append_assoc front (file_bytes bs) late))
      ∙ with_late (front ++ file_bytes bs) late m (process_blocks garbage kv db bs r) some_byte time

  abbrev then_block : WireBlock → Option (Run garbage kv db) → Option (Run garbage kv db)
  then_block last o = elim o [ none ↦ none | some next ↦ process_block garbage kv db last next ]

  abbrev then_blocks : List WireBlock → Option (Run garbage kv db) → Option (Run garbage kv db)
  then_blocks bs o = elim o [ none ↦ none | some next ↦ process_blocks garbage kv db bs next ]
