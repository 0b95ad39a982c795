-- ===== src/Unzip/Bodies.antt =====
-- The body of a block of BitcoinAnalysis/unzipBlocks.h, and its row.
use bitcoin_analysis.Common.{
  ℕ, ◌+◌, ◌<◌, ◌^◌, ◌≡◌, refl, ap, ◌∙◌, List, [], ◌++◌, append_assoc, Option, none, some, length,
  take, drop, All, arith,
}
use bitcoin_analysis.Block.Reader.{read_var_len}
use bitcoin_analysis.Block.Reader.RoundTrip.{Reads, compact_size, read_var_len-compact_size}
use bitcoin_analysis.Block.Script.{twice_sha256}
use bitcoin_analysis.Block.Transaction.{Transaction}
use bitcoin_analysis.Block.Transaction.Wire.{concat_map, transaction_bytes, IsTransaction}
use bitcoin_analysis.Common.Integers.{word}
use bitcoin_analysis.Database.{Database}
use bitcoin_analysis.Ledger.{KeyValue, State}
use bitcoin_analysis.Unzip.Wire.{block_bytes, process_all, block_result}
use bitcoin_analysis.Unzip.Decoded.{after, Decodes, transactions_loop-process_all}
use bitcoin_analysis.Unzip.{Head, Progress, Run, block_done, with_count, one_block}

module _ (garbage : List ℕ) (kv : KeyValue) (db : Database) where
  block_done-after :
      (curhash : List ℕ) (head : Head) (r : Run garbage kv db) (txs : List Transaction)
      (p : Progress garbage kv db) (o : Option (State kv db))
      → p.tx_num ≡ 0
      → p.txcounter ≡ r.txcounter
      → p.reward ≡ 0
      → block_done garbage kv db curhash
          (length txs)
          head
          r
          (after garbage kv db (word r.block_num) head.time_stamp p txs o)
        ≡ block_result garbage kv db curhash head r txs o
  block_done-after curhash head r txs p none n c w = refl
  block_done-after curhash head r txs p (some s) n c w = rw (n, c, w) refl

  pub one_block-block_bytes :
      (block_start : List ℕ) (head : Head) (rest : List ℕ) (r : Run garbage kv db)
      (txs : List Transaction)
      → length txs < 2 ^ 16
      → All IsTransaction txs
      → one_block garbage kv db block_start head (block_bytes txs ++ rest) r
        ≡ block_result garbage kv db
            (twice_sha256 garbage (take 80 (drop 8 block_start)))
            head
            r
            txs
            (process_all garbage kv db (word r.block_num) head.time_stamp txs r.txcounter r.ledger)
  unfolding one_block block_bytes Decodes Reads
  one_block-block_bytes block_start head rest r txs h all =
      let curhash : List ℕ = twice_sha256 garbage (take 80 (drop 8 block_start)) in
      let count = compact_size (length txs) in
      let bodies = concat_map transaction_bytes txs in
      let start : Progress garbage kv db = record {
        trans_pos = 0 + length count;
        tx_num = 0;
        txcounter = r.txcounter;
        reward = 0;
        ledger = r.ledger;
      } in
      ap (λ l. with_count garbage kv db curhash head l r (read_var_len l 0))
        (append_assoc count bodies rest)
      ∙ ap (with_count garbage kv db curhash head (count ++ (bodies ++ rest)) r)
          (read_var_len-compact_size (length txs) (omega arith) [] (bodies ++ rest) 0 refl)
      ∙ ap (block_done garbage kv db curhash (length txs) head r) (
          transactions_loop-process_all garbage kv db (word r.block_num) head.time_stamp txs all
            count rest start (omega arith) (omega arith))
      ∙ block_done-after curhash head r txs start _ refl refl refl
