-- ===== src/Unzip/Wire.antt =====
-- What a block holds, as its transactions, and what is done with them: the specification that the
-- loops of BitcoinAnalysis/unzipBlocks.h are compared with, without bytes and positions.
use bitcoin_analysis.Common.{
  ℕ, zero, suc, ◌+◌, ◌<◌, ◌^◌, ◌≡◌, List, [], ◌∷◌, ◌++◌, Option, none, some, length, take, drop,
  map, All, ◌≤◌,
}
use bitcoin_analysis.Common.Integers.{succ, word}
use bitcoin_analysis.Block.Reader.RoundTrip.{compact_size}
use bitcoin_analysis.Block.Script.{twice_sha256}
use bitcoin_analysis.Block.Transaction.{Transaction}
use bitcoin_analysis.Block.Transaction.Wire.{concat_map, transaction_bytes, IsTransaction}
use bitcoin_analysis.Database.{Database}
use bitcoin_analysis.Ledger.{KeyValue, Tx, State}
use bitcoin_analysis.Unzip.{
  stopped, counted, sum_outputs, block_reward, Head, head_of, paid_of, processed, Run,
  block_process, Outcome, failed, end_of_file, Step, ends, goes,
}

-- The body of a block: the count of its transactions and the transactions.
unfoldable pub block_bytes : List Transaction → List ℕ
block_bytes txs = compact_size (length txs) ++ concat_map transaction_bytes txs

-- The reward is that of the first transaction; `k` of them are done.
unfoldable pub reward_after : ℕ → ℕ → ℕ → List Transaction → ℕ
reward_after blocknumber reward zero [] = reward
reward_after blocknumber reward zero (t ∷ txs) = block_reward blocknumber (sum_outputs t.outs)
reward_after blocknumber reward (suc k) txs = reward

module _ (garbage : List ℕ) (kv : KeyValue) (db : Database) where
  -- A transaction with its number: its hash and its length are those of its bytes.
  unfoldable pub wire_tx : ℕ → ℕ → ℕ → Transaction → Tx
  wire_tx blocknumber time_stamp txcounter t = record {
    blocknumber = blocknumber;
    txtime = time_stamp;
    txcounter = txcounter;
    tx_length = length (transaction_bytes t);
    curhash = twice_sha256 garbage (transaction_bytes t);
    in_count = t.in_count;
    ins = t.ins;
    out_count = t.out_count;
    outs = map (paid_of garbage kv db) t.outs;
  }

  -- The transactions are processed in their order, numbered from `txcounter` on.
  unfoldable pub process_all : ℕ → ℕ → List Transaction → ℕ → State kv db → Option (State kv db)
  process_all blocknumber time_stamp [] txcounter s = some s
  process_all blocknumber time_stamp (t ∷ txs) txcounter s =
      elim (processed garbage kv db (wire_tx blocknumber time_stamp txcounter t) s) [
        | none ↦ none
        | some next ↦ process_all blocknumber time_stamp txs (txcounter + 1) next
      ]

  -- The block's row follows its transactions.
  abbrev pub block_result :
      List ℕ
      → Head
      → Run garbage kv db
      → List Transaction
      → Option (State kv db)
      → Option (Run garbage kv db)
  block_result curhash head r txs none = none
  block_result curhash head r txs (some s) = some (record {
    block_num = succ r.block_num;
    txcounter = r.txcounter + length txs;
    ledger =
        block_process garbage kv db curhash (word r.block_num) (length txs) head
          (reward_after (word r.block_num) 0 0 txs) s;
  })

  -- The run is over where a transaction cannot be processed, and goes on at `next_pos` else.
  abbrev pub went_on : ℕ → Option (Run garbage kv db) → Step garbage kv db
  went_on next_pos none = ends failed
  went_on next_pos (some next) = goes next_pos next

-- A block as it stands in a file: the magic number, the size and the header, and its transactions.
pub record WireBlock : Type 0 where
  pub start : List ℕ
  pub txs : List Transaction

-- The size in front of the header is right, every transaction fits the C++ structs, and the block is
-- not behind the stop time.
pub record IsWireBlock (stop : ℕ) (b : WireBlock) : Type 0 where
  pub start_size : length b.start ≡ 88
  pub block_size : (head_of b.start).block_size ≡ 80 + length (block_bytes b.txs)
  pub in_time : (head_of b.start).time_stamp ≤ stop
  pub few : length b.txs < 2 ^ 16
  pub all_fit : All IsTransaction b.txs

-- A last block of a file whose size is more than the file has left, with its transactions there.
pub record IsCutBlock (stop : ℕ) (b : WireBlock) : Type 0 where
  pub start_size : length b.start ≡ 88
  pub cut : 80 + length (block_bytes b.txs) < (head_of b.start).block_size
  pub in_time : (head_of b.start).time_stamp ≤ stop
  pub few : length b.txs < 2 ^ 16
  pub all_fit : All IsTransaction b.txs

unfoldable pub file_bytes : List WireBlock → List ℕ
file_bytes [] = []
file_bytes (b ∷ bs) = b.start ++ (block_bytes b.txs ++ file_bytes bs)

module _ (garbage : List ℕ) (kv : KeyValue) (db : Database) where
  -- A block's hash is that of its header.
  unfoldable pub process_block : WireBlock → Run garbage kv db → Option (Run garbage kv db)
  process_block b r =
      let head : Head = head_of b.start in
      block_result garbage kv db (twice_sha256 garbage (take 80 (drop 8 b.start))) head r b.txs
        (process_all garbage kv db (word r.block_num) head.time_stamp b.txs r.txcounter r.ledger)

  -- The blocks are processed in their order, from the state that the block before has left.
  unfoldable pub process_blocks : List WireBlock → Run garbage kv db → Option (Run garbage kv db)
  process_blocks [] r = some r
  process_blocks (b ∷ bs) r = elim (process_block b r) [
    | none ↦ none
    | some next ↦ process_blocks bs next
  ]

  abbrev pub file_outcome : ℕ → Option (Run garbage kv db) → Outcome garbage kv db
  file_outcome pos none = failed
  file_outcome pos (some r) = end_of_file pos r

  -- The run stops at a position, where it has come there.
  abbrev pub stop_outcome : ℕ → Option (Run garbage kv db) → Outcome garbage kv db
  stop_outcome pos none = failed
  stop_outcome pos (some r) = stopped pos (counted garbage kv db r)
