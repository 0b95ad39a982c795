-- ===== src/Unzip.antt =====
-- The loops of BitcoinAnalysis/unzipBlocks.h over the transactions of a block and the blocks of a
-- file, and the row of BitcoinAnalysis/BlockProcess.h. A file is the list of its bytes. A read that
-- the file cuts short leaves the stream failed, which ends the loop behind the block; a byte that
-- no read has filled, and a transaction that cannot be processed, is a failure. BLOCKNUM and
-- TXCOUNTER, which start from -1, are kept one higher. A position, an `int`, is below 2^31; where
-- one is saved that is not, it stands as its 32 bits.
pub mod Resume
pub mod Fuel
pub mod Wire
pub mod Decoded
mod Bodies
pub mod Placed
pub mod Whole
pub mod Ends
pub mod Files
pub mod Continue
mod Runs
use bitcoin_analysis.Common.{
  ℕ, zero, suc, ◌+◌, ◌-◌, ◌++◌, replicate, ◌*◌, ◌^◌, List, [], ◌∷◌, Bool, true, false, ◌&&◌, not,
  Option, none, some, leb, ltb, ◌==◌, if◌then◌else◌, length, take, drop, map, reverse, u16, u32,
  u64,
}
use bitcoin_analysis.Common.Integers.{ℤ, succ, pred, word}
use bitcoin_analysis.Block.Reader.{le_value, read_var_len}
use bitcoin_analysis.Block.Transaction.{Txout, Transaction, read_transaction}
use bitcoin_analysis.Block.Script.{twice_sha256, out_address}
use bitcoin_analysis.Database.{Database, Statement}
use bitcoin_analysis.Entity.{query}
use bitcoin_analysis.Ledger.{KeyValue, Paid, Tx, State, transaction_process}

abbrev pub one_btc : ℕ
one_btc = 100000000

abbrev pub sum_outputs : List Txout → ℕ
sum_outputs [] = 0
sum_outputs (o ∷ outs) = u64 (o.val + sum_outputs outs)

-- The reward above the subsidy, modulo 2^64.
unfoldable pub block_reward : ℕ → ℕ → ℕ
block_reward blocknumber sumoutvalue =
    let subsidy : ℕ = if ltb blocknumber 210000 then 50 else 25 in
    u64 (sumoutvalue + 2 ^ 64 - subsidy * one_btc)

-- The two transactions that are left out.
unfoldable pub is_processed : ℕ → Bool
is_processed txcounter = not (txcounter == 142783) && not (txcounter == 142841)

-- A block's header: the bytes behind the magic number and the size are hashed.
pub record Head : Type 0 where
  pub block_size : ℕ
  pub time_stamp : ℕ
  pub bits : ℕ

unfoldable pub head_of : List ℕ → Head
head_of block_start = record {
  block_size = u32 (le_value (take 4 (drop 4 block_start)));
  time_stamp = le_value (take 4 (drop 76 block_start));
  bits = le_value (take 4 (drop 80 block_start));
}

-- The 88 bytes are 0 where the file ends before.
unfoldable pub block_at : List ℕ → ℕ → List ℕ
block_at file block_pos = take 88 (drop block_pos file ++ replicate 88 0)

-- `Blocksize - 80`, in 32 bits.
unfoldable pub body_size : Head → ℕ
body_size head = u32 (head.block_size + 2 ^ 32 - 80)

-- What is read of the body. There is nothing behind a header that is cut short, nor where the sum
-- of the position is no `int`.
unfoldable pub body_at : List ℕ → ℕ → Head → List ℕ
body_at file block_pos head =
    if ltb (block_pos + 88) (2 ^ 31) then take (body_size head) (drop (block_pos + 88) file) else []

unfoldable pub next_pos : ℕ → Head → ℕ
next_pos block_pos head = u32 (block_pos + head.block_size + 8)

-- The stream can be moved behind the block: the body was read whole, and the position is not
-- negative.
unfoldable pub is_good : List ℕ → ℕ → Head → Bool
is_good file block_pos head =
    length (body_at file block_pos head) == body_size head && ltb (next_pos block_pos head) (2 ^ 31)

module _ (garbage : List ℕ) (kv : KeyValue) (db : Database) where
  abbrev pub paid_of : Txout → Paid
  paid_of o = record { val = o.val; address = (out_address garbage o.script o.script_length).1 }

  -- What the loop over transactions changes. Before the first transaction, where the source leaves
  -- the reward unset, it is 0.
  pub record Progress : Type 0 where
    pub trans_pos : ℕ
    pub tx_num : ℕ
    pub txcounter : ℕ
    pub reward : ℕ
    pub ledger : State kv db

  -- A transaction as it is handed to TransactionProcess.
  unfoldable pub tx_of : ℕ → ℕ → List ℕ → Progress → Transaction → ℕ → Tx
  tx_of blocknumber time_stamp trans_sec p t tx_end = record {
    blocknumber = blocknumber;
    txtime = time_stamp;
    txcounter = p.txcounter;
    tx_length = tx_end - p.trans_pos;
    curhash = twice_sha256 garbage (take (tx_end - p.trans_pos) (drop p.trans_pos trans_sec));
    in_count = t.in_count;
    ins = t.ins;
    out_count = t.out_count;
    outs = map paid_of t.outs;
  }

  abbrev pub processed : Tx → State kv db → Option (State kv db)
  processed tx s = if is_processed tx.txcounter then transaction_process kv db tx s else some s

  abbrev pub moved_on : ℕ → Progress → Transaction → ℕ → Option (State kv db) → Option Progress
  moved_on blocknumber p t tx_end none = none
  moved_on blocknumber p t tx_end (some s) = some (record {
    trans_pos = tx_end;
    tx_num = u16 (p.tx_num + 1);
    txcounter = p.txcounter + 1;
    reward = if p.tx_num == 0 then block_reward blocknumber (sum_outputs t.outs) else p.reward;
    ledger = s;
  })

  unfoldable pub transaction_step :
      ℕ → ℕ → List ℕ → Progress → Option (Transaction × ℕ) → Option Progress
  transaction_step blocknumber time_stamp trans_sec p none = none
  transaction_step blocknumber time_stamp trans_sec p (some (t, tx_end)) =
      moved_on blocknumber p t tx_end
        (processed (tx_of blocknumber time_stamp trans_sec p t tx_end) p.ledger)

  unfoldable pub transactions_loop : ℕ → ℕ → ℕ → List ℕ → Progress → Option Progress
  transactions_loop zero blocknumber time_stamp trans_sec p = some p
  transactions_loop (suc k) blocknumber time_stamp trans_sec p =
      elim (transaction_step blocknumber time_stamp trans_sec p
        (read_transaction trans_sec p.trans_pos)) [
          | none ↦ none
          | some next ↦ transactions_loop k blocknumber time_stamp trans_sec next
        ]

  -- What one block changes: the next block's number, the next transaction's, and the tables.
  pub record Run : Type 0 where
    pub block_num : ℤ
    pub txcounter : ℕ
    pub ledger : State kv db

  unfoldable pub block_process : List ℕ → ℕ → ℕ → Head → ℕ → State kv db → State kv db
  block_process curhash blocknumber trans_count head reward s = record {
    tx_db = s.tx_db;
    world =
        query db
          (Statement.insert_blkinfo (reverse curhash) blocknumber head.block_size trans_count
            head.time_stamp head.bits reward)
          s.world;
    entitycnt = s.entitycnt;
  }

  abbrev pub block_done : List ℕ → ℕ → Head → Run → Option Progress → Option Run
  block_done curhash trans_count head r none = none
  block_done curhash trans_count head r (some p) = some (record {
    block_num = succ r.block_num;
    txcounter = p.txcounter;
    ledger = block_process curhash (word r.block_num) trans_count head p.reward p.ledger;
  })

  abbrev pub with_count : List ℕ → Head → List ℕ → Run → Option (ℕ × ℕ) → Option Run
  with_count curhash head trans_sec r none = none
  with_count curhash head trans_sec r (some (trans_count, pos)) =
      block_done curhash trans_count head r (
        transactions_loop trans_count (word r.block_num) head.time_stamp trans_sec (record {
          trans_pos = pos;
          tx_num = 0;
          txcounter = r.txcounter;
          reward = 0;
          ledger = r.ledger;
        }))

  -- One block, whose header and body are in the file.
  unfoldable pub one_block : List ℕ → Head → List ℕ → Run → Option Run
  one_block block_start head trans_sec r =
      with_count (twice_sha256 garbage (take 80 (drop 8 block_start))) head trans_sec r
        (read_var_len trans_sec 0)

  -- How the loop over blocks ends: at the end of the file, or at a block behind the stop time,
  -- with the position in the file and the counters; `BlockNum` has then counted that block.
  pub data Outcome : Type 0 where
    out_of_fuel : Outcome
    failed : Outcome
    end_of_file : ℕ → Run → Outcome
    stopped : ℕ → Run → Outcome

  abbrev pub counted : Run → Run
  counted r = record { block_num = succ r.block_num; txcounter = r.txcounter; ledger = r.ledger }

  unfoldable pub read_block : List ℕ → ℕ → Head → Run → Option Run
  read_block file block_pos head r =
      one_block (block_at file block_pos) head (body_at file block_pos head) r

  pub data Step : Type 0 where
    ends : Outcome → Step
    goes : ℕ → Run → Step

  -- The tests of the loop in their order: for a byte in the file, for a time behind the stop time,
  -- for a block that can be processed, and for a stream that is still good at the next position.
  unfoldable pub step_of : Bool → Bool → Option Run → Bool → ℕ → ℕ → Run → Step
  step_of false behind result good next block_pos r = ends (end_of_file block_pos r)
  step_of true true result good next block_pos r = ends (stopped block_pos (counted r))
  step_of true false none good next block_pos r = ends failed
  step_of true false (some r1) true next block_pos r = goes next r1
  step_of true false (some r1) false next block_pos r = ends (end_of_file next r1)

  unfoldable pub block_step : List ℕ → ℕ → ℕ → Run → Step
  block_step file stop block_pos r =
      let head : Head = head_of (block_at file block_pos) in
      step_of (ltb block_pos (length file)) (ltb stop head.time_stamp)
        (read_block file block_pos head r) (is_good file block_pos head) (next_pos block_pos head)
        block_pos r

  -- The loop over the blocks of a file.
  unfoldable pub block_loop : ℕ → List ℕ → ℕ → ℕ → Run → Outcome
  block_loop zero file stop block_pos r = out_of_fuel
  block_loop (suc fuel) file stop block_pos r = elim (block_step file stop block_pos r) [
    | ends o ↦ o
    | goes pos next ↦ block_loop fuel file stop pos next
  ]

  -- What is written for the next run, and read by it.
  unfoldable pub saved : Run → Run
  saved r = record { block_num = pred r.block_num; txcounter = r.txcounter; ledger = r.ledger }
