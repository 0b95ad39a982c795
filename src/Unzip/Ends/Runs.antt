-- ===== src/Unzip/Ends/Runs.antt =====
-- The loop over a file of two blocks, of one and of two transactions, and over files that go on.
use bitcoin_analysis.Common.{◌<◌, ◌^◌, ℕ, ◌≡◌, refl, List, [], ◌∷◌, ◌++◌, arith, replicate, length}
use bitcoin_analysis.Common.Integers.{pos}
use bitcoin_analysis.Block.Reader.RoundTrip.{compact_size, le_bytes}
use bitcoin_analysis.Block.Transaction.{Transaction}
use bitcoin_analysis.Block.Transaction.Wire.{
  txin_bytes, txout_bytes, concat_map, transaction_bytes, IsTransaction,
}
use bitcoin_analysis.Entity.Rows.{rows}
use bitcoin_analysis.Ledger.Entries.{entries}
use bitcoin_analysis.Unzip.{block_at, Run, head_of, block_loop}
use bitcoin_analysis.Unzip.Wire.{
  stop_outcome, block_bytes, WireBlock, IsWireBlock, file_bytes, file_outcome, process_blocks,
}
use bitcoin_analysis.Unzip.Whole.{block_loop-file_bytes}
use bitcoin_analysis.Unzip.Ends.{block_loop-late}

abbrev garbage : List ℕ
garbage = replicate 64 0

abbrev coin : Transaction
coin = record {
  ver = 1;
  in_count = 1;
  ins =
      record { hash = replicate 32 5; index = 0; script_length = 1; script = 5 ∷ []; seq = 9 } ∷ [];
  out_count = 1;
  outs = record { val = 5000000000; script_length = 1; script = 9 ∷ [] } ∷ [];
  lock_time = 0;
}

coin-IsTransaction : IsTransaction coin
coin-IsTransaction = record {
  ver_fits = omega arith;
  in_fits = omega arith;
  in_size = refl;
  ins_fit = (
    record {
      hash_size = refl;
      index_fits = omega arith;
      script_fits = omega arith;
      script_size = refl;
      seq_fits = omega arith;
    },
    tt,
  );
  out_fits = omega arith;
  out_size = refl;
  outs_fit = (record { val_fits = omega arith; script_fits = omega arith; script_size = refl }, tt);
  lock_fits = omega arith;
}

-- Magic number, size, and the header of a block of the time 5.
abbrev start_of : ℕ → List ℕ
start_of size =
    (0xf9 ∷ 0xbe ∷ 0xb4 ∷ 0xd9 ∷ size ∷ 0 ∷ 0 ∷ 0 ∷ [])
    ++ (replicate 68 0 ++ ((5 ∷ 0 ∷ 0 ∷ 0 ∷ []) ++ replicate 8 0))

abbrev one : WireBlock
one = record { start = start_of 143; txs = coin ∷ [] }

abbrev two : WireBlock
two = record { start = start_of 205; txs = coin ∷ coin ∷ [] }

one-IsWireBlock : IsWireBlock 9 one
unfolding block_bytes concat_map transaction_bytes txin_bytes txout_bytes compact_size le_bytes
    head_of
one-IsWireBlock = record {
  start_size = refl;
  block_size = refl;
  in_time = omega arith;
  few = omega arith;
  all_fit = (coin-IsTransaction, tt);
}

two-IsWireBlock : IsWireBlock 9 two
unfolding block_bytes concat_map transaction_bytes txin_bytes txout_bytes compact_size le_bytes
    head_of
two-IsWireBlock = record {
  start_size = refl;
  block_size = refl;
  in_time = omega arith;
  few = omega arith;
  all_fit = (coin-IsTransaction, (coin-IsTransaction, tt));
}

abbrev owner : List ℕ
owner = replicate 20 1

-- The record of the output that the transactions spend.
abbrev spent_value : List ℕ
spent_value = replicate 20 0 ++ (1 ∷ 0 ∷ 0 ∷ 0 ∷ [] ++ (owner ++ (50 ∷ replicate 7 0)))

abbrev start : Run garbage entries rows
start = record {
  block_num = pos 7;
  txcounter = 3;
  ledger = record {
    tx_db = (replicate 32 5, spent_value) ∷ [];
    world = record { state = (owner, 7) ∷ []; entitychange_v = [] };
    entitycnt = 7;
  };
}

short : length ((1 ∷ []) ++ file_bytes (one ∷ two ∷ [])) < 2 ^ 31
unfolding file_bytes block_bytes concat_map transaction_bytes txin_bytes txout_bytes compact_size
    le_bytes
short = omega arith

block_loop-file_bytes_example :
    block_loop garbage entries rows 3 ((1 ∷ []) ++ file_bytes (one ∷ two ∷ [])) 9 1 start
    ≡ file_outcome garbage entries rows
        (length ((1 ∷ []) ++ file_bytes (one ∷ two ∷ [])))
        (process_blocks garbage entries rows (one ∷ two ∷ []) start)
block_loop-file_bytes_example =
    block_loop-file_bytes garbage entries rows 9 (one ∷ two ∷ []) (1 ∷ []) 1 3 start
      (one-IsWireBlock, (two-IsWireBlock, tt)) refl (omega arith) short

-- A header of the time 20, cut short behind the lowest byte of its time.
abbrev late : List ℕ
late = (0xf9 ∷ 0xbe ∷ 0xb4 ∷ 0xd9 ∷ 0 ∷ 0 ∷ 0 ∷ 0 ∷ []) ++ (replicate 68 0 ++ (20 ∷ []))

late-behind : 9 < (head_of (block_at late 0)).time_stamp
unfolding head_of block_at
late-behind = omega arith

late_short : length ((1 ∷ []) ++ (file_bytes (one ∷ two ∷ []) ++ late)) < 2 ^ 31
unfolding file_bytes block_bytes concat_map transaction_bytes txin_bytes txout_bytes compact_size
    le_bytes
late_short = omega arith

block_loop-late_example :
    block_loop garbage entries rows 3 ((1 ∷ []) ++ (file_bytes (one ∷ two ∷ []) ++ late)) 9 1 start
    ≡ stop_outcome garbage entries rows
        (length ((1 ∷ []) ++ file_bytes (one ∷ two ∷ [])))
        (process_blocks garbage entries rows (one ∷ two ∷ []) start)
block_loop-late_example =
    block_loop-late garbage entries rows 9 (one ∷ two ∷ []) (1 ∷ []) late 1 3 start
      (one-IsWireBlock, (two-IsWireBlock, tt)) refl (omega arith) late_short (omega arith)
      late-behind

abbrev cut : WireBlock
cut = record { start = start_of 250; txs = coin ∷ [] }
