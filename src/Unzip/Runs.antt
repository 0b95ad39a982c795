-- ===== src/Unzip/Runs.antt =====
-- The loop over a file of two blocks without transactions, of the times 5 and 9.
use Prim.Native.String.{String}
use bitcoin_analysis.Common.{
  ℕ, Option, some, ◌+◌, ◌≡◌, ◌≢◌, refl, List, [], ◌∷◌, ◌++◌, arith, replicate,
}
use bitcoin_analysis.Common.Integers.{pos, negsuc, succ, pred, word}
use bitcoin_analysis.Unzip.Continue.{IsSmall}
use bitcoin_analysis.Entity.Rows.{rows}
use bitcoin_analysis.Ledger.Entries.{entries}
use bitcoin_analysis.Block.Reader.{read_bytes, read_u8, read_var_len}
use bitcoin_analysis.Unzip.{
  Run, out_of_fuel, end_of_file, stopped, head_of, block_at, body_size, body_at, next_pos, is_good,
  read_block, one_block, transactions_loop, block_process, step_of, block_step, block_loop, saved,
}
use bitcoin_analysis.Unzip.Files.{over_file, file_loop, at_stop}
use bitcoin_analysis.Unzip.Continue.{file_loop-saved}
use bitcoin_analysis.Unzip.Fuel.{block_loop-enough}
use bitcoin_analysis.Unzip.Resume.{block_loop-saved}

abbrev garbage : List ℕ
garbage = replicate 64 0

-- Eight bytes of magic number and size, the header, and the count of no transactions.
abbrev block : ℕ → List ℕ
block time =
    (0xf9 ∷ 0xbe ∷ 0xb4 ∷ 0xd9 ∷ 81 ∷ 0 ∷ 0 ∷ 0 ∷ [])
    ++ (replicate 68 0 ++ ((time ∷ 0 ∷ 0 ∷ 0 ∷ []) ++ (replicate 8 0 ++ 0 ∷ [])))

abbrev file : List ℕ
file = block 5 ++ block 9

abbrev start : Run garbage entries rows
start = record {
  block_num = pos 7;
  txcounter = 3;
  ledger = record { tx_db = []; world = record { state = []; entitychange_v = [] }; entitycnt = 0 };
}

abbrev stop_state : Run garbage entries rows
stop_state = record { block_num = pos 9; txcounter = 3; ledger = start.ledger }

first_run : block_loop garbage entries rows 4 file 5 0 start ≡ stopped 89 stop_state
unfolding block_loop block_step step_of read_block one_block body_size body_at next_pos is_good
    head_of block_at transactions_loop block_process read_var_len read_u8 read_bytes saved succ pred
    word
first_run = refl

-- The second run reads the second block.
second_run :
    block_loop garbage entries rows 4 file 9 89 (saved garbage entries rows stop_state)
    ≡ end_of_file 178 (record { block_num = pos 9; txcounter = 3; ledger = start.ledger })
unfolding block_loop block_step step_of read_block one_block body_size body_at next_pos is_good
    head_of block_at transactions_loop block_process read_var_len read_u8 read_bytes saved succ pred
    word
second_run = refl

second_ends :
    block_loop garbage entries rows 100 file 9 89 (saved garbage entries rows stop_state)
    ≢ out_of_fuel
second_ends =
    block_loop-enough garbage entries rows 100 file 9 89 (saved garbage entries rows stop_state)
      (omega arith) (omega arith) (omega arith)

block_loop-enough_example : block_loop garbage entries rows 179 file 9 0 start ≢ out_of_fuel
block_loop-enough_example =
    block_loop-enough garbage entries rows 179 file 9 0 start (omega arith) (omega arith)
      (omega arith)

block_loop-saved_example :
    block_loop garbage entries rows (4 + 100) file 9 0 start
    ≡ block_loop garbage entries rows 100 file 9 89 (saved garbage entries rows stop_state)
block_loop-saved_example =
    block_loop-saved garbage entries rows file 5 9 100 89 stop_state (omega arith) second_ends 4 0
      start first_run

-- Every block file holds the two blocks.
abbrev same_file : String → Option (List ℕ)
same_file path = some file

same_file-IsSmall : (path : String) → IsSmall (same_file path)
unfolding IsSmall
same_file-IsSmall path = omega arith

stops_at_block : file_loop garbage entries rows same_file 2 5 0 0 0 start ≡ at_stop 0 89 stop_state
unfolding file_loop over_file block_loop block_step step_of read_block one_block body_size body_at
    next_pos is_good head_of block_at transactions_loop block_process read_var_len read_u8
    read_bytes saved succ pred word
stops_at_block = refl

file_loop-saved_example :
    (m : ℕ) × (0 + 2 ≡ 0 + m)
    × (file_loop garbage entries rows same_file 2 9 0 0 0 start
        ≡ file_loop garbage entries rows same_file m 9 0 89 0
            (saved garbage entries rows stop_state))
file_loop-saved_example =
    file_loop-saved garbage entries rows same_file same_file-IsSmall 5 9 (omega arith) 0 89 0
      stop_state 2 0 0 0 start stops_at_block

-- A block whose size is more than the file has left is processed where its transactions are there,
-- and the loop ends behind it.
abbrev cut_short : List ℕ
cut_short =
    (0xf9 ∷ 0xbe ∷ 0xb4 ∷ 0xd9 ∷ 200 ∷ 0 ∷ 0 ∷ 0 ∷ [])
    ++ (replicate 68 0 ++ ((5 ∷ 0 ∷ 0 ∷ 0 ∷ []) ++ (replicate 8 0 ++ 0 ∷ [])))

cut_short_run :
    block_loop garbage entries rows 4 cut_short 5 0 start
    ≡ end_of_file 208 (record { block_num = pos 8; txcounter = 3; ledger = start.ledger })
unfolding block_loop block_step step_of read_block one_block body_size body_at next_pos is_good
    head_of block_at transactions_loop block_process read_var_len read_u8 read_bytes succ word
cut_short_run = refl

-- Where the files end before a block, the number saved is one less than the first.
first_number :
    (saved garbage entries rows
      (record { block_num = pos 0; txcounter = 0; ledger = start.ledger })).block_num
    ≡ negsuc 0
unfolding saved pred
first_number = refl
