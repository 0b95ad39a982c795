-- ===== src/Unzip/Files.antt =====
-- The loop of BitcoinAnalysis/unzipBlocks.h over the block files, and what a run reads and leaves.
-- The files are a parameter, from the paths of Period.Names to their bytes, and so is mktime.
use Prim.Native.String.{String}
use bitcoin_analysis.Common.{ℕ, zero, suc, ◌-◌, List, Option, none, some, length, get_or}
use bitcoin_analysis.Database.{Database}
use bitcoin_analysis.Entity.{update_entity_mysql}
use bitcoin_analysis.Ledger.{KeyValue}
use bitcoin_analysis.Period.Names.{blkname}
use bitcoin_analysis.Unzip.{
  Run, Outcome, out_of_fuel, failed, end_of_file, stopped, block_loop, saved,
}

module _ (garbage : List ℕ) (kv : KeyValue) (db : Database) where
  -- A file that cannot be opened has no byte to look at. One round more than the file has bytes is
  -- enough, if they are less than 2^31.
  unfoldable pub over_file : Option (List ℕ) → ℕ → ℕ → Run garbage kv db → Outcome garbage kv db
  over_file none stop block_pos r = end_of_file block_pos r
  over_file (some file) stop block_pos r =
      block_loop garbage kv db (suc (length file)) file stop block_pos r

  -- How the loop ends: with the number of the file, the position in it and the counters, where the
  -- files have ended or a block is behind the stop time.
  pub data Finish : Type 0 where
    unfinished crashed : Finish
    out_of_files at_stop : ℕ → ℕ → Run garbage kv db → Finish

  -- What 1.unzip_0.txt holds, with the tables: the file and the position to go on from.
  pub record Parameter : Type 0 where
    pub blkfile : ℕ
    pub blkpos : ℕ
    pub run : Run garbage kv db

  -- The entities are updated at the end of a run.
  unfoldable pub updated : Run garbage kv db → Run garbage kv db
  updated r = record {
    block_num = r.block_num;
    txcounter = r.txcounter;
    ledger = record {
      tx_db = r.ledger.tx_db;
      world = update_entity_mysql db r.ledger.world;
      entitycnt = r.ledger.entitycnt;
    };
  }

  abbrev pub left : ℕ → ℕ → Run garbage kv db → Option Parameter
  left blkfile_num block_pos r =
      some (record {
        blkfile = blkfile_num;
        blkpos = block_pos;
        run = saved garbage kv db (updated r);
      })

  unfoldable pub finish : Finish → Option Parameter
  finish unfinished = none
  finish crashed = none
  finish (out_of_files blkfile_num block_pos r) = left blkfile_num block_pos r
  finish (at_stop blkfile_num block_pos r) = left blkfile_num block_pos r

module _ (garbage : List ℕ) (kv : KeyValue) (db : Database) (files : String → Option (List ℕ)) where
  -- The files from `blkfile_num` on, `k` of them; the first is read from `start`, and `block_pos` is
  -- what the file before has left.
  unfoldable pub file_loop : ℕ → ℕ → ℕ → ℕ → ℕ → Run garbage kv db → Finish garbage kv db
  file_loop zero stop blkfile_num start block_pos r = out_of_files blkfile_num block_pos r
  file_loop (suc k) stop blkfile_num start block_pos r =
      elim (over_file garbage kv db (files (get_or blkname blkfile_num "")) stop start r) [
        | out_of_fuel ↦ unfinished
        | failed ↦ crashed
        | end_of_file next_pos next ↦ file_loop k stop (suc blkfile_num) 0 next_pos next
        | stopped next_pos next ↦ at_stop blkfile_num next_pos next
      ]

  -- One run; the block files are the first 218.
  unfoldable pub unzip_blocks : ℕ → Parameter garbage kv db → Option (Parameter garbage kv db)
  unzip_blocks stop p =
      finish garbage kv db (file_loop (218 - p.blkfile) stop p.blkfile p.blkpos 0 p.run)
