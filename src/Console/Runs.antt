-- ===== src/Console/Runs.antt =====
-- The parameters of a month, and a run without block files.
use Prim.Native.String.{String}
use bitcoin_analysis.Common.{ℕ, ◌≡◌, refl, List, [], Option, none, some, replicate}
use bitcoin_analysis.Common.Integers.{pos}
use bitcoin_analysis.Statistics.{Query}
use bitcoin_analysis.Statistics.Stream.{Answer, cell}
use bitcoin_analysis.Entity.Rows.{rows}
use bitcoin_analysis.Ledger.Entries.{entries}
use bitcoin_analysis.Period.{Parameters, set_parameter}
use bitcoin_analysis.Unzip.{saved}
use bitcoin_analysis.Unzip.Files.{Parameter, unzip_blocks, file_loop, over_file, finish, updated}

abbrev garbage : List ℕ
garbage = replicate 64 0

abbrev no_files : String → Option (List ℕ)
no_files path = none

abbrev start : Parameter garbage entries rows
start = record {
  blkfile = 3;
  blkpos = 0;
  run = record {
    block_num = pos 7;
    txcounter = 3;
    ledger = record {
      tx_db = [];
      world = record { state = []; entitychange_v = [] };
      entitycnt = 0;
    };
  };
}

abbrev end : Parameter garbage entries rows
end = record {
  blkfile = 218;
  blkpos = 0;
  run = saved garbage entries rows (updated garbage entries rows start.run);
}

start-end : unzip_blocks garbage entries rows no_files 0 start ≡ some end
unfolding unzip_blocks file_loop over_file finish
start-end = refl

abbrev september_2010 : Parameters
september_2010 = record {
  stopyear = 2010;
  stopmon = 9;
  stopday = 30;
  timerange = "2010-09";
  before_time = "2010-06-30-00-00-00";
  after_time = "2010-09-01-00-00-00";
}

first_month : set_parameter 20 ≡ some september_2010
unfolding set_parameter
first_month = refl

abbrev midnight : ℕ → ℕ → ℕ → ℕ
midnight y m d = 0

abbrev seven : rows.State → String → String → Query → Answer ℕ
seven s before after q = cell 7
