-- ===== src/Block/Transaction.antt =====
-- The records of BitcoinAnalysis/block.h and the part of the loop of BitcoinAnalysis/unzipBlocks.h
-- that reads one transaction. The bytes that `new` and `push_back` keep are the lists; the fields
-- that the blockchain does not hold are filled as the loop fills them.
pub mod Wire
pub mod RoundTrip
mod Runs
use bitcoin_analysis.Common.{
  ℕ, zero, suc, ◌+◌, ◌-◌, ◌*◌, List, [], ◌∷◌, ◌==◌, if◌then◌else◌, u64, take, drop,
}
use bitcoin_analysis.Block.Reader.{
  Reader, pure, ◌>>=◌, read_u32, read_u64, read_hash, read_var_len, read_buffer_advance,
}

pub record Txin : Type 0 where
  pub hash : List ℕ
  pub index : ℕ
  pub script_length : ℕ
  pub script : List ℕ
  pub seq : ℕ

-- `address` is filled from the script by outAddress.
pub record Txout : Type 0 where
  pub val : ℕ
  pub script_length : ℕ
  pub script : List ℕ

-- The fields that the blockchain holds.
pub record Transaction : Type 0 where
  pub ver : ℕ
  pub in_count : ℕ
  pub ins : List Txin
  pub out_count : ℕ
  pub outs : List Txout
  pub lock_time : ℕ

unfoldable pub read_txin : Reader Txin
read_txin = do
  hash ← read_hash
  index ← read_u32
  script_length ← read_var_len
  script ← read_buffer_advance script_length
  seq ← read_u32
  pure (record {
    hash = hash;
    index = index;
    script_length = script_length;
    script = script;
    seq = seq;
  })

unfoldable pub read_txout : Reader Txout
read_txout = do
  val ← read_u64
  script_length ← read_var_len
  script ← read_buffer_advance script_length
  pure (record { val = val; script_length = script_length; script = script })

-- A `for` loop that reads `count` elements, each pushed behind those before it.
unfoldable pub read_many : {A : Type 0} → Reader A → ℕ → Reader (List A)
read_many m zero = pure []
read_many m (suc count) = do x ← m; xs ← read_many m count; pure (x ∷ xs)

unfoldable pub read_transaction : Reader Transaction
read_transaction = do
  ver ← read_u32
  in_count ← read_var_len
  ins ← read_many read_txin in_count
  out_count ← read_var_len
  outs ← read_many read_txout out_count
  lock_time ← read_u32
  pure (record {
    ver = ver;
    in_count = in_count;
    ins = ins;
    out_count = out_count;
    outs = outs;
    lock_time = lock_time;
  })
