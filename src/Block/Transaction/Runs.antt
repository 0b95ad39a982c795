-- ===== src/Block/Transaction/Runs.antt =====
-- The reading loop on the bytes of a small transaction.
use bitcoin_analysis.Common.{◌≡◌, refl, [], ◌∷◌, some, arith, replicate}
use bitcoin_analysis.Block.Reader.{read_var_len, read_u8, read_bytes}
use bitcoin_analysis.Block.Reader.RoundTrip.{Reads, compact_size, read_var_len-compact_size}
use bitcoin_analysis.Block.Transaction.{Txin, Txout, Transaction, read_transaction}
use bitcoin_analysis.Block.Transaction.Wire.{transaction_bytes, IsTxin, IsTxout, IsTransaction}
use bitcoin_analysis.Block.Transaction.RoundTrip.{read_transaction-transaction_bytes}

abbrev spend : Txin
spend = record {
  hash = replicate 32 7;
  index = 1;
  script_length = 2;
  script = 5 ∷ 6 ∷ [];
  seq = 0xffffffff;
}

abbrev pay : Txout
pay = record { val = 5000000000; script_length = 1; script = 9 ∷ [] }

abbrev small : Transaction
small = record {
  ver = 1;
  in_count = 1;
  ins = spend ∷ [];
  out_count = 2;
  outs = pay ∷ pay ∷ [];
  lock_time = 0;
}

spend-IsTxin : IsTxin spend
spend-IsTxin = record {
  hash_size = refl;
  index_fits = omega arith;
  script_fits = omega arith;
  script_size = refl;
  seq_fits = omega arith;
}

pay-IsTxout : IsTxout pay
pay-IsTxout = record { val_fits = omega arith; script_fits = omega arith; script_size = refl }

small-IsTransaction : IsTransaction small
small-IsTransaction = record {
  ver_fits = omega arith;
  in_fits = omega arith;
  in_size = refl;
  ins_fit = (spend-IsTxin, tt);
  out_fits = omega arith;
  out_size = refl;
  outs_fit = (pay-IsTxout, (pay-IsTxout, tt));
  lock_fits = omega arith;
}

read_transaction-transaction_bytes_example : Reads read_transaction (transaction_bytes small) small
read_transaction-transaction_bytes_example =
    read_transaction-transaction_bytes small small-IsTransaction

read_var_len-compact_size_example : Reads read_var_len (compact_size 70000) 70000
read_var_len-compact_size_example = read_var_len-compact_size 70000 (omega arith)

-- A count of nine bytes is read as 0, and its eight bytes stay.
nine_bytes : read_var_len (0xff ∷ 0 ∷ 0 ∷ 0 ∷ 0 ∷ 1 ∷ 0 ∷ 0 ∷ 0 ∷ []) 0 ≡ some (0, 1)
unfolding read_var_len read_u8 read_bytes
nine_bytes = refl
