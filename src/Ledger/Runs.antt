-- ===== src/Ledger/Runs.antt =====
-- A transaction that spends an output kept in a store of one entry.
use bitcoin_analysis.Common.{
  ℕ, max, ◌+◌, ◌≤◌, ◌≡◌, refl, List, [], ◌∷◌, ◌++◌, some, arith, replicate, reverse,
}
use bitcoin_analysis.Block.Transaction.{Txin}
use bitcoin_analysis.Block.Reader.{read_bytes}
use bitcoin_analysis.Database.{Statement}
use bitcoin_analysis.Entity.Rows.{rows, rows-DatabaseLaws}
use bitcoin_analysis.Ledger.Entries.{entries, entries-KeyValueLaws}
use bitcoin_analysis.Ledger.{
  Tx, State, read_output, read_preout, copy_output, preout_of, transaction_process,
  transaction2_mysql,
}
use bitcoin_analysis.Ledger.Spend.{Spendable}
use bitcoin_analysis.Ledger.Layout.{IsTx}
use bitcoin_analysis.Ledger.Process.{
  Ready, Done, transaction_process-Done, transaction2_mysql-balanced,
}

abbrev spent_key : List ℕ
spent_key = replicate 32 5

abbrev owner : List ℕ
owner = replicate 20 1

-- A record without inputs, of one output.
abbrev spent_value : List ℕ
spent_value = replicate 20 0 ++ (1 ∷ 0 ∷ 0 ∷ 0 ∷ [] ++ (owner ++ (50 ∷ replicate 7 0)))

abbrev state : State entries rows
state = record {
  tx_db = (spent_key, spent_value) ∷ [];
  world = record { state = (owner, 7) ∷ []; entitychange_v = [] };
  entitycnt = 7;
}

abbrev spend : Txin
spend = record { hash = replicate 32 5; index = 0; script_length = 0; script = []; seq = 0 }

abbrev tx : Tx
tx = record {
  blocknumber = 1;
  txtime = 1231006505;
  txcounter = 2;
  tx_length = 100;
  curhash = replicate 32 9;
  in_count = 1;
  ins = spend ∷ [];
  out_count = 2;
  outs = record { val = 20; address = replicate 20 3 } ∷ record { val = 30; address = owner } ∷ [];
}

spend-Spendable : Spendable entries rows rows-DatabaseLaws state.tx_db state.world.state spend
unfolding read_output preout_of read_preout copy_output read_bytes Spendable
spend-Spendable = (owner ++ (50 ∷ replicate 7 0), refl, refl, (7, refl))

tx-Ready : Ready entries entries-KeyValueLaws rows rows-DatabaseLaws tx state
tx-Ready = record {
  spendable = (spend-Spendable, tt);
  some_input = omega arith;
  room = omega arith;
}

tx-IsTx : IsTx tx
tx-IsTx = record {
  in_size = refl;
  out_size = refl;
  addresses = (refl, (refl, tt));
  fits = omega arith;
}

transaction_process-Done_example :
    (s1 : State entries rows) × (transaction_process entries rows tx state ≡ some s1)
    × Done entries entries-KeyValueLaws rows rows-DatabaseLaws tx state s1
transaction_process-Done_example =
    transaction_process-Done entries entries-KeyValueLaws rows rows-DatabaseLaws tx state tx-IsTx
      tx-Ready

transaction2_mysql-balanced_example :
    (invalue fee : ℕ) × (transaction2_mysql tx 60 50
      ≡ Statement.insert_txinfo
          (reverse tx.curhash)
          tx.txcounter
          tx.blocknumber
          tx.txtime
          tx.tx_length
          fee
          tx.in_count
          invalue
          tx.out_count
          50)
    × (invalue ≡ max 60 50)
    × (invalue ≡ 50 + fee)
    × (60 ≤ 50 → fee ≡ 0)
transaction2_mysql-balanced_example = transaction2_mysql-balanced tx 60 50
