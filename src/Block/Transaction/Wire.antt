-- ===== src/Block/Transaction/Wire.antt =====
-- The wire format of a transaction, which the reading loop of BitcoinAnalysis/unzipBlocks.h
-- consumes: the specification that it is compared with.
use bitcoin_analysis.Common.{ℕ, ◌≡◌, ◌<◌, ◌^◌, List, [], ◌∷◌, ◌++◌, length, All}
use bitcoin_analysis.Block.Reader.RoundTrip.{le_bytes, compact_size}
use bitcoin_analysis.Block.Transaction.{Txin, Txout, Transaction}

unfoldable pub txin_bytes : Txin → List ℕ
txin_bytes i =
    i.hash
    ++ (le_bytes 4 i.index
        ++ (compact_size i.script_length ++ (i.script ++ (le_bytes 4 i.seq ++ []))))

unfoldable pub txout_bytes : Txout → List ℕ
txout_bytes o = le_bytes 8 o.val ++ (compact_size o.script_length ++ (o.script ++ []))

unfoldable pub concat_map : {A : Type 0} → (A → List ℕ) → List A → List ℕ
concat_map f [] = []
concat_map f (x ∷ xs) = f x ++ (concat_map f xs ++ [])

unfoldable pub transaction_bytes : Transaction → List ℕ
transaction_bytes tx =
    le_bytes 4 tx.ver
    ++ (compact_size tx.in_count
        ++ (concat_map txin_bytes tx.ins
            ++ (compact_size tx.out_count
                ++ (concat_map txout_bytes tx.outs ++ (le_bytes 4 tx.lock_time ++ [])))))

-- The sizes that the fields of the C++ structs can hold.
pub record IsTxin (i : Txin) : Type 0 where
  pub hash_size : length i.hash ≡ 32
  pub index_fits : i.index < 2 ^ 32
  pub script_fits : i.script_length < 2 ^ 32
  pub script_size : length i.script ≡ i.script_length
  pub seq_fits : i.seq < 2 ^ 32

pub record IsTxout (o : Txout) : Type 0 where
  pub val_fits : o.val < 2 ^ 64
  pub script_fits : o.script_length < 2 ^ 32
  pub script_size : length o.script ≡ o.script_length

pub record IsTransaction (tx : Transaction) : Type 0 where
  pub ver_fits : tx.ver < 2 ^ 32
  pub in_fits : tx.in_count < 2 ^ 32
  pub in_size : length tx.ins ≡ tx.in_count
  pub ins_fit : All IsTxin tx.ins
  pub out_fits : tx.out_count < 2 ^ 32
  pub out_size : length tx.outs ≡ tx.out_count
  pub outs_fit : All IsTxout tx.outs
  pub lock_fits : tx.lock_time < 2 ^ 32
