-- ===== src/Block/Transaction/RoundTrip.antt =====
-- The reading loop of BitcoinAnalysis/unzipBlocks.h against the wire format.
use bitcoin_analysis.Common.{ℕ, zero, suc, ◌≡◌, List, [], ◌∷◌, arith, length, All}
use bitcoin_analysis.Block.Reader.{Reader, read_hash, read_buffer_advance}
use bitcoin_analysis.Block.Reader.RoundTrip.{
  Reads, Reads-pure, Reads->>=, Reads-read_bytes, Reads-read_u32, Reads-read_u64,
  read_var_len-compact_size,
}
use bitcoin_analysis.Block.Transaction.{
  Txin, Txout, Transaction, read_txin, read_txout, read_many, read_transaction,
}
use bitcoin_analysis.Block.Transaction.Wire.{
  txin_bytes, txout_bytes, concat_map, transaction_bytes, IsTxin, IsTxout, IsTransaction,
}

Reads-read_txin : (i : Txin) → IsTxin i → Reads read_txin (txin_bytes i) i
unfolding read_txin txin_bytes read_hash read_buffer_advance
Reads-read_txin i h = Reads->>= _ _ _ _ _ _ (Reads-read_bytes 32 i.hash h.hash_size) (
    Reads->>= _ _ _ _ _ _ (Reads-read_u32 i.index h.index_fits) (
      Reads->>= _ _ _ _ _ _ (read_var_len-compact_size i.script_length h.script_fits) (
        Reads->>= _ _ _ _ _ _ (Reads-read_bytes i.script_length i.script h.script_size)
          (Reads->>= _ _ _ _ _ _ (Reads-read_u32 i.seq h.seq_fits) (Reads-pure i)))))

Reads-read_txout : (o : Txout) → IsTxout o → Reads read_txout (txout_bytes o) o
unfolding read_txout txout_bytes read_buffer_advance
Reads-read_txout o h = Reads->>= _ _ _ _ _ _ (Reads-read_u64 o.val h.val_fits) (
    Reads->>= _ _ _ _ _ _ (read_var_len-compact_size o.script_length h.script_fits) (
      Reads->>= _ _ _ _ _ _ (Reads-read_bytes o.script_length o.script h.script_size)
        (Reads-pure o)))

module _ {A : Type 0} (m : Reader A) (f : A → List ℕ) {P : A → Type 0}
    (reads : (a : A) → P a → Reads m (f a) a) where
  Reads-read_many :
      (n : ℕ) (xs : List A) → length xs ≡ n → All P xs → Reads (read_many m n) (concat_map f xs) xs
  unfolding read_many concat_map
  Reads-read_many zero [] e h = Reads-pure []
  Reads-read_many zero (x ∷ xs) e h = absurd (omega arith)
  Reads-read_many (suc n) [] e h = absurd (omega arith)
  Reads-read_many (suc n) (x ∷ xs) e h =
      Reads->>= _ _ _ _ _ _ (reads x h.0)
        (Reads->>= _ _ _ _ _ _ (Reads-read_many n xs (omega arith) h.1) (Reads-pure (x ∷ xs)))

-- A transaction whose fields fit the C++ structs, in the wire format anywhere in the buffer, is
-- read back field by field, every input and output included, and the position moves behind it.
pub read_transaction-transaction_bytes :
    (tx : Transaction) → IsTransaction tx → Reads read_transaction (transaction_bytes tx) tx
unfolding read_transaction transaction_bytes
read_transaction-transaction_bytes tx h = Reads->>= _ _ _ _ _ _ (Reads-read_u32 tx.ver h.ver_fits) (
    Reads->>= _ _ _ _ _ _ (read_var_len-compact_size tx.in_count h.in_fits) (
      Reads->>= _ _ _ _ _ _
        (Reads-read_many read_txin txin_bytes Reads-read_txin tx.in_count tx.ins h.in_size
          h.ins_fit)
        (Reads->>= _ _ _ _ _ _ (read_var_len-compact_size tx.out_count h.out_fits) (
          Reads->>= _ _ _ _ _ _
            (Reads-read_many read_txout txout_bytes Reads-read_txout tx.out_count tx.outs h.out_size
              h.outs_fit)
            (Reads->>= _ _ _ _ _ _ (Reads-read_u32 tx.lock_time h.lock_fits) (Reads-pure tx))))))
