-- ===== src/Unzip/Decoded.antt =====
-- The loops of BitcoinAnalysis/unzipBlocks.h over the bytes of a block against the transactions
-- that the block holds.
use bitcoin_analysis.Common.{
  ℕ, zero, suc, ◌+◌, ◌-◌, ◌<◌, ◌^◌, ◌≡◌, refl, sym, ap, ◌∙◌, List, [], ◌∷◌, ◌++◌, append_assoc,
  append-nil, Option, none, some, ◌==◌, if◌then◌else◌, length, All, arith, u16, take-append_eq,
  drop-append_eq, length-append,
}
use bitcoin_analysis.Block.Reader.RoundTrip.{Reads}
use bitcoin_analysis.Block.Transaction.{Transaction, read_transaction}
use bitcoin_analysis.Block.Transaction.RoundTrip.{read_transaction-transaction_bytes}
use bitcoin_analysis.Block.Transaction.Wire.{concat_map, transaction_bytes, IsTransaction}
use bitcoin_analysis.Database.{Database}
use bitcoin_analysis.Ledger.{KeyValue, State}
use bitcoin_analysis.Unzip.Wire.{reward_after, wire_tx, process_all}
use bitcoin_analysis.Unzip.{
  sum_outputs, block_reward, Progress, tx_of, processed, moved_on, transaction_step,
  transactions_loop,
}

module _ (garbage : List ℕ) (kv : KeyValue) (db : Database) where
  module _ (blocknumber time_stamp : ℕ) where
    abbrev pub after :
        Progress garbage kv db
        → List Transaction
        → Option (State kv db)
        → Option (Progress garbage kv db)
    after p txs none = none
    after p txs (some s) = some (record {
      trans_pos = p.trans_pos + length (concat_map transaction_bytes txs);
      tx_num = p.tx_num + length txs;
      txcounter = p.txcounter + length txs;
      reward = reward_after blocknumber p.reward p.tx_num txs;
      ledger = s;
    })

    tx_of-wire_tx :
        (front rest : List ℕ) (p : Progress garbage kv db) (t : Transaction)
        → length front ≡ p.trans_pos
        → tx_of garbage kv db blocknumber time_stamp
            (front ++ (transaction_bytes t ++ rest))
            p
            t
            (p.trans_pos + length (transaction_bytes t))
          ≡ wire_tx garbage kv db blocknumber time_stamp p.txcounter t
    unfolding tx_of wire_tx
    tx_of-wire_tx front rest p t e =
        let size : (p.trans_pos + length (transaction_bytes t)) - p.trans_pos
            ≡ length (transaction_bytes t) =
          omega arith in
        rw
          (
            size,
            drop-append_eq front (transaction_bytes t ++ rest) p.trans_pos e,
            take-append_eq (transaction_bytes t) rest (length (transaction_bytes t)) refl,
          )
          refl

    abbrev moved : Progress garbage kv db → Transaction → State kv db → Progress garbage kv db
    moved p t s = record {
      trans_pos = p.trans_pos + length (transaction_bytes t);
      tx_num = u16 (p.tx_num + 1);
      txcounter = p.txcounter + 1;
      reward = if p.tx_num == 0 then block_reward blocknumber (sum_outputs t.outs) else p.reward;
      ledger = s;
    }

    reward_after-first :
        (reward k : ℕ) (t : Transaction) (txs : List Transaction)
        → reward_after blocknumber
            (if k == 0 then block_reward blocknumber (sum_outputs t.outs) else reward)
            (suc k)
            txs
          ≡ reward_after blocknumber reward k (t ∷ txs)
    unfolding reward_after
    reward_after-first reward zero t txs = refl
    reward_after-first reward (suc k) t txs = ground arith

    add_zero : (n : ℕ) → n ≡ n + 0
    add_zero n = omega arith

    reward_after-nil : (reward k : ℕ) → reward ≡ reward_after blocknumber reward k []
    unfolding reward_after
    reward_after-nil reward zero = refl
    reward_after-nil reward (suc k) = refl

    length-concat_map :
        (t : Transaction) (txs : List Transaction)
        → length (concat_map transaction_bytes (t ∷ txs))
          ≡ length (transaction_bytes t) + length (concat_map transaction_bytes txs)
    unfolding concat_map
    length-concat_map t txs =
        length-append (transaction_bytes t) (concat_map transaction_bytes txs ++ [])
        ∙ ap (λ l. length (transaction_bytes t) + length l)
            (append-nil (concat_map transaction_bytes txs))

    after-moved :
        (p : Progress garbage kv db) (t : Transaction) (txs : List Transaction) (s : State kv db)
        (r : Option (State kv db))
        → p.tx_num + 1 < 2 ^ 16
        → after (moved p t s) txs r ≡ after p (t ∷ txs) r
    after-moved p t txs s none h = refl
    after-moved p t txs s (some s1) h =
        let number : u16 (p.tx_num + 1) ≡ suc p.tx_num = omega arith in
        let positions : (p.trans_pos + length (transaction_bytes t))
              + length (concat_map transaction_bytes txs)
            ≡ p.trans_pos + length (concat_map transaction_bytes (t ∷ txs)) =
          omega (arith, length-concat_map t txs) in
        let numbers : u16 (p.tx_num + 1) + length txs ≡ p.tx_num + suc (length txs) = omega arith in
        let counters : (p.txcounter + 1) + length txs ≡ p.txcounter + suc (length txs) =
          omega arith in
        let rewards =
          ap (λ k. reward_after blocknumber (moved p t s).reward k txs) number
          ∙ reward_after-first p.reward p.tx_num t txs in
        λ i. some (record {
          trans_pos = positions i;
          tx_num = numbers i;
          txcounter = counters i;
          reward = rewards i;
          ledger = s1;
        })

    abbrev go_on : ℕ → List ℕ → Option (Progress garbage kv db) → Option (Progress garbage kv db)
    go_on k trans_sec o = elim o [
      | none ↦ none
      | some next ↦ transactions_loop garbage kv db k blocknumber time_stamp trans_sec next
    ]

    abbrev process_rest : List Transaction → ℕ → Option (State kv db) → Option (State kv db)
    process_rest txs txcounter o = elim o [
      | none ↦ none
      | some next ↦ process_all garbage kv db blocknumber time_stamp txs txcounter next
    ]

    -- One step reads the transaction that stands at the position.
    transaction_step-moved_on :
        (front rest : List ℕ) (p : Progress garbage kv db) (t : Transaction)
        → length front ≡ p.trans_pos
        → IsTransaction t
        → transaction_step garbage kv db blocknumber time_stamp
            (front ++ (transaction_bytes t ++ rest))
            p
            (read_transaction (front ++ (transaction_bytes t ++ rest)) p.trans_pos)
          ≡ moved_on garbage kv db blocknumber p t (p.trans_pos + length (transaction_bytes t)) (
              processed garbage kv db
                (wire_tx garbage kv db blocknumber time_stamp p.txcounter t)
                p.ledger)
    unfolding transaction_step Reads
    transaction_step-moved_on front rest p t e h =
        ap
          (transaction_step garbage kv db blocknumber time_stamp
            (front ++ (transaction_bytes t ++ rest)) p)
          (read_transaction-transaction_bytes t h front rest p.trans_pos e)
        ∙ ap
            (λ tx.
              moved_on garbage kv db blocknumber p t (p.trans_pos + length (transaction_bytes t))
                (processed garbage kv db tx p.ledger))
            (tx_of-wire_tx front rest p t e)

    bytes-behind :
        (front rest : List ℕ) (t : Transaction) (txs : List Transaction)
        → front ++ (concat_map transaction_bytes (t ∷ txs) ++ rest)
          ≡ front ++ (transaction_bytes t ++ (concat_map transaction_bytes txs ++ rest))
    unfolding concat_map
    bytes-behind front rest t txs =
        ap (λ l. front ++ l)
          (append_assoc (transaction_bytes t) (concat_map transaction_bytes txs ++ []) rest
            ∙ ap (λ l. transaction_bytes t ++ (l ++ rest))
                (append-nil (concat_map transaction_bytes txs)))

    -- The loop from a position on, where the bytes of the transactions stand.
    unfoldable pub Decodes : List Transaction → Type 0
    Decodes txs =
        (front rest : List ℕ) (p : Progress garbage kv db)
        → length front ≡ p.trans_pos
        → p.tx_num + length txs < 2 ^ 16
        → transactions_loop garbage kv db (length txs) blocknumber time_stamp
            (front ++ (concat_map transaction_bytes txs ++ rest)) p
          ≡ after p txs (process_all garbage kv db blocknumber time_stamp txs p.txcounter p.ledger)

    loop-after_step :
        (txs : List Transaction) (front rest : List ℕ) (p : Progress garbage kv db)
        (t : Transaction) (o : Option (State kv db))
        → Decodes txs
        → length front ≡ p.trans_pos
        → p.tx_num + suc (length txs) < 2 ^ 16
        → go_on
            (length txs)
            (front ++ (transaction_bytes t ++ (concat_map transaction_bytes txs ++ rest)))
            (moved_on garbage kv db blocknumber p t (p.trans_pos + length (transaction_bytes t)) o)
          ≡ after p (t ∷ txs) (process_rest txs (p.txcounter + 1) o)
    unfolding Decodes
    loop-after_step txs front rest p t none ih e h = refl
    loop-after_step txs front rest p t (some s) ih e h =
        ap
          (λ l. transactions_loop garbage kv db (length txs) blocknumber time_stamp l (moved p t s))
          (sym
            (append_assoc front (transaction_bytes t) (concat_map transaction_bytes txs ++ rest)))
        ∙ ih (front ++ transaction_bytes t) rest (moved p t s)
            (omega (arith, e, length-append front (transaction_bytes t))) (omega arith)
        ∙ after-moved p t txs s
            (process_all garbage kv db blocknumber time_stamp txs (p.txcounter + 1) s) (omega arith)

    pub transactions_loop-process_all :
        (txs : List Transaction) → All IsTransaction txs → Decodes txs
    unfolding Decodes transactions_loop process_all concat_map
    transactions_loop-process_all [] all front rest p e h = λ i. some (record {
      trans_pos = add_zero p.trans_pos i;
      tx_num = add_zero p.tx_num i;
      txcounter = add_zero p.txcounter i;
      reward = reward_after-nil p.reward p.tx_num i;
      ledger = p.ledger;
    })
    transactions_loop-process_all (t ∷ txs) all front rest p e h =
        ap (λ l. transactions_loop garbage kv db (suc (length txs)) blocknumber time_stamp l p)
          (bytes-behind front rest t txs)
        ∙ ap
            (go_on (length txs)
              (front ++ (transaction_bytes t ++ (concat_map transaction_bytes txs ++ rest))))
            (transaction_step-moved_on front (concat_map transaction_bytes txs ++ rest) p t e all.0)
        ∙ loop-after_step txs front rest p t _ (transactions_loop-process_all txs all.1) e h
