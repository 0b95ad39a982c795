-- ===== src/Ledger/Layout.antt =====
-- The bytes of the record that TransactionProcess of BitcoinAnalysis/TransactionProcess.h stores.
use bitcoin_analysis.Common.{
  ℕ, ◌+◌, ◌*◌, ◌<◌, ◌^◌, ◌≡◌, refl, ap, ◌∙◌, List, [], ◌∷◌, ◌++◌, append_assoc, some, arith, length,
  take, All, All-before, All-behind, length-append, take_all,
}
use mathlib.Core.Path.{subst}
use bitcoin_analysis.Block.Reader.RoundTrip.{le_bytes}
use bitcoin_analysis.Database.{Database, DatabaseLaws}
use bitcoin_analysis.Entity.{World}
use bitcoin_analysis.Ledger.{
  KeyValue, Paid, Tx, bytes_read, read_preout, header_bytes, value_len, Inputs, Outputs, State,
  outputs_of,
}
use bitcoin_analysis.Ledger.Record.{paid, paid_bytes, IsPaid, length-paid_bytes, read_preout-paid}
use bitcoin_analysis.Ledger.Spend.{Gathered}
use bitcoin_analysis.Ledger.Pay.{outputs_loop-paid_bytes}

-- A transaction as the parser leaves it, small enough for a record of less than 2^32 bytes.
pub record IsTx (tx : Tx) : Type 0 where
  pub in_size : length tx.ins ≡ tx.in_count
  pub out_size : length tx.outs ≡ tx.out_count
  pub addresses : All IsPaid tx.outs
  pub fits : 24 + 28 * tx.in_count + 28 * tx.out_count < 2 ^ 32

module _ (kv : KeyValue) (db : Database) (laws : DatabaseLaws db) where
  module _ (tx : Tx) (s : State kv db) (h : IsTx tx) where
    abbrev pub outputs_start : Inputs kv db → World db → Outputs kv db
    outputs_start i w = record {
      value = i.value ++ le_bytes 4 tx.out_count;
      outvalue_sum = 0;
      output_address_bv = [];
      world = w;
    }

    -- The record's bytes in the order of the layout.
    pub first_bytes : List ℕ
    first_bytes =
        le_bytes 4 tx.blocknumber
        ++ (le_bytes 4 tx.txtime ++ (le_bytes 4 tx.txcounter ++ le_bytes 4 tx.tx_length))

    abbrev pub layout : List ℕ → List ℕ
    layout preouts =
        (first_bytes ++ (le_bytes 4 tx.in_count ++ preouts))
        ++ (le_bytes 4 tx.out_count ++ paid_bytes tx.outs)

    value-layout :
        (i : Inputs kv db) (w : World db) (n : ℕ)
        → (g : Gathered kv db laws s.world.state (header_bytes tx) n i)
        → (outputs_of kv db tx i w).value ≡ layout g.preouts
    unfolding header_bytes le_bytes first_bytes
    value-layout i w n g =
        outputs_loop-paid_bytes kv db tx.txtime tx.outs (outputs_start i w)
        ∙ append_assoc i.value (le_bytes 4 tx.out_count) (paid_bytes tx.outs)
        ∙ ap (λ t. t ++ (le_bytes 4 tx.out_count ++ paid_bytes tx.outs)) g.value_eq

    length-layout :
        (preouts : List ℕ)
        → length preouts ≡ 28 * tx.in_count
        → length (layout preouts) ≡ value_len tx
    unfolding value_len first_bytes le_bytes
    length-layout preouts e = omega (
      arith,
      e,
      h.in_size,
      h.out_size,
      h.fits,
      length-append (first_bytes ++ (le_bytes 4 tx.in_count ++ preouts))
          (le_bytes 4 tx.out_count ++ paid_bytes tx.outs),
      length-paid_bytes tx.outs h.addresses,
    )

    pub stored_value :
        (i : Inputs kv db) (w : World db) (n : ℕ)
        → (g : Gathered kv db laws s.world.state (header_bytes tx) n i) → n ≡ tx.in_count
        → take (value_len tx) (outputs_of kv db tx i w).value ≡ layout g.preouts
    stored_value i w n g e =
        ap (take (value_len tx)) (value-layout i w n g)
        ∙ take_all (value_len tx) (layout g.preouts)
            (omega (arith, length-layout g.preouts (g.value_size ∙ ap (λ (k : ℕ). 28 * k) e)))

    start_size : length first_bytes ≡ 16
    unfolding first_bytes le_bytes
    start_size = refl

    pub read_back :
        (preouts : List ℕ) (before after : List Paid) (o : Paid)
        → length preouts ≡ 28 * tx.in_count
        → tx.outs ≡ before ++ o ∷ after
        → bytes_read (read_preout (length before) (layout preouts)) ≡ some (paid o)
    read_back preouts before after o e split =
        let parts : All IsPaid (before ++ o ∷ after) =
          subst (λ l. All IsPaid l) split h.addresses in
        let total : length tx.outs ≡ length before + length (o ∷ after) =
          ap length split ∙ length-append before (o ∷ after) in
        ap
          (λ l. bytes_read (
            read_preout (length before) (
              (first_bytes ++ (le_bytes 4 tx.in_count ++ preouts))
              ++ (le_bytes 4 tx.out_count ++ paid_bytes l))))
          split
        ∙ read_preout-paid first_bytes preouts tx.in_count tx.out_count before after o start_size e
            (All-before IsPaid before (o ∷ after) parts)
            (All-behind IsPaid before (o ∷ after) parts).0 (omega (arith, h.fits))
            (omega (arith, h.fits, h.out_size, total))
