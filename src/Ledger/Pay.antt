-- ===== src/Ledger/Pay.antt =====
-- The loop over outputs of BitcoinAnalysis/TransactionProcess.h: what it writes into the record,
-- and the rows that it leaves for the output addresses.
use bitcoin_analysis.Common.{
  ℕ, ◌≡◌, sym, ◌∙◌, List, [], ◌∷◌, ◌++◌, append_assoc, append-nil, map, All, All-append, All-imply,
  Bool-cases, inl, inr, value_or,
}
use mathlib.Core.Path.{subst}
use bitcoin_analysis.Database.{Database, DatabaseLaws}
use bitcoin_analysis.Entity.{World, same_bytes}
use bitcoin_analysis.Entity.Bytes.{same_bytes-eq, same_bytes-differ}
use bitcoin_analysis.Entity.Assign.{HasRow}
use bitcoin_analysis.Ledger.{
  KeyValue, Paid, output_transaction_mysql, Outputs, gather_output, outputs_loop,
}
use bitcoin_analysis.Ledger.Record.{paid, paid_bytes}

module _ (kv : KeyValue) (db : Database) (laws : DatabaseLaws db) where
  -- An output's statements make a row for its address.
  row_made :
      (a : List ℕ) (value time : ℕ) (w : World db)
      → HasRow db laws (output_transaction_mysql kv db a value time w).state a
  unfolding output_transaction_mysql
  row_made a value time w = (
    value_or (db.entity_of a w.state) 0,
    laws.raise_maxbal_law a a _ ∙ laws.add_output_law a value time w.state,
  )

  -- Rows stay.
  row_stays :
      (a : List ℕ) (value time : ℕ) (w : World db) (x : List ℕ)
      → HasRow db laws w.state x
      → HasRow db laws (output_transaction_mysql kv db a value time w).state x
  unfolding output_transaction_mysql
  row_stays a value time w x row = elim (Bool-cases (same_bytes a x)) [
    | inl same ↦
        subst (λ y. HasRow db laws (output_transaction_mysql kv db a value time w).state y)
          (same_bytes-eq a x same) (row_made a value time w)
    | inr differ ↦ (
      row.0,
      laws.raise_maxbal_law a x _
          ∙ laws.add_output_other_law a x value time w.state (same_bytes-differ a x differ)
          ∙ row.1,
    )
  ]

  pub outputs_loop-HasRow :
      (time : ℕ) (outs : List Paid) (st : Outputs kv db)
      → All (HasRow db laws st.world.state) st.output_address_bv
      → All
          (HasRow db laws (outputs_loop kv db time outs st).world.state)
          (outputs_loop kv db time outs st).output_address_bv
  unfolding outputs_loop
  outputs_loop-HasRow time [] st h = h
  outputs_loop-HasRow time (o ∷ outs) st h =
      outputs_loop-HasRow time outs (gather_output kv db time o st) (
        All-append (HasRow db laws (gather_output kv db time o st).world.state) st.output_address_bv
          (o.address ∷ [])
          (All-imply (λ x row. row_stays o.address o.val time st.world x row) st.output_address_bv
            h)
          (row_made o.address o.val time st.world, tt))

module _ (kv : KeyValue) (db : Database) (time : ℕ) where
  pub outputs_loop-paid_bytes :
      (outs : List Paid) (st : Outputs kv db)
      → (outputs_loop kv db time outs st).value ≡ st.value ++ paid_bytes outs
  unfolding outputs_loop paid_bytes
  outputs_loop-paid_bytes [] st = sym (append-nil st.value)
  outputs_loop-paid_bytes (o ∷ outs) st =
      outputs_loop-paid_bytes outs (gather_output kv db time o st)
      ∙ append_assoc st.value (paid o) (paid_bytes outs)

  pub outputs_loop-address :
      (outs : List Paid) (st : Outputs kv db)
      → (outputs_loop kv db time outs st).output_address_bv
        ≡ st.output_address_bv ++ map (λ (o : Paid). o.address) outs
  unfolding outputs_loop
  outputs_loop-address [] st = sym (append-nil st.output_address_bv)
  outputs_loop-address (o ∷ outs) st =
      outputs_loop-address outs (gather_output kv db time o st)
      ∙ append_assoc st.output_address_bv (o.address ∷ []) (map (λ (o : Paid). o.address) outs)
