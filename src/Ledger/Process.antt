-- ===== src/Ledger/Process.antt =====
-- TransactionProcess of BitcoinAnalysis/TransactionProcess.h as a whole.
use bitcoin_analysis.Common.{
  ℕ, max, ◌+◌, ◌*◌, ◌<◌, ◌≤◌, ◌^◌, ◌≡◌, ◌≢◌, refl, sym, ap, ◌∙◌, List, [], ◌∷◌, ◌++◌, append-nil,
  false, some, if◌then◌else◌, arith, length, reverse, map, All, All-imply, replicate, length-map,
}
use mathlib.Core.Path.{subst}
use bitcoin_analysis.Block.Reader.RoundTrip.{le_bytes}
use bitcoin_analysis.Database.{Database, DatabaseLaws, Statement}
use bitcoin_analysis.Entity.{World, same_bytes}
use bitcoin_analysis.Entity.Assign.{Assigned, output_entity_mysql-Assigned}
use bitcoin_analysis.Ledger.{
  KeyValue, KeyValueLaws, Paid, Tx, coinbase_b, read_output, preout_of, bytes_read, read_preout,
  header_bytes, transaction2_mysql, Inputs, Outputs, State, finish, outputs_of, with_entities,
  with_merged, with_inputs, transaction_process,
}
use bitcoin_analysis.Ledger.Spend.{
  Spendable, Gathered, inputs_loop-Gathered, input_entity_mysql-HasRow,
}
use bitcoin_analysis.Ledger.Pay.{outputs_loop-HasRow, outputs_loop-address}
use bitcoin_analysis.Ledger.Layout.{IsTx, outputs_start, stored_value, read_back}

module _ (kv : KeyValue) (kv_laws : KeyValueLaws kv) (db : Database) (laws : DatabaseLaws db) where
  -- The transaction can be processed: it has an input, each input's output is stored and has an
  -- address with a row, and the entity counter does not wrap.
  pub record Ready (tx : Tx) (s : State kv db) : Type 0 where
    pub spendable : All (Spendable kv db laws s.tx_db s.world.state) tx.ins
    pub some_input : 0 < length tx.ins
    pub room : s.entitycnt + length tx.outs < 2 ^ 32

  -- What is left: the record, from which each output is read back, and entities for the outputs.
  pub record Done (tx : Tx) (s s1 : State kv db) : Type 0 where
    pub stored :
        (before after : List Paid) (o : Paid)
        → tx.outs ≡ before ++ o ∷ after
        → same_bytes (reverse tx.curhash) coinbase_b ≡ false
        → read_output kv db (reverse tx.curhash) (length before) s1.tx_db
          ≡ some (o.address ++ le_bytes 8 o.val)
    pub others :
        (key : List ℕ) → reverse tx.curhash ≢ key → kv.get key s1.tx_db ≡ kv.get key s.tx_db
    pub entities :
        All
          (λ x. (e : ℕ) × (db.entity_of x s1.world.state ≡ some e) × (e ≢ 0))
          (map (λ (o : Paid). o.address) tx.outs)
    pub counter : s1.entitycnt ≤ s.entitycnt + length tx.outs

  module _ (tx : Tx) (s : State kv db) (h : IsTx tx) where
    abbrev start : Inputs kv db
    start = record {
      value = header_bytes tx;
      invalue_sum = 0;
      input_address_bv = [];
      world = s.world;
    }

    nothing_yet : Gathered kv db laws s.world.state (header_bytes tx) 0 start
    nothing_yet = record {
      preouts = [];
      value_eq = sym (append-nil (header_bytes tx));
      value_size = omega arith;
      count = refl;
      rows = tt;
      same = λ x. refl;
    }

    record Stages : Type 0 where
      inputs : Inputs kv db
      merged : World db
      counted : ℕ × World db
      gathered : Gathered kv db laws s.world.state (header_bytes tx) (0 + length tx.ins) inputs
      assigned :
          Assigned db
            (outputs_of kv db tx inputs merged).output_address_bv
            s.entitycnt
            (outputs_of kv db tx inputs merged).world
            counted
      returns :
          transaction_process kv db tx s
          ≡ some (finish kv db tx inputs (outputs_of kv db tx inputs merged) s.tx_db counted)

    stages : Ready tx s → Stages
    unfolding transaction_process with_inputs with_merged with_entities
    stages ready =
        let (i, e, g) =
          inputs_loop-Gathered kv db laws tx.txtime s.tx_db s.world.state (header_bytes tx) tx.ins 0
            start ready.spendable nothing_yet in
        let (w, e1) =
          input_entity_mysql-HasRow kv db laws i.input_address_bv i.world
            (omega (arith, g.count, ready.some_input))
            (All-imply (λ x row. (row.0, g.same x ∙ row.1)) i.input_address_bv g.rows) in
        let o : Outputs kv db = outputs_of kv db tx i w in
        let (r, e2, a) =
          output_entity_mysql-Assigned db laws o.output_address_bv s.entitycnt o.world
            (omega (
              arith,
              ap length (
                  outputs_loop-address kv db tx.txtime tx.outs
                    (outputs_start kv db laws tx s h i w)),
              length-map (λ (o : Paid). o.address) tx.outs,
              ready.room,
            ))
            (outputs_loop-HasRow kv db laws tx.txtime tx.outs (outputs_start kv db laws tx s h i w)
              tt) in
        record {
          inputs = i;
          merged = w;
          counted = r;
          gathered = g;
          assigned = a;
          returns =
              ap (with_inputs kv db tx s) e
              ∙ ap (with_merged kv db tx s i) e1
              ∙ ap (with_entities kv db tx s i o) e2;
        }

    -- A transaction as the parser leaves it, with at least one input and a record of less than 2^32
    -- bytes, whose inputs spend stored outputs of addresses that have a row, is processed to the end
    -- where the entity counter and the number of its outputs are together less than 2^32. Its record is put under the
    -- reversed hash: each output's address and value are read back from it (unless the hash is
    -- that of a coinbase), and other keys stay. Every output address then has an entity other than
    -- 0, and the entity counter has moved by no more than the number of outputs.
    pub transaction_process-Done :
        Ready tx s → (s1 : State kv db) × (transaction_process kv db tx s ≡ some s1) × Done tx s s1
    unfolding finish transaction2_mysql read_output preout_of
    transaction_process-Done ready =
        let t = stages ready in
        let o : Outputs kv db = outputs_of kv db tx t.inputs t.merged in
        let key : List ℕ = reverse tx.curhash in
        let addresses =
          outputs_loop-address kv db tx.txtime tx.outs
            (outputs_start kv db laws tx s h t.inputs t.merged) in
        let s1 : State kv db = finish kv db tx t.inputs o s.tx_db t.counted in
        let size : 0 + length tx.ins ≡ tx.in_count = omega (arith, h.in_size) in
        (
          s1,
          t.returns,
          record {
            stored = λ before after paid_one split differs.
                ap
                  (λ b.
                    if b
                    then some (replicate 20 48 ++ replicate 8 0)
                    else preout_of (length before) (kv.get key s1.tx_db))
                  differs
                ∙ ap (preout_of (length before)) (kv_laws.get_put key _ s.tx_db)
                ∙ ap (λ v. bytes_read (read_preout (length before) v))
                    (stored_value kv db laws tx s h t.inputs t.merged (0 + length tx.ins) t.gathered
                      size)
                ∙ read_back kv db laws tx s h t.gathered.preouts before after paid_one
                    (t.gathered.value_size ∙ ap (λ (k : ℕ). 28 * k) size) split;
            others = λ k differs. kv_laws.get_put_other key k _ s.tx_db differs;
            entities =
                subst
                  (λ l. All (λ x. (e : ℕ) × (db.entity_of x s1.world.state ≡ some e) × (e ≢ 0)) l)
                  addresses
                  (All-imply
                    (λ x r. (
                      r.0,
                      laws.insert_txinfo_law _ _ _ _ _ _ _ _ _ _ x t.counted.1.state ∙ r.1,
                      r.2,
                    ))
                    o.output_address_bv t.assigned.outputs);
            counter = omega (
              arith,
              t.assigned.high,
              ap length addresses,
              length-map (λ (o : Paid). o.address) tx.outs,
            );
          },
        )

-- The row of txinfo balances: the input sum it holds is the larger of the two sums, and it is the
-- output sum and the fee together. Where the inputs' sum is not above that of the outputs, as for a
-- coinbase, whose inputs count for nothing, the fee is 0.
pub transaction2_mysql-balanced :
    (tx : Tx) (invalue_sum outvalue_sum : ℕ)
    → (invalue fee : ℕ) × (transaction2_mysql tx invalue_sum outvalue_sum
        ≡ Statement.insert_txinfo
            (reverse tx.curhash)
            tx.txcounter
            tx.blocknumber
            tx.txtime
            tx.tx_length
            fee
            tx.in_count
            invalue
            tx.out_count
            outvalue_sum)
      × (invalue ≡ max invalue_sum outvalue_sum)
      × (invalue ≡ outvalue_sum + fee)
      × (invalue_sum ≤ outvalue_sum → fee ≡ 0)
unfolding transaction2_mysql
transaction2_mysql-balanced tx invalue_sum outvalue_sum =
    (_, _, refl, ground arith, ground arith, λ h. ground arith)
