-- ===== src/Ledger/Spend.antt =====
-- The loop over inputs of BitcoinAnalysis/TransactionProcess.h, and the merge of their entities.
use bitcoin_analysis.Common.{
  ℕ, suc, ◌+◌, ◌*◌, ◌<◌, ◌≡◌, refl, ap, ap₂, ◌∙◌, List, [], ◌∷◌, ◌++◌, append_assoc, Bool, true,
  false, some, if◌then◌else◌, arith, length, take, drop, reverse, All, All-append, length-append,
}
use mathlib.Core.Path.{subst}
use bitcoin_analysis.Block.Reader.{le_value}
use bitcoin_analysis.Block.Transaction.{Txin}
use bitcoin_analysis.Database.{Database, DatabaseLaws, Statement}
use bitcoin_analysis.Entity.{
  World, same_bytes, coinbase_h, query, push, both, entities_of, touch_found, touch_one,
  input_entity_mysql,
}
use bitcoin_analysis.Entity.Input.{input_entity_mysql-Merged}
use bitcoin_analysis.Entity.Assign.{HasRow}
use bitcoin_analysis.Ledger.{
  KeyValue, read_output, input_transaction_mysql, Inputs, gather_input, inputs_loop,
}

module _ (kv : KeyValue) (db : Database) (laws : DatabaseLaws db) where
  -- An input whose output is stored, with an address that has a row.
  unfoldable pub Spendable : kv.Store → db.State → Txin → Type 0
  Spendable tx_db s i =
      (p : List ℕ) × (read_output kv db (reverse i.hash) i.index tx_db ≡ some p)
      × (length p ≡ 28)
      × HasRow db laws s (take 20 p)

  pub record Gathered (s : db.State) (value : List ℕ) (n : ℕ) (st : Inputs kv db) : Type 0 where
    pub preouts : List ℕ
    pub value_eq : st.value ≡ value ++ preouts
    pub value_size : length preouts ≡ 28 * n
    pub count : length st.input_address_bv ≡ n
    pub rows : All (HasRow db laws s) st.input_address_bv
    pub same : (x : List ℕ) → db.entity_of x st.world.state ≡ db.entity_of x s

  same-input_transaction :
      (address : List ℕ) (value time : ℕ) (w : World db) (x : List ℕ)
      → db.entity_of x (input_transaction_mysql kv db address value time w).state
        ≡ db.entity_of x w.state
  unfolding input_transaction_mysql
  same-input_transaction address value time w x = go (same_bytes address coinbase_h)
    where
      go :
          (b : Bool)
          → db.entity_of x
              (if b then w else query db (Statement.add_input address value time) w).state
            ≡ db.entity_of x w.state
      go true = refl
      go false = laws.add_input_law address x value time w.state

  gather_input-Gathered :
      (s : db.State) (value : List ℕ) (n time : ℕ) (st : Inputs kv db) (p : List ℕ)
      → length p ≡ 28
      → HasRow db laws s (take 20 p)
      → Gathered s value n st
      → Gathered s value (suc n) (gather_input kv db time p st)
  gather_input-Gathered s value n time st p size row g = record {
    preouts = g.preouts ++ p;
    value_eq = ap (λ t. t ++ p) g.value_eq ∙ append_assoc value g.preouts p;
    value_size = omega (arith, size, g.value_size, length-append g.preouts p);
    count = omega (arith, g.count, length-append st.input_address_bv (take 20 p ∷ []));
    rows = All-append (HasRow db laws s) st.input_address_bv (take 20 p ∷ []) g.rows (row, tt);
    same =
        λ x. same-input_transaction (take 20 p) (le_value (drop 20 p)) time st.world x ∙ g.same x;
  }

  pub inputs_loop-Gathered :
      (time : ℕ) (tx_db : kv.Store) (s : db.State) (value : List ℕ) (ins : List Txin) (n : ℕ)
      (st : Inputs kv db)
      → All (Spendable tx_db s) ins
      → Gathered s value n st
      → (st1 : Inputs kv db) × (inputs_loop kv db time ins tx_db st ≡ some st1)
        × Gathered s value (n + length ins) st1
  unfolding inputs_loop Spendable
  inputs_loop-Gathered time tx_db s value [] n st h g =
      (st, refl, subst (λ (k : ℕ). Gathered s value k st) {x = n} {y = n + 0} (omega arith) g)
  inputs_loop-Gathered time tx_db s value (i ∷ ins) n st h g =
      let p : List ℕ = h.0.0 in
      let next : Inputs kv db = gather_input kv db time p st in
      let (st1, e, g1) =
        inputs_loop-Gathered time tx_db s value ins (suc n) next h.1
          (gather_input-Gathered s value n time st p h.0.2 h.0.3 g) in
      (
        st1,
        rw (inputs_loop, h.0.1) e,
        subst (λ (k : ℕ). Gathered s value k st1) {x = suc n + length ins}
            {y = n + length (i ∷ ins)} (omega arith) g1,
      )

  -- Addresses that have a row have entities.
  entities_of-HasRow :
      (s : db.State) (xs : List (List ℕ))
      → All (HasRow db laws s) xs
      → (es : List ℕ) × (entities_of db xs s ≡ some es)
  unfolding entities_of
  entities_of-HasRow s [] h = ([], refl)
  entities_of-HasRow s (x ∷ xs) h =
      let (es, e) = entities_of-HasRow s xs h.1 in (h.0.0 ∷ es, ap₂ both h.0.1 e)

  touch_one-HasRow :
      (a : List ℕ) (w : World db)
      → HasRow db laws w.state a
      → (w1 : World db) × (touch_one db a w ≡ some w1)
  unfolding touch_one touch_found
  touch_one-HasRow a w h = go (same_bytes a coinbase_h)
    where
      go :
          (b : Bool)
          → (w1 : World db) × ((if b then some w else touch_found db (db.entity_of a w.state) w)
              ≡ some w1)
      go true = (w, refl)
      go false = (push db h.0 w, ap (λ r. touch_found db r w) h.1)

  -- At least one input, and a row for each: the merge returns.
  pub input_entity_mysql-HasRow :
      (xs : List (List ℕ)) (w : World db)
      → 0 < length xs
      → All (HasRow db laws w.state) xs
      → (w1 : World db) × (input_entity_mysql db xs w ≡ some w1)
  unfolding input_entity_mysql
  input_entity_mysql-HasRow [] w k h = absurd (omega arith)
  input_entity_mysql-HasRow (a ∷ []) w k h = touch_one-HasRow a w h.0
  input_entity_mysql-HasRow (a ∷ b ∷ rest) w k h =
      let (es, e) = entities_of-HasRow w.state (a ∷ b ∷ rest) h in
      let (m, w1, done, _) = input_entity_mysql-Merged db laws w a b rest es e in (w1, done)
