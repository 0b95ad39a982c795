-- ===== src/Ledger.antt =====
-- BitcoinAnalysis/TransactionProcess.h: a transaction's record in the key-value store, the lookup
-- of the outputs that its inputs spend, and the statements for the relational database. The
-- key-value store is a parameter. A key that is missing, and a read beyond a record's end, are
-- `none`. The text of a time is a function of the time, which stands for it in a statement.
pub mod Record
pub mod Entries
pub mod Spend
pub mod Pay
mod Layout
pub mod Process
mod Runs
use bitcoin_analysis.Common.{
  ℕ, zero, suc, ◌+◌, ◌-◌, ◌*◌, ◌≡◌, ◌≢◌, List, [], ◌∷◌, ◌++◌, Bool, true, false, Option, none, some,
  ltb, if◌then◌else◌, length, take, drop, replicate, reverse, u32, u64,
}
use bitcoin_analysis.Block.Reader.{le_value, read_bytes}
use bitcoin_analysis.Block.Reader.RoundTrip.{le_bytes}
use bitcoin_analysis.Block.Transaction.{Txin}
use bitcoin_analysis.Database.{Database, Statement}
use bitcoin_analysis.Entity.{
  World, same_bytes, coinbase_h, query, input_entity_mysql, output_entity_mysql,
}

-- LevelDB's Get and Put.
pub record KeyValue : Type 1 where
  pub Store : Type 0
  pub get : List ℕ → Store → Option (List ℕ)
  pub put : List ℕ → List ℕ → Store → Store

pub record KeyValueLaws (kv : KeyValue) : Type 0 where
  pub get_put : (k v : List ℕ) (s : kv.Store) → kv.get k (kv.put k v s) ≡ some v
  pub get_put_other : (k l v : List ℕ) (s : kv.Store) → k ≢ l → kv.get l (kv.put k v s) ≡ kv.get l s

-- The fields `val` and `address` of a Txout.
pub record Paid : Type 0 where
  pub val : ℕ
  pub address : List ℕ

-- What TransactionProcess reads of a Transaction.
pub record Tx : Type 0 where
  pub blocknumber : ℕ
  pub txtime : ℕ
  pub txcounter : ℕ
  pub tx_length : ℕ
  pub curhash : List ℕ
  pub in_count : ℕ
  pub ins : List Txin
  pub out_count : ℕ
  pub outs : List Paid

abbrev pub coinbase_b : List ℕ
coinbase_b = replicate 32 0

-- The copy of an output, behind that of the count; the offset is computed in 32 bits.
unfoldable pub copy_output : ℕ → List ℕ → Option (List ℕ × ℕ) → Option (List ℕ × ℕ)
copy_output index value none = none
copy_output index value (some (incounter, next)) =
    read_bytes 28 value (20 + u32 (le_value incounter * 28) + 4 + u32 (index * 28))

unfoldable pub read_preout : ℕ → List ℕ → Option (List ℕ × ℕ)
read_preout index value = copy_output index value (read_bytes 4 value 16)

abbrev pub bytes_read : Option (List ℕ × ℕ) → Option (List ℕ)
bytes_read none = none
bytes_read (some (bs, pos)) = some bs

unfoldable pub preout_of : ℕ → Option (List ℕ) → Option (List ℕ)
preout_of index none = none
preout_of index (some value) = bytes_read (read_preout index value)

unfoldable pub header_bytes : Tx → List ℕ
header_bytes tx =
    le_bytes 4 tx.blocknumber
    ++ (le_bytes 4 tx.txtime
        ++ (le_bytes 4 tx.txcounter ++ (le_bytes 4 tx.tx_length ++ le_bytes 4 tx.in_count)))

unfoldable pub value_len : Tx → ℕ
value_len tx = u32 (4 + 4 + 4 + 4 + 4 + tx.in_count * (20 + 8) + 4 + tx.out_count * (20 + 8))

-- `txfee` behind the correction of the input sum.
unfoldable pub transaction2_mysql : Tx → ℕ → ℕ → Statement
transaction2_mysql tx invalue_sum outvalue_sum =
    let invalue : ℕ = if ltb invalue_sum outvalue_sum then outvalue_sum else invalue_sum in
    Statement.insert_txinfo (reverse tx.curhash) tx.txcounter tx.blocknumber tx.txtime tx.tx_length
      (invalue - outvalue_sum) tx.in_count invalue tx.out_count outvalue_sum

module _ (kv : KeyValue) (db : Database) where
  unfoldable pub read_output : List ℕ → ℕ → kv.Store → Option (List ℕ)
  read_output txhash index tx_db =
      let stored : Option (List ℕ) = preout_of index (kv.get txhash tx_db) in
      if same_bytes txhash coinbase_b then some (replicate 20 48 ++ replicate 8 0) else stored

  unfoldable pub input_transaction_mysql : List ℕ → ℕ → ℕ → World db → World db
  input_transaction_mysql address value txtime w =
      if same_bytes address coinbase_h
      then w
      else query db (Statement.add_input address value txtime) w

  unfoldable pub output_transaction_mysql : List ℕ → ℕ → ℕ → World db → World db
  output_transaction_mysql address value txtime w =
      query db (Statement.raise_maxbal address)
        (query db (Statement.add_output address value txtime) w)

  -- What the loop over inputs has gathered.
  pub record Inputs : Type 0 where
    pub value : List ℕ
    pub invalue_sum : ℕ
    pub input_address_bv : List (List ℕ)
    pub world : World db

  abbrev pub gather_input : ℕ → List ℕ → Inputs → Inputs
  gather_input txtime preout st = record {
    value = st.value ++ preout;
    invalue_sum = u64 (st.invalue_sum + le_value (drop 20 preout));
    input_address_bv = st.input_address_bv ++ take 20 preout ∷ [];
    world = input_transaction_mysql (take 20 preout) (le_value (drop 20 preout)) txtime st.world;
  }

  -- The record at an input, and whether there is one.
  abbrev pub with_preout : ℕ → Option (List ℕ) → Inputs → Option Inputs
  with_preout txtime none st = none
  with_preout txtime (some preout) st = some (gather_input txtime preout st)

  unfoldable pub inputs_loop : ℕ → List Txin → kv.Store → Inputs → Option Inputs
  inputs_loop txtime [] tx_db st = some st
  inputs_loop txtime (i ∷ ins) tx_db st =
      elim (with_preout txtime (read_output (reverse i.hash) i.index tx_db) st) [
        | none ↦ none
        | some next ↦ inputs_loop txtime ins tx_db next
      ]

  pub record Outputs : Type 0 where
    pub value : List ℕ
    pub outvalue_sum : ℕ
    pub output_address_bv : List (List ℕ)
    pub world : World db

  abbrev pub gather_output : ℕ → Paid → Outputs → Outputs
  gather_output txtime o st = record {
    value = st.value ++ (o.address ++ le_bytes 8 o.val);
    outvalue_sum = u64 (st.outvalue_sum + o.val);
    output_address_bv = st.output_address_bv ++ o.address ∷ [];
    world = output_transaction_mysql o.address o.val txtime st.world;
  }

  unfoldable pub outputs_loop : ℕ → List Paid → Outputs → Outputs
  outputs_loop txtime [] st = st
  outputs_loop txtime (o ∷ outs) st = outputs_loop txtime outs (gather_output txtime o st)

  -- The state that TransactionProcess changes.
  pub record State : Type 0 where
    pub tx_db : kv.Store
    pub world : World db
    pub entitycnt : ℕ

  -- Behind the outputs' entities: the record is put, and txinfo gets its row.
  unfoldable pub finish : Tx → Inputs → Outputs → kv.Store → ℕ × World db → State
  finish tx i o tx_db r = record {
    tx_db = kv.put (reverse tx.curhash) (take (value_len tx) o.value) tx_db;
    world = query db (transaction2_mysql tx i.invalue_sum o.outvalue_sum) r.1;
    entitycnt = r.0;
  }

  abbrev pub outputs_of : Tx → Inputs → World db → Outputs
  outputs_of tx i w = outputs_loop tx.txtime tx.outs (record {
    value = i.value ++ le_bytes 4 tx.out_count;
    outvalue_sum = 0;
    output_address_bv = [];
    world = w;
  })

  unfoldable pub with_entities :
      Tx → State → Inputs → Outputs → Option (ℕ × World db) → Option State
  with_entities tx s i o none = none
  with_entities tx s i o (some r) = some (finish tx i o s.tx_db r)

  unfoldable pub with_merged : Tx → State → Inputs → Option (World db) → Option State
  with_merged tx s i none = none
  with_merged tx s i (some w) =
      let o : Outputs = outputs_of tx i w in
      with_entities tx s i o (output_entity_mysql db o.output_address_bv s.entitycnt o.world)

  unfoldable pub with_inputs : Tx → State → Option Inputs → Option State
  with_inputs tx s none = none
  with_inputs tx s (some i) = with_merged tx s i (input_entity_mysql db i.input_address_bv i.world)

  -- The lists of inputs and outputs have in_count and out_count elements.
  unfoldable pub transaction_process : Tx → State → Option State
  transaction_process tx s = with_inputs tx s (
      inputs_loop tx.txtime tx.ins s.tx_db (record {
        value = header_bytes tx;
        invalue_sum = 0;
        input_address_bv = [];
        world = s.world;
      }))
