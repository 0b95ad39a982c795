-- ===== src/Database.antt =====
-- The MySQL database that BitcoinAnalysis/EntityProcess.h and TransactionProcess.h write to: the
-- statements they send, one constructor for each text of the source with what the text is filled
-- with, and the tables behind them as a parameter with the behaviour that the code relies on.
use bitcoin_analysis.Common.{value_or, ℕ, ◌≡◌, ◌≢◌, List, Option, none, some, ◌==◌, if◌then◌else◌}

pub data Statement : Type 0 where
  -- UPDATE addressinfo SET entity = x'..' WHERE entity = x'..'
  merge_entity : ℕ → ℕ → Statement
  -- DELETE FROM entityinfo WHERE entity = x'..'
  delete_entity : ℕ → Statement
  -- UPDATE addressinfo SET entity = x'..' WHERE address = x'..'
  set_entity : List ℕ → ℕ → Statement
  -- INSERT INTO entityinfo(entity) VALUES(x'..')
  insert_entity : ℕ → Statement
  -- UPDATE entityinfo SET addcnt = (..), .. WHERE entity = x'..'
  update_entity : ℕ → Statement
  -- UPDATE addressinfo SET inval=inval+.., lasttm='..', .. WHERE address=x'..'
  add_input : List ℕ → ℕ → ℕ → Statement
  -- INSERT INTO addressinfo(address,outval,firsttm,lasttm,bal) VALUES(..) ON DUPLICATE KEY UPDATE ..
  add_output : List ℕ → ℕ → ℕ → Statement
  -- UPDATE addressinfo SET maxbal=bal WHERE bal>maxbal AND address=x'..'
  raise_maxbal : List ℕ → Statement
  -- INSERT INTO txinfo VALUES(x'..', ..), the ten values in order
  insert_txinfo : List ℕ → ℕ → ℕ → ℕ → ℕ → ℕ → ℕ → ℕ → ℕ → ℕ → Statement
  -- INSERT INTO blkinfo VALUES(x'..', ..); the difficulty is a function of the bits
  insert_blkinfo : List ℕ → ℕ → ℕ → ℕ → ℕ → ℕ → ℕ → Statement

-- The tables; `entity_of` is the SELECT of an address's entity.
pub record Database : Type 1 where
  pub State : Type 0
  pub exec : Statement → State → State
  pub entity_of : List ℕ → State → Option ℕ

abbrev pub rename : ℕ → ℕ → Option ℕ → Option ℕ
rename to from none = none
rename to from (some e) = some (if e == from then to else e)

abbrev pub put : ℕ → Option ℕ → Option ℕ
put to none = none
put to (some e) = some to

-- What SQL says that the statements do to the column `entity` of addressinfo, whose default is 0.
pub record DatabaseLaws (db : Database) : Type 0 where
  pub merge_law :
      (to from : ℕ) (a : List ℕ) (s : db.State)
      → db.entity_of a (db.exec (Statement.merge_entity to from) s)
        ≡ rename to from (db.entity_of a s)
  pub delete_law :
      (e : ℕ) (a : List ℕ) (s : db.State)
      → db.entity_of a (db.exec (Statement.delete_entity e) s) ≡ db.entity_of a s
  pub insert_law :
      (e : ℕ) (a : List ℕ) (s : db.State)
      → db.entity_of a (db.exec (Statement.insert_entity e) s) ≡ db.entity_of a s
  pub set_law :
      (e : ℕ) (a : List ℕ) (s : db.State)
      → db.entity_of a (db.exec (Statement.set_entity a e) s) ≡ put e (db.entity_of a s)
  pub set_other_law :
      (e : ℕ) (a b : List ℕ) (s : db.State)
      → a ≢ b
      → db.entity_of b (db.exec (Statement.set_entity a e) s) ≡ db.entity_of b s
  pub add_output_law :
      (a : List ℕ) (value time : ℕ) (s : db.State)
      → db.entity_of a (db.exec (Statement.add_output a value time) s)
        ≡ some (value_or (db.entity_of a s) 0)
  pub add_output_other_law :
      (a b : List ℕ) (value time : ℕ) (s : db.State)
      → a ≢ b
      → db.entity_of b (db.exec (Statement.add_output a value time) s) ≡ db.entity_of b s
  pub add_input_law :
      (a b : List ℕ) (value time : ℕ) (s : db.State)
      → db.entity_of b (db.exec (Statement.add_input a value time) s) ≡ db.entity_of b s
  pub raise_maxbal_law :
      (a b : List ℕ) (s : db.State)
      → db.entity_of b (db.exec (Statement.raise_maxbal a) s) ≡ db.entity_of b s
  pub insert_txinfo_law :
      (hash : List ℕ) (txcounter blknum time size fee incnt inval outcnt outval : ℕ) (b : List ℕ)
      (s : db.State)
      → db.entity_of b (
          db.exec
            (Statement.insert_txinfo hash txcounter blknum time size fee incnt inval outcnt outval)
            s)
        ≡ db.entity_of b s
