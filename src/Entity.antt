-- ===== src/Entity.antt =====
-- BitcoinAnalysis/EntityProcess.h: addresses that are spent together belong to one entity. The
-- database is a parameter: what the statements sent to it do to the entity of an address and to
-- the rows of entityinfo. A vector read at 0 when empty, and a row that is missing, are `none`.
pub mod Merge
pub mod Input
pub mod Bytes
pub mod Rows
pub mod Assign
pub mod Sort
pub mod Recorded
pub mod Clusters
mod Runs
use bitcoin_analysis.Common.{
  ℕ, zero, suc, ◌+◌, List, [], ◌∷◌, ◌++◌, Bool, true, false, not, Option, none, some, ◌==◌, leb,
  if◌then◌else◌, u32, replicate,
}
use bitcoin_analysis.Database.{Database, Statement}

-- memcmp(a, b, n) == 0 of two arrays of the same length.
abbrev pub same_bytes : List ℕ → List ℕ → Bool
same_bytes [] [] = true
same_bytes (a ∷ rest) (b ∷ bs) = if a == b then same_bytes rest bs else false
same_bytes _ _ = false

abbrev pub coinbase_h : List ℕ
coinbase_h = replicate 20 0x30

-- std::sort.
unfoldable pub insert : ℕ → List ℕ → List ℕ
insert x [] = x ∷ []
insert x (y ∷ ys) = let rest = insert x ys in if leb x y then x ∷ (y ∷ ys) else y ∷ rest

unfoldable pub sort : List ℕ → List ℕ
sort [] = []
sort (x ∷ xs) = insert x (sort xs)

-- std::unique on a sorted vector.
unfoldable pub unique : List ℕ → List ℕ
unique [] = []
unique (x ∷ []) = x ∷ []
unique (x ∷ y ∷ ys) = let rest = unique (y ∷ ys) in if x == y then rest else x ∷ rest

-- The loop that compares each element to the first.
unfoldable pub is_unequal : ℕ → List ℕ → Bool
is_unequal first [] = false
is_unequal first (e ∷ es) =
    let rest = is_unequal first es in if not (first == e) then true else rest

-- What the functions change: the database and the global `entitychange_v`.
pub record World (db : Database) : Type 0 where
  pub state : db.State
  pub entitychange_v : List ℕ

abbrev pub both : Option ℕ → Option (List ℕ) → Option (List ℕ)
both (some e) (some es) = some (e ∷ es)
both _ _ = none

module _ (db : Database) where
  abbrev pub push : ℕ → World db → World db
  push e w = record { state = w.state; entitychange_v = w.entitychange_v ++ e ∷ [] }

  abbrev pub query : Statement → World db → World db
  query s w = record { state = db.exec s w.state; entitychange_v = w.entitychange_v }

  -- The entities of the addresses, in order.
  unfoldable pub entities_of : List (List ℕ) → db.State → Option (List ℕ)
  entities_of [] s = some []
  entities_of (a ∷ rest) s = both (db.entity_of a s) (entities_of rest s)

  -- The entity `e` is merged where it differs from the one before it.
  unfoldable pub merge_step : Bool → ℕ → ℕ → World db → World db
  merge_step true first e w =
      query (Statement.delete_entity e) (query (Statement.merge_entity first e) w)
  merge_step false first e w = w

  -- The loop over neighbours.
  unfoldable pub merge_loop : ℕ → ℕ → List ℕ → World db → World db
  merge_loop first before [] w = w
  merge_loop first before (e ∷ es) w =
      merge_loop first e es (merge_step (not (before == e)) first e w)

  -- What is done with the sorted entities of the input addresses.
  unfoldable pub merge_sorted : List ℕ → World db → Option (World db)
  merge_sorted [] w = none
  merge_sorted (first ∷ rest) w =
      some (push first (if is_unequal first rest then merge_loop first first rest w else w))

  unfoldable pub merge_found : Option (List ℕ) → World db → Option (World db)
  merge_found none w = none
  merge_found (some entity_v) w = merge_sorted (sort entity_v) w

  unfoldable pub merge_all : List (List ℕ) → World db → Option (World db)
  merge_all address_bv w = merge_found (entities_of address_bv w.state) w

  unfoldable pub touch_found : Option ℕ → World db → Option (World db)
  touch_found none w = none
  touch_found (some entity) w = some (push entity w)

  unfoldable pub touch_one : List ℕ → World db → Option (World db)
  touch_one address w =
      if same_bytes address coinbase_h then some w else touch_found (db.entity_of address w.state) w

  unfoldable pub input_entity_mysql : List (List ℕ) → World db → Option (World db)
  input_entity_mysql (a ∷ []) w = touch_one a w
  input_entity_mysql [] w = merge_all [] w
  input_entity_mysql (a ∷ b ∷ rest) w = merge_all (a ∷ b ∷ rest) w

  unfoldable pub insert_entity_mysql : ℕ → World db → World db
  insert_entity_mysql entitycnt w = query (Statement.insert_entity entitycnt) w

  -- The body of the loop over output addresses, behind the SELECT: `entitycnt` and the world. The
  -- `else` branch records the counter, not the address's entity.
  unfoldable pub output_step : List ℕ → ℕ → World db → ℕ → ℕ × World db
  output_step address entitycnt w entity =
      let next : ℕ = u32 (entitycnt + 1) in
      if 0 == entity
      then (
        next,
        push next (insert_entity_mysql next (query (Statement.set_entity address next) w)),
      )
      else (entitycnt, push entitycnt w)

  unfoldable pub output_found : Option ℕ → List ℕ → ℕ → World db → Option (ℕ × World db)
  output_found none address entitycnt w = none
  output_found (some entity) address entitycnt w = some (output_step address entitycnt w entity)

  unfoldable pub output_entity_mysql : List (List ℕ) → ℕ → World db → Option (ℕ × World db)
  output_entity_mysql [] entitycnt w = some (entitycnt, w)
  output_entity_mysql (a ∷ rest) entitycnt w =
      elim (output_found (db.entity_of a w.state) a entitycnt w) [
        | none ↦ none
        | some (cnt, w1) ↦ output_entity_mysql rest cnt w1
      ]

  -- One statement for each entity.
  unfoldable pub update_loop : List ℕ → db.State → db.State
  update_loop [] s = s
  update_loop (e ∷ es) s = update_loop es (db.exec (Statement.update_entity e) s)

  unfoldable pub update_entity_mysql : World db → World db
  update_entity_mysql w = record {
    state = update_loop (unique (sort w.entitychange_v)) w.state;
    entitychange_v = [];
  }
