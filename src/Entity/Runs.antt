-- ===== src/Entity/Runs.antt =====
-- Runs of the entity code on a table of four addresses.
use bitcoin_analysis.Common.{ℕ, ◌≡◌, ◌↔◌, ◌⊎◌, refl, List, [], ◌∷◌, some, arith, replicate}
use bitcoin_analysis.Entity.{
  World, sort, insert, input_entity_mysql, merge_all, merge_found, merge_sorted, merge_loop,
  merge_step, is_unequal, output_entity_mysql, output_found, output_step, entities_of, update_loop,
  update_entity_mysql,
}
use bitcoin_analysis.Entity.Sort.{mem}
use bitcoin_analysis.Entity.Recorded.{Increasing, update_entity_mysql-Increasing}
use bitcoin_analysis.Entity.Rows.{rows, rows-DatabaseLaws}
use bitcoin_analysis.Entity.Input.{Merged, input_entity_mysql-Merged}
use bitcoin_analysis.Entity.Clusters.{Same, Near, input_entity_mysql-Same}
use bitcoin_analysis.Entity.Assign.{Assigned, output_entity_mysql-Assigned}

abbrev address : ℕ → List ℕ
address n = replicate 20 n

abbrev world : World rows
world = record {
  state = (address 1, 7) ∷ (address 2, 3) ∷ (address 3, 5) ∷ (address 4, 0) ∷ [];
  entitychange_v = 9 ∷ [];
}

-- Three inputs of the entities 7, 3 and 3: the first two rows become 3.
merged_run :
    input_entity_mysql rows (address 1 ∷ address 2 ∷ address 2 ∷ []) world
    ≡ some (record {
      state = (address 1, 3) ∷ (address 2, 3) ∷ (address 3, 5) ∷ (address 4, 0) ∷ [];
      entitychange_v = 9 ∷ 3 ∷ [];
    })
unfolding input_entity_mysql merge_all merge_found merge_sorted merge_loop merge_step is_unequal
    entities_of sort insert
merged_run = refl

-- The second address has the entity 3, but 7, the counter, is recorded as changed.
recorded_run :
    output_entity_mysql rows (address 2 ∷ []) 7 world
    ≡ some (7, record { state = world.state; entitychange_v = 9 ∷ 7 ∷ [] })
unfolding output_entity_mysql output_found output_step
recorded_run = refl

input_entity_mysql-Merged_example :
    (m : ℕ) × (w1 : World rows) × (input_entity_mysql rows
        (address 1 ∷ address 2 ∷ address 2 ∷ [])
        world
      ≡ some w1)
    × Merged rows world (address 1 ∷ address 2 ∷ address 2 ∷ []) (7 ∷ 3 ∷ 3 ∷ []) m w1
unfolding entities_of
input_entity_mysql-Merged_example =
    input_entity_mysql-Merged rows rows-DatabaseLaws world (address 1) (address 2) (address 2 ∷ [])
      (7 ∷ 3 ∷ 3 ∷ []) refl

output_entity_mysql-Assigned_example :
    (r : ℕ × World rows) × (output_entity_mysql rows (address 4 ∷ address 2 ∷ []) 7 world ≡ some r)
    × Assigned rows (address 4 ∷ address 2 ∷ []) 7 world r
output_entity_mysql-Assigned_example =
    output_entity_mysql-Assigned rows rows-DatabaseLaws (address 4 ∷ address 2 ∷ []) 7 world
      (omega arith) ((0, refl), ((3, refl), tt))

update_entity_mysql-Increasing_example :
    (es : List ℕ) × (update_entity_mysql rows world
      ≡ record { state = update_loop rows es world.state; entitychange_v = [] })
    × Increasing es
    × ((e : ℕ) → mem e es ≡ mem e world.entitychange_v)
update_entity_mysql-Increasing_example = update_entity_mysql-Increasing rows world

input_entity_mysql-Same_example :
    (w1 : World rows) × (input_entity_mysql rows (address 1 ∷ address 2 ∷ address 2 ∷ []) world
      ≡ some w1)
    × ((x y : List ℕ)
        → Same rows w1.state x y ↔ (
            Same rows world.state x y
            ⊎ (Near rows world.state (address 1 ∷ address 2 ∷ address 2 ∷ []) x
                × Near rows world.state (address 1 ∷ address 2 ∷ address 2 ∷ []) y)))
unfolding entities_of
input_entity_mysql-Same_example =
    input_entity_mysql-Same rows rows-DatabaseLaws world (address 1) (address 2) (address 2 ∷ [])
      (7 ∷ 3 ∷ 3 ∷ []) refl
