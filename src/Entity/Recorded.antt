-- ===== src/Entity/Recorded.antt =====
-- The entities that update_entity_mysql of BitcoinAnalysis/EntityProcess.h sends statements for.
use bitcoin_analysis.Common.{
  ℕ, suc, ◌≤◌, ◌≡◌, refl, ◌∙◌, List, [], ◌∷◌, false, ◌==◌, All-imply, arith, ==-false, if_elim,
}
use bitcoin_analysis.Database.{Database}
use bitcoin_analysis.Entity.{World, sort, unique, update_loop, update_entity_mysql}
use bitcoin_analysis.Entity.Sort.{mem, mem-sort, Below, Sorted, sort-Sorted}

mem-unique : (x : ℕ) (xs : List ℕ) → mem x (unique xs) ≡ mem x xs
unfolding mem unique
mem-unique x [] = refl
mem-unique x (y ∷ []) = refl
mem-unique x (y ∷ z ∷ zs) = ground (arith, mem-unique x (z ∷ zs))

unique-Below : (m : ℕ) (xs : List ℕ) → Below m xs → Below m (unique xs)
unfolding unique
unique-Below m [] h = tt
unique-Below m (y ∷ []) h = h
unique-Below m (y ∷ z ∷ zs) h =
    if_elim (Below m) (y == z) _ _ (λ _. unique-Below m (z ∷ zs) h.1)
      (λ _. (h.0, unique-Below m (z ∷ zs) h.1))

-- Each element is below all that follow it.
pub Increasing : List ℕ → Type 0
Increasing [] = Unit
Increasing (x ∷ xs) = Below (suc x) xs × Increasing xs

above : (y z : ℕ) (zs : List ℕ) → y ≤ z → (y == z) ≡ false → Below z zs → Below (suc y) (z ∷ zs)
above y z zs h k b = (
  omega (arith, h, ==-false y z k),
  All-imply (λ (x : ℕ) (l : z ≤ x). omega (arith, h, l, ==-false y z k)) zs b,
)

unique-Increasing : (xs : List ℕ) → Sorted xs → Increasing (unique xs)
unfolding unique Sorted Increasing
unique-Increasing [] h = tt
unique-Increasing (y ∷ []) h = (tt, tt)
unique-Increasing (y ∷ z ∷ zs) h =
    let rest = unique-Increasing (z ∷ zs) h.1 in
    if_elim Increasing (y == z) _ _ (λ _. rest)
      (λ e. (unique-Below (suc y) (z ∷ zs) (above y z zs h.0.0 e h.1.0), rest))

-- The update sends its statements for a list of entities in increasing order, so for none of them
-- twice, and the list has exactly the entities that were recorded as changed; the record is then
-- empty.
pub update_entity_mysql-Increasing :
    (db : Database) (w : World db)
    → (es : List ℕ) × (update_entity_mysql db w
        ≡ record { state = update_loop db es w.state; entitychange_v = [] })
      × Increasing es
      × ((e : ℕ) → mem e es ≡ mem e w.entitychange_v)
unfolding update_entity_mysql
update_entity_mysql-Increasing db w = (
  unique (sort w.entitychange_v),
  refl,
  unique-Increasing (sort w.entitychange_v) (sort-Sorted w.entitychange_v),
  λ e. mem-unique e (sort w.entitychange_v) ∙ mem-sort e w.entitychange_v,
)
