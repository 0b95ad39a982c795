-- ===== src/Entity/Input.antt =====
-- What input_entity_mysql of BitcoinAnalysis/EntityProcess.h does for a transaction with several
-- inputs: the whole function, on the database that its statements act on.
use bitcoin_analysis.Common.{
  ℕ, ◌≤◌, ◌<◌, ◌≡◌, refl, sym, ap, ◌∙◌, List, [], ◌∷◌, ◌++◌, Bool, true, false, not, Option, none,
  some, ◌==◌, if◌then◌else◌, All, All-imply, length, arith,
}
use mathlib.Core.Path.{subst}
use bitcoin_analysis.Database.{Database, DatabaseLaws}
use bitcoin_analysis.Entity.{
  World, push, sort, both, is_unequal, entities_of, merge_step, merge_loop, merge_sorted,
  merge_found, merge_all, input_entity_mysql,
}
use bitcoin_analysis.Entity.Sort.{
  mem, mem-sort, mem-first, mem-later, mem-Below, length-sort, Sorted, sort-Sorted,
}
use bitcoin_analysis.Entity.Merge.{
  merged, entity-merge_loop, equal_option, merged-cons_first, merged-sort, length-entities_of,
}

-- Every address was in one of the entities found.
pub both_mem :
    (r : Option ℕ) (t : Option (List ℕ)) (es : List ℕ)
    → both r t ≡ some es
    → (e : ℕ) × (fs : List ℕ) × (r ≡ some e) × (t ≡ some fs) × (es ≡ e ∷ fs)
both_mem none t es h = absurd (ground (arith, h))
both_mem (some e) none es h = absurd (ground (arith, h))
both_mem (some e) (some fs) es h = (e, fs, refl, refl, ground (arith, h))

module _ (db : Database) (s : db.State) (full : List ℕ) where
  -- An address whose entity is among those of a list.
  abbrev HasEntity : List ℕ → Type 0
  HasEntity x = (e : ℕ) × (db.entity_of x s ≡ some e) × (mem e full ≡ true)

  entities_of-HasEntity :
      (xs : List (List ℕ)) (es : List ℕ)
      → entities_of db xs s ≡ some es
      → ((e : ℕ) → mem e es ≡ true → mem e full ≡ true)
      → All HasEntity xs
  unfolding entities_of
  entities_of-HasEntity [] es h k = tt
  entities_of-HasEntity (x ∷ xs) es h k =
      let found = both_mem (db.entity_of x s) (entities_of db xs s) es h in
      (
        (found.0, found.2, k found.0 (ap (mem found.0) found.4 ∙ mem-first found.0 found.1)),
        entities_of-HasEntity xs found.1 found.3
            (λ e l. k e (ap (mem e) found.4 ∙ mem-later e found.0 found.1 l)),
      )

pub merged-among : (m e : ℕ) (es : List ℕ) → mem e es ≡ true → merged m es (some e) ≡ some m
unfolding merged
merged-among m e es h = ap (λ b. some (if b then m else e)) h

-- All entities that were found are the least of them, in every address; the others stay.
pub record Merged (db : Database) (w : World db) (address_bv : List (List ℕ)) (entity_v : List ℕ)
    (m : ℕ) (w1 : World db) : Type 0 where
  pub among : mem m entity_v ≡ true
  pub least : (e : ℕ) → mem e entity_v ≡ true → m ≤ e
  pub entities : (x : List ℕ) → db.entity_of x w1.state ≡ merged m entity_v (db.entity_of x w.state)
  pub inputs : All (λ x. db.entity_of x w1.state ≡ some m) address_bv
  pub recorded : w1.entitychange_v ≡ w.entitychange_v ++ m ∷ []

module _ (db : Database) where
  recorded-merge_step :
      (b : Bool) (m e : ℕ) (w : World db)
      → (merge_step db b m e w).entitychange_v ≡ w.entitychange_v
  unfolding merge_step
  recorded-merge_step true m e w = refl
  recorded-merge_step false m e w = refl

  recorded-merge_loop :
      (m before : ℕ) (es : List ℕ) (w : World db)
      → (merge_loop db m before es w).entitychange_v ≡ w.entitychange_v
  unfolding merge_loop
  recorded-merge_loop m before [] w = refl
  recorded-merge_loop m before (e ∷ es) w =
      recorded-merge_loop m e es (merge_step db (not (before == e)) m e w)
      ∙ recorded-merge_step (not (before == e)) m e w

module _ (db : Database) (laws : DatabaseLaws db) (w : World db) where
  entity-checked_loop :
      (b : Bool) (m : ℕ) (es x : List ℕ)
      → is_unequal m es ≡ b
      → db.entity_of x (if b then merge_loop db m m es w else w).state
        ≡ merged m es (db.entity_of x w.state)
  entity-checked_loop true m es x h = entity-merge_loop db laws m x m es w (λ _. refl)
  entity-checked_loop false m es x h = sym (equal_option m (db.entity_of x w.state) es h)

  recorded-checked_loop :
      (b : Bool) (m : ℕ) (es : List ℕ)
      → (if b then merge_loop db m m es w else w).entitychange_v ≡ w.entitychange_v
  recorded-checked_loop true m es = recorded-merge_loop db m m es w
  recorded-checked_loop false m es = refl

  module _ (address_bv : List (List ℕ)) (entity_v : List ℕ)
      (found : entities_of db address_bv w.state ≡ some entity_v) where
    result : ℕ → List ℕ → World db
    result m es = push db m (if is_unequal m es then merge_loop db m m es w else w)

    result-Merged :
        (m : ℕ) (es : List ℕ)
        → sort entity_v ≡ m ∷ es
        → Merged db w address_bv entity_v m (result m es)
    unfolding result Sorted
    result-Merged m es e =
        let all : (x : List ℕ)
            → db.entity_of x (result m es).state ≡ merged m entity_v (db.entity_of x w.state) =
          λ x.
            entity-checked_loop (is_unequal m es) m es x refl
            ∙ merged-cons_first m es (db.entity_of x w.state)
            ∙ ap (λ l. merged m l (db.entity_of x w.state)) (sym e)
            ∙ merged-sort m entity_v (db.entity_of x w.state) in
        record {
          among = sym (mem-sort m entity_v) ∙ ap (mem m) e ∙ mem-first m es;
          least = λ x h.
              mem-Below m x (m ∷ es)
                (omega arith, (subst (λ l. Sorted l) e (sort-Sorted entity_v)).0)
                (sym (ap (mem x) e) ∙ mem-sort x entity_v ∙ h);
          entities = all;
          inputs =
              All-imply
                (λ x h. all x ∙ ap (merged m entity_v) h.1 ∙ merged-among m h.0 entity_v h.2)
                address_bv
                (entities_of-HasEntity db w.state entity_v address_bv entity_v found (λ x h. h));
          recorded = ap (λ l. l ++ m ∷ []) (recorded-checked_loop (is_unequal m es) m es);
        }

    merge_found-Merged :
        (entities : List ℕ)
        → sort entity_v ≡ entities
        → 0 < length entities
        → (m : ℕ) × (w1 : World db) × (merge_sorted db entities w ≡ some w1)
          × Merged db w address_bv entity_v m w1
    unfolding merge_sorted result
    merge_found-Merged [] e h = absurd (omega arith)
    merge_found-Merged (m ∷ es) e h = (m, result m es, refl, result-Merged m es e)

  -- A transaction with several inputs, whose addresses all have an entity, returns normally, with
  -- some `m` that is the least of these entities: every input address then has the entity `m`, so
  -- does every address whose entity was among theirs, all others keep theirs, and `m` is recorded
  -- as changed.
  pub input_entity_mysql-Merged :
      (a b : List ℕ) (rest : List (List ℕ)) (entity_v : List ℕ)
      → entities_of db (a ∷ b ∷ rest) w.state ≡ some entity_v
      → (m : ℕ) × (w1 : World db) × (input_entity_mysql db (a ∷ b ∷ rest) w ≡ some w1)
        × Merged db w (a ∷ b ∷ rest) entity_v m w1
  unfolding input_entity_mysql merge_all merge_found
  input_entity_mysql-Merged a b rest entity_v found =
      let (m, w1, e, correct) =
        merge_found-Merged (a ∷ b ∷ rest) entity_v found (sort entity_v) refl (
          omega (
            arith,
            length-sort entity_v,
            length-entities_of db (a ∷ b ∷ rest) w.state entity_v found,
          )) in
      (m, w1, ap (λ r. merge_found db r w) found ∙ e, correct)
