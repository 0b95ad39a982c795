-- ===== src/Entity/Merge.antt =====
-- What input_entity_mysql of BitcoinAnalysis/EntityProcess.h leaves in the database: the entities
-- of all input addresses are one, the least of them.
use bitcoin_analysis.Common.{
  ℕ, suc, ◌≡◌, refl, sym, ap, ◌∙◌, List, [], ◌∷◌, Bool, true, false, not, Option, none, some, ◌==◌,
  if◌then◌else◌, length, arith,
}
use bitcoin_analysis.Database.{Database, DatabaseLaws, rename}
use bitcoin_analysis.Entity.{World, sort, both, is_unequal, entities_of, merge_step, merge_loop}
use bitcoin_analysis.Entity.Sort.{mem, mem-sort}

-- The entity `m` for those among `es`, and what it was for others.
unfoldable pub merged : ℕ → List ℕ → Option ℕ → Option ℕ
merged m es none = none
merged m es (some e) = some (if mem e es then m else e)

renamed : Bool → ℕ → ℕ → Option ℕ → Option ℕ
renamed true m e x = rename m e x
renamed false m e x = x

merged-renamed :
    (m before e x : ℕ) (es : List ℕ)
    → (x ≡ before → before ≡ m)
    → merged m es (renamed (not (before == e)) m e (some x)) ≡ merged m (e ∷ es) (some x)
unfolding merged mem renamed
merged-renamed m before e x es h = ground arith

module _ (db : Database) (laws : DatabaseLaws db) (m : ℕ) (a : List ℕ) where
  entity-merge_step :
      (b : Bool) (e : ℕ) (w : World db)
      → db.entity_of a (merge_step db b m e w).state ≡ renamed b m e (db.entity_of a w.state)
  unfolding merge_step renamed
  entity-merge_step true e w = laws.delete_law e a _ ∙ laws.merge_law m e a w.state
  entity-merge_step false e w = refl

merged-nil : (m : ℕ) (x : Option ℕ) → merged m [] x ≡ x
unfolding merged mem
merged-nil m none = refl
merged-nil m (some x) = refl

module _ (m before e : ℕ) where
  merged-renamed_option :
      (es : List ℕ) (x : Option ℕ)
      → (x ≡ some before → before ≡ m)
      → merged m es (renamed (not (before == e)) m e x) ≡ merged m (e ∷ es) x
  unfolding merged renamed
  merged-renamed_option es none h = nothing (not (before == e))
    where
      nothing : (b : Bool) → merged m es (renamed b m e none) ≡ none
      nothing true = refl
      nothing false = refl
  merged-renamed_option es (some x) h = merged-renamed m before e x es (λ k. h (ap some k))

  -- After a step only the least entity can equal the one the loop stands at.
  settled :
      (x : Option ℕ)
      → (x ≡ some before → before ≡ m)
      → renamed (not (before == e)) m e x ≡ some e
      → e ≡ m
  unfolding renamed
  settled none h k = ground (arith, k)
  settled (some x) h k = ground (arith, k, (λ (l : x ≡ before). h (ap some l)))

module _ (db : Database) (laws : DatabaseLaws db) (m : ℕ) (a : List ℕ) where
  pub entity-merge_loop :
      (before : ℕ) (es : List ℕ) (w : World db)
      → (db.entity_of a w.state ≡ some before → before ≡ m)
      → db.entity_of a (merge_loop db m before es w).state ≡ merged m es (db.entity_of a w.state)
  unfolding merge_loop
  entity-merge_loop before [] w h = sym (merged-nil m (db.entity_of a w.state))
  entity-merge_loop before (e ∷ es) w h =
      let b = not (before == e) in
      let step = entity-merge_step db laws m a b e w in
      entity-merge_loop e es (merge_step db b m e w)
        (λ k. settled m before e (db.entity_of a w.state) h (sym step ∙ k))
      ∙ ap (merged m es) step
      ∙ merged-renamed_option m before e es (db.entity_of a w.state) h

-- Where all entities are the first, the loop would change nothing.
equal_list : (m x : ℕ) (es : List ℕ) → is_unequal m es ≡ false → merged m es (some x) ≡ some x
unfolding is_unequal merged mem
equal_list m x [] h = refl
equal_list m x (e ∷ es) h = ground (arith, equal_list m x es)

pub equal_option :
    (m : ℕ) (x : Option ℕ) (es : List ℕ) → is_unequal m es ≡ false → merged m es x ≡ x
unfolding merged
equal_option m none es h = refl
equal_option m (some x) es h = equal_list m x es h

-- The first entity is among those merged.
pub merged-cons_first : (m : ℕ) (es : List ℕ) (x : Option ℕ) → merged m es x ≡ merged m (m ∷ es) x
unfolding merged mem
merged-cons_first m es none = refl
merged-cons_first m es (some x) = ground arith

pub merged-sort : (m : ℕ) (es : List ℕ) (x : Option ℕ) → merged m (sort es) x ≡ merged m es x
unfolding merged
merged-sort m es none = refl
merged-sort m es (some x) = ap (λ b. some (if b then m else x)) (mem-sort x es)

-- The entities that are found: as many as there are addresses, and each is that of its address.
both-length :
    (n : ℕ) (r : Option ℕ) (t : Option (List ℕ)) (es : List ℕ)
    → ((fs : List ℕ) → t ≡ some fs → length fs ≡ n)
    → both r t ≡ some es
    → length es ≡ suc n
both-length n none t es h k = ground (arith, k)
both-length n (some e) none es h k = ground (arith, k)
both-length n (some e) (some fs) es h k = ground (arith, h fs refl, k)

module _ (db : Database) where
  pub length-entities_of :
      (xs : List (List ℕ)) (s : db.State) (es : List ℕ)
      → entities_of db xs s ≡ some es
      → length es ≡ length xs
  unfolding entities_of
  length-entities_of [] s es h = ground (arith, h)
  length-entities_of (x ∷ xs) s es h =
      both-length (length xs) (db.entity_of x s) (entities_of db xs s) es
        (λ fs e. length-entities_of xs s fs e) h
