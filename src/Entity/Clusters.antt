-- ===== src/Entity/Clusters.antt =====
-- The entities of BitcoinAnalysis/EntityProcess.h as sets of addresses: which addresses belong
-- together, whatever the numbers are.
use bitcoin_analysis.Common.{
  ℕ, ◌≡◌, refl, sym, ap, ◌∙◌, ◌↔◌, ◌⊎◌, inl, inr, List, [], ◌∷◌, true, false, Option, none, some,
  ◌==◌, if◌then◌else◌, arith, Bool-cases, true≢false, some-injective, ==-true,
}
use bitcoin_analysis.Database.{Database, DatabaseLaws}
use bitcoin_analysis.Entity.{World, entities_of, input_entity_mysql}
use bitcoin_analysis.Entity.Sort.{mem, mem-first, mem-later}
use bitcoin_analysis.Entity.Merge.{merged}
use bitcoin_analysis.Entity.Input.{Merged, both_mem, merged-among, input_entity_mysql-Merged}

mem-other : (e f : ℕ) (fs : List ℕ) → (e == f) ≡ false → mem e (f ∷ fs) ≡ mem e fs
unfolding mem
mem-other e f fs h = ap (λ b. if b then true else mem e fs) h

merged-other : (m e : ℕ) (es : List ℕ) → mem e es ≡ false → merged m es (some e) ≡ some e
unfolding merged
merged-other m e es h = ap (λ b. some (if b then m else e)) h

one-outside :
    (m : ℕ) (es : List ℕ) (x y : ℕ)
    → mem m es ≡ true
    → mem x es ≡ true
    → mem y es ≡ false
    → merged m es (some x) ≡ merged m es (some y)
    → ⊥
one-outside m es x y h mx ny e =
    let same = some-injective m y (sym (merged-among m x es mx) ∙ e ∙ merged-other m y es ny) in
    true≢false (sym h ∙ ap (λ k. mem k es) same ∙ ny)

-- Where two entities become one, they were one or both among those that are merged.
merged-equal :
    (m : ℕ) (es : List ℕ) (r t : Option ℕ) (e : ℕ)
    → mem m es ≡ true
    → merged m es r ≡ some e
    → merged m es t ≡ some e
    → ((k : ℕ) × (r ≡ some k) × (t ≡ some k))
      ⊎ (((k : ℕ) × (r ≡ some k) × (mem k es ≡ true))
          × ((k : ℕ) × (t ≡ some k) × (mem k es ≡ true)))
unfolding merged
merged-equal m es none t e h p q = absurd (ground (arith, p))
merged-equal m es (some x) none e h p q = absurd (ground (arith, q))
merged-equal m es (some x) (some y) e h p q = elim (Bool-cases (mem x es)) [
  | inl mx ↦ elim (Bool-cases (mem y es)) [
    | inl my ↦ inr ((x, refl, mx), (y, refl, my))
    | inr ny ↦ absurd (one-outside m es x y h mx ny (p ∙ sym q))
  ]
  | inr nx ↦ elim (Bool-cases (mem y es)) [
    | inl my ↦ absurd (one-outside m es y x h my nx (q ∙ sym p))
    | inr ny ↦ inl (x, refl, sym (merged-other m y es ny) ∙ q ∙ sym p ∙ merged-other m x es nx)
  ]
]

module _ (db : Database) where
  -- Two addresses that have rows with the same entity.
  pub Same : db.State → List ℕ → List ℕ → Type 0
  Same s x y = (e : ℕ) × (db.entity_of x s ≡ some e) × (db.entity_of y s ≡ some e)

  -- An address that belongs together with one of a list.
  pub Near : db.State → List (List ℕ) → List ℕ → Type 0
  Near s [] x = ⊥
  Near s (a ∷ rest) x = Same s x a ⊎ Near s rest x

  module _ (s : db.State) (x : List ℕ) where
    Near-mem :
        (addresses : List (List ℕ)) (es : List ℕ)
        → entities_of db addresses s ≡ some es
        → Near s addresses x
        → (e : ℕ) × (db.entity_of x s ≡ some e) × (mem e es ≡ true)
    unfolding entities_of Near Same
    Near-mem [] es h n = absurd n
    Near-mem (a ∷ rest) es h (inl same) =
        let (e, fs, first, others, split) =
          both_mem (db.entity_of a s) (entities_of db rest s) es h in
        let equal = some-injective same.0 e (sym same.2 ∙ first) in
        (e, same.1 ∙ ap some equal, ap (mem e) split ∙ mem-first e fs)
    Near-mem (a ∷ rest) es h (inr near) =
        let (e, fs, first, others, split) =
          both_mem (db.entity_of a s) (entities_of db rest s) es h in
        let (f, has, among) = Near-mem rest fs others near in
        (f, has, ap (mem f) split ∙ mem-later f e fs among)

    mem-Near :
        (addresses : List (List ℕ)) (es : List ℕ)
        → entities_of db addresses s ≡ some es
        → (e : ℕ) → db.entity_of x s ≡ some e
        → mem e es ≡ true
        → Near s addresses x
    unfolding entities_of Near Same mem
    mem-Near [] es h e has among = absurd (ground (arith, h, among))
    mem-Near (a ∷ rest) es h e has among =
        let (f, fs, first, others, split) =
          both_mem (db.entity_of a s) (entities_of db rest s) es h in
        elim (Bool-cases (e == f)) [
          | inl equal ↦ inl (e, has, first ∙ ap some (sym (==-true e f equal)))
          | inr other ↦ inr (
              mem-Near rest fs others e has
                (sym (mem-other e f fs other) ∙ sym (ap (mem e) split) ∙ among))
        ]

  module _ (w w1 : World db) (addresses : List (List ℕ)) (es : List ℕ) (m : ℕ)
      (found : entities_of db addresses w.state ≡ some es) (correct : Merged db w addresses es m w1)
      (x y : List ℕ) where
    before-Same :
        Same w1.state x y → Same w.state x y ⊎ (Near w.state addresses x × Near w.state addresses y)
    unfolding Same
    before-Same (e, p, q) =
        elim (merged-equal m es (db.entity_of x w.state) (db.entity_of y w.state) e correct.among
          (sym (correct.entities x) ∙ p) (sym (correct.entities y) ∙ q)) [
            | inl same ↦ inl same
            | inr ((k, has, among), (l, has_too, among_too)) ↦ inr (
              mem-Near w.state x addresses es found k has among,
              mem-Near w.state y addresses es found l has_too among_too,
            )
          ]

    after-Near : (z : List ℕ) → Near w.state addresses z → db.entity_of z w1.state ≡ some m
    after-Near z near =
        let (e, has, among) = Near-mem w.state z addresses es found near in
        correct.entities z ∙ ap (merged m es) has ∙ merged-among m e es among

    after-Same :
        Same w.state x y ⊎ (Near w.state addresses x × Near w.state addresses y) → Same w1.state x y
    unfolding Same merged
    after-Same (inl (e, p, q)) = (
      if mem e es then m else e,
      correct.entities x ∙ ap (merged m es) p,
      correct.entities y ∙ ap (merged m es) q,
    )
    after-Same (inr (p, q)) = (m, after-Near x p, after-Near y q)

-- A transaction with several inputs, all with an entity, returns normally, and then two addresses
-- belong together where they did before, or where each of them did with an input: the sets of the
-- inputs have become one set, and the others are as they were.
pub input_entity_mysql-Same :
    (db : Database)
    → DatabaseLaws db
    → (w : World db) (a b : List ℕ) (rest : List (List ℕ)) (entity_v : List ℕ)
    → entities_of db (a ∷ b ∷ rest) w.state ≡ some entity_v
    → (w1 : World db) × (input_entity_mysql db (a ∷ b ∷ rest) w ≡ some w1)
      × ((x y : List ℕ)
          → Same db w1.state x y ↔ (
              Same db w.state x y
              ⊎ (Near db w.state (a ∷ b ∷ rest) x × Near db w.state (a ∷ b ∷ rest) y)))
input_entity_mysql-Same db laws w a b rest entity_v found =
    let (m, w1, e, correct) = input_entity_mysql-Merged db laws w a b rest entity_v found in
    (
      w1,
      e,
      λ x y. (
        before-Same db w w1 (a ∷ b ∷ rest) entity_v m found correct x y,
        after-Same db w w1 (a ∷ b ∷ rest) entity_v m found correct x y,
      ),
    )
