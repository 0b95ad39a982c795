-- ===== src/Entity/Assign.antt =====
-- What output_entity_mysql of BitcoinAnalysis/EntityProcess.h does: an output address that has no
-- entity yet, the 0 of the table's default, gets a new one.
use bitcoin_analysis.Common.{
  ℕ, zero, suc, ◌+◌, ◌≤◌, ◌<◌, ◌^◌, ◌≡◌, ◌≢◌, refl, sym, ap, ◌∙◌, List, [], ◌∷◌, Bool, true, false,
  some, if◌then◌else◌, All, All-imply, length, arith, Bool-cases, inl, inr, u32, ◌⊎◌,
  some-injective, zero==suc,
}
use mathlib.Core.Path.{subst}
use bitcoin_analysis.Database.{Database, DatabaseLaws, Statement, put}
use bitcoin_analysis.Entity.Bytes.{same_bytes-eq, same_bytes-differ}
use bitcoin_analysis.Entity.{
  same_bytes, World, push, query, insert_entity_mysql, output_step, output_found,
  output_entity_mysql,
}

-- An entity other than 0 is kept; 0 stays or becomes a number behind the counter's old value and
-- up to its new one.
pub Change : ℕ → ℕ → ℕ → ℕ → Type 0
Change before after old new =
    ((old ≢ 0) × (new ≡ old)) ⊎ ((old ≡ 0) × ((new ≡ 0) ⊎ ((before < new) × (new ≤ after))))

Change-same : (c0 c1 e : ℕ) → c0 ≤ c1 → Change c0 c1 e e
unfolding Change
Change-same c0 c1 e h = ground arith

Change-trans :
    (c0 c1 c2 x y z : ℕ)
    → c0 ≤ c1
    → c1 ≤ c2
    → Change c0 c1 x y
    → Change c1 c2 y z
    → Change c0 c2 x z
unfolding Change
Change-trans c0 c1 c2 x y z h k p q = ground arith

Change-new : (c : ℕ) → Change c (suc c) 0 (suc c)
unfolding Change
Change-new c = ground arith

module _ (db : Database) where
  -- The entities of the addresses that have a row, before and after.
  pub Changed : ℕ → ℕ → db.State → db.State → Type 0
  Changed c0 c1 s t =
      (x : List ℕ) (old : ℕ)
      → db.entity_of x s ≡ some old
      → (new : ℕ) × (db.entity_of x t ≡ some new) × Change c0 c1 old new

  Changed-same : (c : ℕ) (s : db.State) → Changed c c s s
  unfolding Changed
  Changed-same c s x old h = (old, h, Change-same c c old (omega arith))

  Changed-trans :
      (c0 c1 c2 : ℕ) (s t u : db.State)
      → c0 ≤ c1
      → c1 ≤ c2
      → Changed c0 c1 s t
      → Changed c1 c2 t u
      → Changed c0 c2 s u
  unfolding Changed
  Changed-trans c0 c1 c2 s t u h k p q x old e =
      let (new, found, change) = p x old e in
      let (newer, found1, change1) = q x new found in
      (newer, found1, Change-trans c0 c1 c2 old new newer h k change change1)

  -- One step on an address that has a row: the counter moves by at most one, the address has an
  -- entity other than 0.
  record Step (a : List ℕ) (c : ℕ) (w : World db) (r : ℕ × World db) : Type 0 where
    low : c ≤ r.0
    high : r.0 ≤ suc c
    changed : Changed c r.0 w.state r.1.state
    assigned : (e : ℕ) × (db.entity_of a r.1.state ≡ some e) × (e ≢ 0)

module _ (db : Database) (laws : DatabaseLaws db) (a : List ℕ) (c : ℕ) (w : World db)
    (room : suc c < 2 ^ 32) where
  fresh : ℕ × World db
  fresh = (
    suc c,
    push db (suc c) (insert_entity_mysql db (suc c) (query db (Statement.set_entity a (suc c)) w)),
  )

  fresh-entity :
      (b : List ℕ)
      → db.entity_of b fresh.1.state
        ≡ db.entity_of b (db.exec (Statement.set_entity a (suc c)) w.state)
  unfolding fresh insert_entity_mysql
  fresh-entity b = laws.insert_law (suc c) b _

  fresh-assigned : db.entity_of a w.state ≡ some 0 → db.entity_of a fresh.1.state ≡ some (suc c)
  fresh-assigned h = fresh-entity a ∙ laws.set_law (suc c) a w.state ∙ ap (put (suc c)) h

  fresh-Changed : db.entity_of a w.state ≡ some 0 → Changed db c (suc c) w.state fresh.1.state
  unfolding Changed
  fresh-Changed h b old e = elim (Bool-cases (same_bytes a b)) [
    | inl same ↦ (
      suc c,
      ap (λ x. db.entity_of x fresh.1.state) (sym (same_bytes-eq a b same)) ∙ fresh-assigned h,
      subst (λ (n : ℕ). Change c (suc c) n (suc c))
          (some-injective 0 old
            (sym h ∙ ap (λ x. db.entity_of x w.state) (same_bytes-eq a b same) ∙ e))
          (Change-new c),
    )
    | inr differ ↦ (
      old,
      fresh-entity b ∙ laws.set_other_law (suc c) a b w.state (same_bytes-differ a b differ) ∙ e,
      Change-same c (suc c) old (omega arith),
    )
  ]

  next_count : u32 (c + 1) ≡ suc c
  next_count = omega arith

  -- The two results of the branch.
  taken : ℕ → Bool → ℕ × World db
  taken n b =
      if b
      then (n, push db n (insert_entity_mysql db n (query db (Statement.set_entity a n) w)))
      else (c, push db c w)

  taken-fresh : db.entity_of a w.state ≡ some 0 → Step db a c w (taken (suc c) true)
  unfolding taken fresh
  taken-fresh h = record {
    low = omega arith;
    high = omega arith;
    changed = fresh-Changed h;
    assigned = (suc c, fresh-assigned h, omega arith);
  }

  taken-kept : (n e : ℕ) → db.entity_of a w.state ≡ some (suc e) → Step db a c w (taken n false)
  unfolding taken
  taken-kept n e h = record {
    low = omega arith;
    high = omega arith;
    changed = Changed-same db c w.state;
    assigned = (suc e, h, omega arith);
  }

  output_step-Step :
      (e : ℕ) → db.entity_of a w.state ≡ some e → Step db a c w (output_step db a c w e)
  unfolding output_step taken
  output_step-Step zero h =
      subst (λ (n : ℕ). Step db a c w (taken n true)) (sym next_count) (taken-fresh h)
  output_step-Step (suc e) h =
      subst (λ b. Step db a c w (taken (u32 (c + 1)) b)) (sym (zero==suc e))
        (taken-kept (u32 (c + 1)) e h)

-- What the loop leaves: the counter, every address's entity, and those of the outputs.
pub record Assigned (db : Database) (address_bv : List (List ℕ)) (c : ℕ) (w : World db)
    (r : ℕ × World db) : Type 0 where
  pub low : c ≤ r.0
  pub high : r.0 ≤ c + length address_bv
  pub changed : Changed db c r.0 w.state r.1.state
  pub outputs : All (λ x. (e : ℕ) × (db.entity_of x r.1.state ≡ some e) × (e ≢ 0)) address_bv

-- An entity other than 0 is there to stay.
stays :
    (db : Database) (c0 c1 : ℕ) (s t : db.State) (x : List ℕ)
    → Changed db c0 c1 s t
    → (e : ℕ) × (db.entity_of x s ≡ some e) × (e ≢ 0)
    → (e : ℕ) × (db.entity_of x t ≡ some e) × (e ≢ 0)
unfolding Changed Change
stays db c0 c1 s t x changed (e, found, nonzero) =
    let (new, found1, change) = changed x e found in (new, found1, ground (arith, change))

-- Rows stay.
module _ (db : Database) (laws : DatabaseLaws db) where
  -- Every address of the list has a row.
  abbrev pub HasRow : db.State → List ℕ → Type 0
  HasRow s x = (e : ℕ) × (db.entity_of x s ≡ some e)

  -- The outputs of a transaction whose addresses all have a row, below the counter's bound: the
  -- function returns normally, every output address then has an entity other than 0, an entity
  -- other than 0 is kept at every address, a new one is a number that the counter passed over, and
  -- the counter moves by no more than the number of outputs.
  pub output_entity_mysql-Assigned :
      (address_bv : List (List ℕ)) (c : ℕ) (w : World db)
      → c + length address_bv < 2 ^ 32
      → All (HasRow w.state) address_bv
      → (r : ℕ × World db) × (output_entity_mysql db address_bv c w ≡ some r)
        × Assigned db address_bv c w r
  unfolding output_entity_mysql output_found Changed
  output_entity_mysql-Assigned [] c w h rows = (
    (c, w),
    refl,
    record {
      low = omega arith;
      high = omega arith;
      changed = Changed-same db c w.state;
      outputs = tt;
    },
  )
  output_entity_mysql-Assigned (a ∷ xs) c w h rows =
      let r = output_step db a c w rows.0.0 in
      let step = output_step-Step db laws a c w (omega arith) rows.0.0 rows.0.1 in
      let rows1 : All (HasRow r.1.state) xs =
        All-imply (λ x row. let (new, found, _) = step.changed x row.0 row.1 in (new, found)) xs
          rows.1 in
      let (r1, e1, done) =
        output_entity_mysql-Assigned xs r.0 r.1 (omega (arith, step.high)) rows1 in
      (
        r1,
        rw (output_entity_mysql, rows.0.1) e1,
        record {
          low = omega (arith, step.low, done.low);
          high = omega (arith, step.high, done.high);
          changed =
              Changed-trans db c r.0 r1.0 w.state r.1.state r1.1.state step.low done.low
                step.changed done.changed;
          outputs =
              (stays db r.0 r1.0 r.1.state r1.1.state a done.changed step.assigned, done.outputs);
        },
      )
