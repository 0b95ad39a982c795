-- ===== src/Entity/Rows.antt =====
-- A database that keeps the column `entity` of addressinfo as a list of rows, on which the
-- parameter's laws hold.
use bitcoin_analysis.Common.{
  ℕ, ◌≡◌, ◌≢◌, refl, sym, ap, ◌∙◌, List, [], ◌∷◌, Bool, true, false, Option, none, some, ◌==◌,
  if◌then◌else◌, value_or, Bool-cases, inl, inr,
}
use bitcoin_analysis.Database.{Database, DatabaseLaws, Statement, rename, put}
use bitcoin_analysis.Entity.{same_bytes}
use bitcoin_analysis.Entity.Bytes.{same_bytes_refl, same_bytes-eq}

abbrev pub Rows : Type 0
Rows = List (List ℕ × ℕ)

abbrev pub lookup : List ℕ → Rows → Option ℕ
lookup a [] = none
lookup a ((b, e) ∷ rows) = let rest = lookup a rows in if same_bytes a b then some e else rest

abbrev pub each : (List ℕ → ℕ → ℕ) → Rows → Rows
each f [] = []
each f ((b, e) ∷ rows) = (b, f b e) ∷ each f rows

abbrev pub run : Statement → Rows → Rows
run (Statement.merge_entity to from) rows = each (λ b e. if e == from then to else e) rows
run (Statement.set_entity a to) rows = each (λ b e. if same_bytes a b then to else e) rows
run (Statement.add_output a value time) rows = elim (lookup a rows) [
  | none ↦ (a, 0) ∷ rows
  | some e ↦ rows
]
run _ rows = rows

abbrev pub rows : Database
rows = record { State = Rows; exec = run; entity_of = lookup }

abbrev update : (ℕ → ℕ) → Option ℕ → Option ℕ
update f none = none
update f (some e) = some (f e)

lookup-each :
    (f : List ℕ → ℕ → ℕ) (a : List ℕ) (s : Rows) → lookup a (each f s) ≡ update (f a) (lookup a s)
lookup-each f a [] = refl
lookup-each f a ((b, e) ∷ s) = elim (Bool-cases (same_bytes a b)) [
  | inl same ↦ rw same (ap (λ x. some (f x e)) (sym (same_bytes-eq a b same)))
  | inr differ ↦ rw differ (lookup-each f a s)
]

update-rename :
    (to from : ℕ) (x : Option ℕ) → update (λ e. if e == from then to else e) x ≡ rename to from x
update-rename to from none = refl
update-rename to from (some e) = refl

update-put :
    (to : ℕ) (b : Bool) (x : Option ℕ) → b ≡ true → update (λ e. if b then to else e) x ≡ put to x
update-put to b none h = refl
update-put to b (some e) h = ap (λ c. some (if c then to else e)) h

update-same :
    (to : ℕ) (b : Bool) (x : Option ℕ) → b ≡ false → update (λ e. if b then to else e) x ≡ x
update-same to b none h = refl
update-same to b (some e) h = ap (λ c. some (if c then to else e)) h

other : (a b : List ℕ) → a ≢ b → same_bytes a b ≡ false
other a b h = elim (Bool-cases (same_bytes a b)) [
  | inl same ↦ absurd (h (same_bytes-eq a b same))
  | inr differ ↦ differ
]

added :
    (a : List ℕ) (s : Rows) (r : Option ℕ)
    → lookup a s ≡ r
    → lookup a (elim r [ none ↦ (a, 0) ∷ s | some e ↦ s ]) ≡ some (value_or r 0)
unfolding value_or
added a s none h = rw (same_bytes_refl a) refl
added a s (some e) h = h

added_other :
    (a b : List ℕ) (s : Rows) (r : Option ℕ)
    → a ≢ b
    → lookup b (elim r [ none ↦ (a, 0) ∷ s | some e ↦ s ]) ≡ lookup b s
added_other a b s none h = rw (other b a (λ e. h (sym e))) refl
added_other a b s (some e) h = refl

pub rows-DatabaseLaws : DatabaseLaws rows
rows-DatabaseLaws = record {
  merge_law = λ to from a s.
      lookup-each (λ b e. if e == from then to else e) a s ∙ update-rename to from (lookup a s);
  delete_law = λ e a s. refl;
  insert_law = λ e a s. refl;
  set_law = λ e a s.
      lookup-each (λ b x. if same_bytes a b then e else x) a s
      ∙ update-put e (same_bytes a a) (lookup a s) (same_bytes_refl a);
  set_other_law = λ e a b s h.
      lookup-each (λ c x. if same_bytes a c then e else x) b s
      ∙ update-same e (same_bytes a b) (lookup b s) (other a b h);
  add_output_law = λ a value time s. added a s (lookup a s) refl;
  add_output_other_law = λ a b value time s h. added_other a b s (lookup a s) h;
  add_input_law = λ a b value time s. refl;
  raise_maxbal_law = λ a b s. refl;
  insert_txinfo_law = λ hash txcounter blknum time size fee incnt inval outcnt outval b s. refl;
}
