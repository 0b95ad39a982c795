-- ===== src/Ledger/Entries.antt =====
-- A key-value store that is a list of keys and values, on which the parameter's laws hold.
use bitcoin_analysis.Common.{
  ℕ, ◌≡◌, ◌≢◌, refl, List, [], ◌∷◌, false, Option, none, some, if◌then◌else◌, Bool-cases, inl, inr,
}
use bitcoin_analysis.Entity.{same_bytes}
use bitcoin_analysis.Entity.Bytes.{same_bytes_refl, same_bytes-eq}
use bitcoin_analysis.Ledger.{KeyValue, KeyValueLaws}

abbrev pub find : List ℕ → List (List ℕ × List ℕ) → Option (List ℕ)
find k [] = none
find k ((l, v) ∷ entries) = let rest = find k entries in if same_bytes l k then some v else rest

abbrev pub entries : KeyValue
entries = record { Store = List (List ℕ × List ℕ); get = find; put = λ k v s. (k, v) ∷ s }

differ : (k l : List ℕ) → k ≢ l → same_bytes k l ≡ false
differ k l h = elim (Bool-cases (same_bytes k l)) [
  | inl same ↦ absurd (h (same_bytes-eq k l same))
  | inr other ↦ other
]

pub entries-KeyValueLaws : KeyValueLaws entries
entries-KeyValueLaws = record {
  get_put = λ k v s. rw (same_bytes_refl k) refl;
  get_put_other = λ k l v s h. rw (differ k l h) refl;
}
