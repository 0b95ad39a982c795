-- ===== src/Statistics/Rows.antt =====
-- A server that counts the rows of lists: an instance on which the law is proved that the theorems
-- about BitcoinAnalysis/Statistical.h assume of the server.
use bitcoin_analysis.Common.{
  ℕ, ◌+◌, ◌≤◌, ◌≡◌, refl, List, [], ◌∷◌, Bool, true, ◌&&◌, leb, ltb, arith, if◌then◌else◌,
}
use bitcoin_analysis.Statistics.{
  Query, Table, Column, TimeColumn, Condition, Range, select, count_all, whole, at_least, between,
  always, is_before_before, is_after_after, is_after_before, within_window,
}

-- A row as the statements see it: its columns and its times, in seconds.
pub record Row : Type 0 where
  pub value : Column → ℕ
  pub time : TimeColumn → ℕ

-- The texts `before` and `after` as times.
pub record Window : Type 0 where
  pub before : ℕ
  pub after : ℕ

unfoldable pub is_in_time : Window → Condition → Row → Bool
is_in_time w always r = true
is_in_time w (is_before_before c) r = ltb (r.time c) w.before
is_in_time w (is_after_after c) r = ltb w.after (r.time c)
is_in_time w (is_after_before c) r = ltb w.before (r.time c)
is_in_time w (within_window c) r = leb w.after (r.time c) && ltb (r.time c) w.before

unfoldable pub is_in_range : Range → Row → Bool
is_in_range whole r = true
is_in_range (at_least c lo) r = leb lo (r.value c)
is_in_range (between c lo hi) r = leb lo (r.value c) && ltb (r.value c) hi

-- The rows that a statement is about.
unfoldable pub selects : Window → Query → Row → Bool
selects w (select a t c range) r = is_in_time w c r && is_in_range range r

unfoldable pub count_rows : (Row → Bool) → List Row → ℕ
count_rows p [] = 0
count_rows p (r ∷ rs) = (if p r then 1 else 0) + count_rows p rs

-- The answer to SELECT count(*) of a statement, where `rows` are the rows of each table.
unfoldable pub count_of : Window → (Table → List Row) → Query → ℕ
count_of w rows (select a t c range) = count_rows (selects w (select a t c range)) (rows t)

count_rows-split :
    (w : Window) (t : Table) (d : Condition) (c : Column) (lo hi : ℕ) (rs : List Row)
    → lo ≤ hi
    → count_rows (selects w (select count_all t d (between c lo hi))) rs
        + count_rows (selects w (select count_all t d (at_least c hi))) rs
      ≡ count_rows (selects w (select count_all t d (at_least c lo))) rs
unfolding count_rows selects is_in_range
count_rows-split w t d c lo hi [] h = refl
count_rows-split w t d c lo hi (r ∷ rs) h = ground (arith, count_rows-split w t d c lo hi rs h)

pub count_of-split :
    (w : Window) (rows : Table → List Row) (t : Table) (d : Condition) (c : Column) (lo hi : ℕ)
    → lo ≤ hi
    → count_of w rows (select count_all t d (between c lo hi))
        + count_of w rows (select count_all t d (at_least c hi))
      ≡ count_of w rows (select count_all t d (at_least c lo))
unfolding count_of
count_of-split w rows t d c lo hi h = count_rows-split w t d c lo hi (rows t) h
