-- ===== src/Statistics/Partition.antt =====
-- The arrays of distributions of BitcoinAnalysis/Statistical.h: what their counts add up to.
use bitcoin_analysis.Common.{
  ℕ, ◌+◌, ◌≤◌, ◌≡◌, refl, ap, ◌∙◌, List, [], ◌∷◌, map, Bool, true, ◌&&◌, leb, arith, drop, All,
}
use bitcoin_analysis.Statistics.{
  Query, Table, Column, Condition, with_time, txtime, always, whole, within_window, is_after_after,
  count_all, select, at_least, between, addressinfo, entityinfo, txinfo, addcnt, outval, bal,
  maxbal, tx_count, outvalue, txsize,
}
use bitcoin_analysis.Statistics.Tables.{btc}
use bitcoin_analysis.Statistics.Tables.Counts.{num_of_add_of_entity, txcnt_of_add, txcnt_of_entity}
use bitcoin_analysis.Statistics.Tables.Outputs.{outval_of_add, outval_of_entity, outval_of_tx}
use bitcoin_analysis.Statistics.Tables.Balances.{bal_of_add, bal_of_entity}
use bitcoin_analysis.Statistics.Tables.Peaks.{maxbal_of_add, maxbal_of_entity}
use bitcoin_analysis.Statistics.Tables.Windows.{tx_amount, tx_size}

-- The counts of the rows from each bound up to the next, and from the last one on.
unfoldable buckets : Table → Condition → Column → List ℕ → List Query
buckets t d c [] = []
buckets t d c (lo ∷ []) = select count_all t d (at_least c lo) ∷ []
buckets t d c (lo ∷ hi ∷ rest) = select count_all t d (between c lo hi) ∷ buckets t d c (hi ∷ rest)

unfoldable ascending : List ℕ → Bool
ascending [] = true
ascending (lo ∷ []) = true
ascending (lo ∷ hi ∷ rest) = leb lo hi && ascending (hi ∷ rest)

-- The answers to SELECT count(*) that a server gives: a row with a value from `lo` on has it below
-- `hi`, or it has it from `hi` on, and not both.
pub record Splits (count : Query → ℕ) : Type 0 where
  pub split :
      (t : Table) (d : Condition) (c : Column) (lo hi : ℕ)
      → lo ≤ hi
      → count (select count_all t d (between c lo hi))
          + count (select count_all t d (at_least c hi))
        ≡ count (select count_all t d (at_least c lo))

unfoldable pub total : (Query → ℕ) → List Query → ℕ
total count [] = 0
total count (q ∷ qs) = count q + total count qs

total-buckets :
    (count : Query → ℕ) (law : Splits count) (t : Table) (d : Condition) (c : Column) (lo : ℕ)
    (rest : List ℕ)
    → ascending (lo ∷ rest) ≡ true
    → total count (buckets t d c (lo ∷ rest)) ≡ count (select count_all t d (at_least c lo))
unfolding total buckets ascending
total-buckets count law t d c lo [] h = omega arith
total-buckets count law t d c lo (hi ∷ rest) h =
    ap (λ n. count (select count_all t d (between c lo hi)) + n)
      (total-buckets count law t d c hi rest (ground (arith, h)))
    ∙ law.split t d c lo hi (ground (arith, h))

-- An array of a distribution: the rows, the time and the column that it is about, its least bound,
-- and its statements as they are sent.
pub record Distribution : Type 0 where
  pub table : Table
  pub time : Condition
  pub column : Column
  pub least : ℕ
  pub queries : List Query

abbrev pub distribution : Table → Condition → Column → ℕ → List Query → Distribution
distribution t d c lo qs = record { table = t; time = d; column = c; least = lo; queries = qs }

-- The lower bounds of statements.
unfoldable lower_bound : Query → ℕ
lower_bound (select a t d whole) = 0
lower_bound (select a t d (at_least c lo)) = lo
lower_bound (select a t d (between c lo hi)) = lo

contiguous :
    (count : Query → ℕ) (law : Splits count) (d : Distribution) (rest : List ℕ)
    → d.queries ≡ buckets d.table d.time d.column (d.least ∷ rest)
    → ascending (d.least ∷ rest) ≡ true
    → total count d.queries ≡ count (select count_all d.table d.time (at_least d.column d.least))
contiguous count law d rest e h =
    ap (total count) e ∙ total-buckets count law d.table d.time d.column d.least rest h

unfoldable upper_bounds : Distribution → List ℕ
upper_bounds d = map lower_bound (drop 1 d.queries)

abbrev pub sent_distributions : List Distribution
sent_distributions =
    distribution entityinfo always addcnt 1 num_of_add_of_entity
    ∷ distribution addressinfo always outval 0 outval_of_add
    ∷ distribution entityinfo always outval 0 outval_of_entity
    ∷ distribution addressinfo always bal 0 bal_of_add
    ∷ distribution entityinfo always bal 0 bal_of_entity
    ∷ distribution addressinfo always maxbal 0 maxbal_of_add
    ∷ distribution entityinfo always maxbal 0 maxbal_of_entity
    ∷ distribution addressinfo always tx_count 1 txcnt_of_add
    ∷ distribution entityinfo always tx_count 1 txcnt_of_entity
    ∷ distribution txinfo (is_after_after txtime) outvalue 0 outval_of_tx
    ∷ distribution txinfo (within_window txtime) txsize 0
        (map (with_time (within_window txtime)) tx_size)
    ∷ []

-- Where the server's counts of disjoint ranges add up, the counts of each distribution that is sent,
-- the amounts of a window aside, are together the count of all rows from its least bound on.
pub sent_distributions-total :
    (count : Query → ℕ) (law : Splits count)
    → All
        (λ d.
          total count d.queries
          ≡ count (select count_all d.table d.time (at_least d.column d.least)))
        sent_distributions
unfolding buckets ascending lower_bound upper_bounds
sent_distributions-total count law =
    let part =
      λ (d : Distribution)
          (e : d.queries ≡ buckets d.table d.time d.column (d.least ∷ upper_bounds d))
          (h : ascending (d.least ∷ upper_bounds d) ≡ true).
        contiguous count law d (upper_bounds d) e h in
    (
      part _ refl refl,
      (
        part _ refl refl,
        (
          part _ refl refl,
          (
            part _ refl refl,
            (
              part _ refl refl,
              (
                part _ refl refl,
                (
                  part _ refl refl,
                  (
                    part _ refl refl,
                    (part _ refl refl, (part _ refl refl, (part _ refl refl, tt))),
                  ),
                ),
              ),
            ),
          ),
        ),
      ),
    )

-- Where the server's counts of disjoint ranges add up, the counts for the amounts of a window are
-- together the count of all rows of 320 coins or more less that of the rows of 400 up to 420 coins.
pub tx_amount-gap :
    (count : Query → ℕ) (law : Splits count)
    → total count (map (with_time (within_window txtime)) (drop 22 tx_amount))
        + count
            (select count_all txinfo (within_window txtime) (between outvalue (btc 400) (btc 420)))
      ≡ count (select count_all txinfo (within_window txtime) (at_least outvalue (btc 320)))
unfolding total buckets ascending
tx_amount-gap count law = omega (
  arith,
  total-buckets count law txinfo (within_window txtime) outvalue (btc 320)
      (map btc
        (340 ∷ 360 ∷ 380 ∷ 400 ∷ 420 ∷ 440 ∷ 460 ∷ 480 ∷ 500 ∷ 520 ∷ 540 ∷ 560 ∷ 580 ∷ 600 ∷ []))
      refl,
)
