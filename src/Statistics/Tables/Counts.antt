-- ===== src/Statistics/Tables/Counts.antt =====
-- The statements of BitcoinAnalysis/Statistical.h for how many entities have how many addresses, and how many addresses and entities
-- have taken part in how many transactions.
use bitcoin_analysis.Common.{List, [], ◌∷◌}
use bitcoin_analysis.Statistics.{
  Query, addressinfo, entityinfo, addcnt, tx_count, count_all, always, at_least, between, select,
}

-- NumOfAddOfEntity.
abbrev pub num_of_add_of_entity : List Query
num_of_add_of_entity =
    select count_all entityinfo always (between addcnt 1 2)
    ∷ select count_all entityinfo always (between addcnt 2 3)
    ∷ select count_all entityinfo always (between addcnt 3 4)
    ∷ select count_all entityinfo always (between addcnt 4 5)
    ∷ select count_all entityinfo always (between addcnt 5 6)
    ∷ select count_all entityinfo always (between addcnt 6 7)
    ∷ select count_all entityinfo always (between addcnt 7 8)
    ∷ select count_all entityinfo always (between addcnt 8 9)
    ∷ select count_all entityinfo always (between addcnt 9 10)
    ∷ select count_all entityinfo always (between addcnt 10 20)
    ∷ select count_all entityinfo always (between addcnt 20 30)
    ∷ select count_all entityinfo always (between addcnt 30 40)
    ∷ select count_all entityinfo always (between addcnt 40 50)
    ∷ select count_all entityinfo always (between addcnt 50 60)
    ∷ select count_all entityinfo always (between addcnt 60 70)
    ∷ select count_all entityinfo always (between addcnt 70 80)
    ∷ select count_all entityinfo always (between addcnt 80 90)
    ∷ select count_all entityinfo always (between addcnt 90 100)
    ∷ select count_all entityinfo always (between addcnt 100 200)
    ∷ select count_all entityinfo always (between addcnt 200 300)
    ∷ select count_all entityinfo always (between addcnt 300 400)
    ∷ select count_all entityinfo always (between addcnt 400 500)
    ∷ select count_all entityinfo always (between addcnt 500 1000)
    ∷ select count_all entityinfo always (between addcnt 1000 2000)
    ∷ select count_all entityinfo always (between addcnt 2000 3000)
    ∷ select count_all entityinfo always (between addcnt 3000 4000)
    ∷ select count_all entityinfo always (between addcnt 4000 5000)
    ∷ select count_all entityinfo always (between addcnt 5000 10000)
    ∷ select count_all entityinfo always (between addcnt 10000 50000)
    ∷ select count_all entityinfo always (between addcnt 50000 100000)
    ∷ select count_all entityinfo always (at_least addcnt 100000)
    ∷ []

-- TxcntOfAdd.
abbrev pub txcnt_of_add : List Query
txcnt_of_add =
    select count_all addressinfo always (between tx_count 1 2)
    ∷ select count_all addressinfo always (between tx_count 2 3)
    ∷ select count_all addressinfo always (between tx_count 3 4)
    ∷ select count_all addressinfo always (between tx_count 4 5)
    ∷ select count_all addressinfo always (between tx_count 5 6)
    ∷ select count_all addressinfo always (between tx_count 6 7)
    ∷ select count_all addressinfo always (between tx_count 7 8)
    ∷ select count_all addressinfo always (between tx_count 8 9)
    ∷ select count_all addressinfo always (between tx_count 9 10)
    ∷ select count_all addressinfo always (between tx_count 10 100)
    ∷ select count_all addressinfo always (between tx_count 100 200)
    ∷ select count_all addressinfo always (between tx_count 200 300)
    ∷ select count_all addressinfo always (between tx_count 300 400)
    ∷ select count_all addressinfo always (between tx_count 400 500)
    ∷ select count_all addressinfo always (between tx_count 500 600)
    ∷ select count_all addressinfo always (between tx_count 600 700)
    ∷ select count_all addressinfo always (between tx_count 700 800)
    ∷ select count_all addressinfo always (between tx_count 800 900)
    ∷ select count_all addressinfo always (between tx_count 900 1000)
    ∷ select count_all addressinfo always (between tx_count 1000 5000)
    ∷ select count_all addressinfo always (between tx_count 5000 10000)
    ∷ select count_all addressinfo always (between tx_count 10000 50000)
    ∷ select count_all addressinfo always (between tx_count 50000 100000)
    ∷ select count_all addressinfo always (between tx_count 100000 500000)
    ∷ select count_all addressinfo always (at_least tx_count 500000)
    ∷ []

-- TxcntOfEntity.
abbrev pub txcnt_of_entity : List Query
txcnt_of_entity =
    select count_all entityinfo always (between tx_count 1 2)
    ∷ select count_all entityinfo always (between tx_count 2 3)
    ∷ select count_all entityinfo always (between tx_count 3 4)
    ∷ select count_all entityinfo always (between tx_count 4 5)
    ∷ select count_all entityinfo always (between tx_count 5 6)
    ∷ select count_all entityinfo always (between tx_count 6 7)
    ∷ select count_all entityinfo always (between tx_count 7 8)
    ∷ select count_all entityinfo always (between tx_count 8 9)
    ∷ select count_all entityinfo always (between tx_count 9 10)
    ∷ select count_all entityinfo always (between tx_count 10 100)
    ∷ select count_all entityinfo always (between tx_count 100 200)
    ∷ select count_all entityinfo always (between tx_count 200 300)
    ∷ select count_all entityinfo always (between tx_count 300 400)
    ∷ select count_all entityinfo always (between tx_count 400 500)
    ∷ select count_all entityinfo always (between tx_count 500 600)
    ∷ select count_all entityinfo always (between tx_count 600 700)
    ∷ select count_all entityinfo always (between tx_count 700 800)
    ∷ select count_all entityinfo always (between tx_count 800 900)
    ∷ select count_all entityinfo always (between tx_count 900 1000)
    ∷ select count_all entityinfo always (between tx_count 1000 5000)
    ∷ select count_all entityinfo always (between tx_count 5000 10000)
    ∷ select count_all entityinfo always (between tx_count 10000 50000)
    ∷ select count_all entityinfo always (between tx_count 50000 100000)
    ∷ select count_all entityinfo always (between tx_count 100000 500000)
    ∷ select count_all entityinfo always (at_least tx_count 500000)
    ∷ []
