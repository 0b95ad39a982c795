-- ===== src/Statistics/Tables/Outputs.antt =====
-- The statements of BitcoinAnalysis/Statistical.h for the distribution of the values received.
use bitcoin_analysis.Common.{List, [], ◌∷◌}
use bitcoin_analysis.Statistics.{
  Query, addressinfo, entityinfo, txinfo, outval, outvalue, txtime, count_all, always,
  is_after_after, at_least, between, select,
}
use bitcoin_analysis.Statistics.Tables.{btc}

-- OutvalOfAdd.
abbrev pub outval_of_add : List Query
outval_of_add =
    select count_all addressinfo always (between outval (btc 0) (btc 1))
    ∷ select count_all addressinfo always (between outval (btc 1) (btc 2))
    ∷ select count_all addressinfo always (between outval (btc 2) (btc 3))
    ∷ select count_all addressinfo always (between outval (btc 3) (btc 4))
    ∷ select count_all addressinfo always (between outval (btc 4) (btc 5))
    ∷ select count_all addressinfo always (between outval (btc 5) (btc 6))
    ∷ select count_all addressinfo always (between outval (btc 6) (btc 7))
    ∷ select count_all addressinfo always (between outval (btc 7) (btc 8))
    ∷ select count_all addressinfo always (between outval (btc 8) (btc 9))
    ∷ select count_all addressinfo always (between outval (btc 9) (btc 10))
    ∷ select count_all addressinfo always (between outval (btc 10) (btc 20))
    ∷ select count_all addressinfo always (between outval (btc 20) (btc 30))
    ∷ select count_all addressinfo always (between outval (btc 30) (btc 40))
    ∷ select count_all addressinfo always (between outval (btc 40) (btc 50))
    ∷ select count_all addressinfo always (between outval (btc 50) (btc 60))
    ∷ select count_all addressinfo always (between outval (btc 60) (btc 70))
    ∷ select count_all addressinfo always (between outval (btc 70) (btc 80))
    ∷ select count_all addressinfo always (between outval (btc 80) (btc 90))
    ∷ select count_all addressinfo always (between outval (btc 90) (btc 100))
    ∷ select count_all addressinfo always (between outval (btc 100) (btc 1000))
    ∷ select count_all addressinfo always (between outval (btc 1000) (btc 2000))
    ∷ select count_all addressinfo always (between outval (btc 2000) (btc 3000))
    ∷ select count_all addressinfo always (between outval (btc 3000) (btc 4000))
    ∷ select count_all addressinfo always (between outval (btc 4000) (btc 5000))
    ∷ select count_all addressinfo always (between outval (btc 5000) (btc 6000))
    ∷ select count_all addressinfo always (between outval (btc 6000) (btc 7000))
    ∷ select count_all addressinfo always (between outval (btc 7000) (btc 8000))
    ∷ select count_all addressinfo always (between outval (btc 8000) (btc 9000))
    ∷ select count_all addressinfo always (between outval (btc 9000) (btc 10000))
    ∷ select count_all addressinfo always (between outval (btc 10000) (btc 20000))
    ∷ select count_all addressinfo always (between outval (btc 20000) (btc 30000))
    ∷ select count_all addressinfo always (between outval (btc 30000) (btc 40000))
    ∷ select count_all addressinfo always (between outval (btc 40000) (btc 50000))
    ∷ select count_all addressinfo always (between outval (btc 50000) (btc 60000))
    ∷ select count_all addressinfo always (between outval (btc 60000) (btc 70000))
    ∷ select count_all addressinfo always (between outval (btc 70000) (btc 80000))
    ∷ select count_all addressinfo always (between outval (btc 80000) (btc 90000))
    ∷ select count_all addressinfo always (between outval (btc 90000) (btc 100000))
    ∷ select count_all addressinfo always (between outval (btc 100000) (btc 200000))
    ∷ select count_all addressinfo always (between outval (btc 200000) (btc 300000))
    ∷ select count_all addressinfo always (between outval (btc 300000) (btc 400000))
    ∷ select count_all addressinfo always (between outval (btc 400000) (btc 500000))
    ∷ select count_all addressinfo always (between outval (btc 500000) (btc 600000))
    ∷ select count_all addressinfo always (between outval (btc 600000) (btc 700000))
    ∷ select count_all addressinfo always (between outval (btc 700000) (btc 800000))
    ∷ select count_all addressinfo always (between outval (btc 800000) (btc 900000))
    ∷ select count_all addressinfo always (between outval (btc 900000) (btc 1000000))
    ∷ select count_all addressinfo always (at_least outval (btc 1000000))
    ∷ []

-- OutvalOfEntity.
abbrev pub outval_of_entity : List Query
outval_of_entity =
    select count_all entityinfo always (between outval (btc 0) (btc 1))
    ∷ select count_all entityinfo always (between outval (btc 1) (btc 2))
    ∷ select count_all entityinfo always (between outval (btc 2) (btc 3))
    ∷ select count_all entityinfo always (between outval (btc 3) (btc 4))
    ∷ select count_all entityinfo always (between outval (btc 4) (btc 5))
    ∷ select count_all entityinfo always (between outval (btc 5) (btc 6))
    ∷ select count_all entityinfo always (between outval (btc 6) (btc 7))
    ∷ select count_all entityinfo always (between outval (btc 7) (btc 8))
    ∷ select count_all entityinfo always (between outval (btc 8) (btc 9))
    ∷ select count_all entityinfo always (between outval (btc 9) (btc 10))
    ∷ select count_all entityinfo always (between outval (btc 10) (btc 20))
    ∷ select count_all entityinfo always (between outval (btc 20) (btc 30))
    ∷ select count_all entityinfo always (between outval (btc 30) (btc 40))
    ∷ select count_all entityinfo always (between outval (btc 40) (btc 50))
    ∷ select count_all entityinfo always (between outval (btc 50) (btc 60))
    ∷ select count_all entityinfo always (between outval (btc 60) (btc 70))
    ∷ select count_all entityinfo always (between outval (btc 70) (btc 80))
    ∷ select count_all entityinfo always (between outval (btc 80) (btc 90))
    ∷ select count_all entityinfo always (between outval (btc 90) (btc 100))
    ∷ select count_all entityinfo always (between outval (btc 100) (btc 1000))
    ∷ select count_all entityinfo always (between outval (btc 1000) (btc 2000))
    ∷ select count_all entityinfo always (between outval (btc 2000) (btc 3000))
    ∷ select count_all entityinfo always (between outval (btc 3000) (btc 4000))
    ∷ select count_all entityinfo always (between outval (btc 4000) (btc 5000))
    ∷ select count_all entityinfo always (between outval (btc 5000) (btc 6000))
    ∷ select count_all entityinfo always (between outval (btc 6000) (btc 7000))
    ∷ select count_all entityinfo always (between outval (btc 7000) (btc 8000))
    ∷ select count_all entityinfo always (between outval (btc 8000) (btc 9000))
    ∷ select count_all entityinfo always (between outval (btc 9000) (btc 10000))
    ∷ select count_all entityinfo always (between outval (btc 10000) (btc 20000))
    ∷ select count_all entityinfo always (between outval (btc 20000) (btc 30000))
    ∷ select count_all entityinfo always (between outval (btc 30000) (btc 40000))
    ∷ select count_all entityinfo always (between outval (btc 40000) (btc 50000))
    ∷ select count_all entityinfo always (between outval (btc 50000) (btc 60000))
    ∷ select count_all entityinfo always (between outval (btc 60000) (btc 70000))
    ∷ select count_all entityinfo always (between outval (btc 70000) (btc 80000))
    ∷ select count_all entityinfo always (between outval (btc 80000) (btc 90000))
    ∷ select count_all entityinfo always (between outval (btc 90000) (btc 100000))
    ∷ select count_all entityinfo always (between outval (btc 100000) (btc 200000))
    ∷ select count_all entityinfo always (between outval (btc 200000) (btc 300000))
    ∷ select count_all entityinfo always (between outval (btc 300000) (btc 400000))
    ∷ select count_all entityinfo always (between outval (btc 400000) (btc 500000))
    ∷ select count_all entityinfo always (between outval (btc 500000) (btc 600000))
    ∷ select count_all entityinfo always (between outval (btc 600000) (btc 700000))
    ∷ select count_all entityinfo always (between outval (btc 700000) (btc 800000))
    ∷ select count_all entityinfo always (between outval (btc 800000) (btc 900000))
    ∷ select count_all entityinfo always (between outval (btc 900000) (btc 1000000))
    ∷ select count_all entityinfo always (at_least outval (btc 1000000))
    ∷ []

-- OutvalOfTx.
abbrev pub outval_of_tx : List Query
outval_of_tx =
    select count_all txinfo (is_after_after txtime) (between outvalue (btc 0) (btc 1))
    ∷ select count_all txinfo (is_after_after txtime) (between outvalue (btc 1) (btc 2))
    ∷ select count_all txinfo (is_after_after txtime) (between outvalue (btc 2) (btc 3))
    ∷ select count_all txinfo (is_after_after txtime) (between outvalue (btc 3) (btc 4))
    ∷ select count_all txinfo (is_after_after txtime) (between outvalue (btc 4) (btc 5))
    ∷ select count_all txinfo (is_after_after txtime) (between outvalue (btc 5) (btc 6))
    ∷ select count_all txinfo (is_after_after txtime) (between outvalue (btc 6) (btc 7))
    ∷ select count_all txinfo (is_after_after txtime) (between outvalue (btc 7) (btc 8))
    ∷ select count_all txinfo (is_after_after txtime) (between outvalue (btc 8) (btc 9))
    ∷ select count_all txinfo (is_after_after txtime) (between outvalue (btc 9) (btc 10))
    ∷ select count_all txinfo (is_after_after txtime) (between outvalue (btc 10) (btc 20))
    ∷ select count_all txinfo (is_after_after txtime) (between outvalue (btc 20) (btc 30))
    ∷ select count_all txinfo (is_after_after txtime) (between outvalue (btc 30) (btc 40))
    ∷ select count_all txinfo (is_after_after txtime) (between outvalue (btc 40) (btc 50))
    ∷ select count_all txinfo (is_after_after txtime) (between outvalue (btc 50) (btc 60))
    ∷ select count_all txinfo (is_after_after txtime) (between outvalue (btc 60) (btc 70))
    ∷ select count_all txinfo (is_after_after txtime) (between outvalue (btc 70) (btc 80))
    ∷ select count_all txinfo (is_after_after txtime) (between outvalue (btc 80) (btc 90))
    ∷ select count_all txinfo (is_after_after txtime) (between outvalue (btc 90) (btc 100))
    ∷ select count_all txinfo (is_after_after txtime) (between outvalue (btc 100) (btc 1000))
    ∷ select count_all txinfo (is_after_after txtime) (between outvalue (btc 1000) (btc 2000))
    ∷ select count_all txinfo (is_after_after txtime) (between outvalue (btc 2000) (btc 3000))
    ∷ select count_all txinfo (is_after_after txtime) (between outvalue (btc 3000) (btc 4000))
    ∷ select count_all txinfo (is_after_after txtime) (between outvalue (btc 4000) (btc 5000))
    ∷ select count_all txinfo (is_after_after txtime) (between outvalue (btc 5000) (btc 6000))
    ∷ select count_all txinfo (is_after_after txtime) (between outvalue (btc 6000) (btc 7000))
    ∷ select count_all txinfo (is_after_after txtime) (between outvalue (btc 7000) (btc 8000))
    ∷ select count_all txinfo (is_after_after txtime) (between outvalue (btc 8000) (btc 9000))
    ∷ select count_all txinfo (is_after_after txtime) (between outvalue (btc 9000) (btc 10000))
    ∷ select count_all txinfo (is_after_after txtime) (between outvalue (btc 10000) (btc 20000))
    ∷ select count_all txinfo (is_after_after txtime) (between outvalue (btc 20000) (btc 30000))
    ∷ select count_all txinfo (is_after_after txtime) (between outvalue (btc 30000) (btc 40000))
    ∷ select count_all txinfo (is_after_after txtime) (between outvalue (btc 40000) (btc 50000))
    ∷ select count_all txinfo (is_after_after txtime) (between outvalue (btc 50000) (btc 60000))
    ∷ select count_all txinfo (is_after_after txtime) (between outvalue (btc 60000) (btc 70000))
    ∷ select count_all txinfo (is_after_after txtime) (between outvalue (btc 70000) (btc 80000))
    ∷ select count_all txinfo (is_after_after txtime) (between outvalue (btc 80000) (btc 90000))
    ∷ select count_all txinfo (is_after_after txtime) (between outvalue (btc 90000) (btc 100000))
    ∷ select count_all txinfo (is_after_after txtime) (between outvalue (btc 100000) (btc 200000))
    ∷ select count_all txinfo (is_after_after txtime) (between outvalue (btc 200000) (btc 300000))
    ∷ select count_all txinfo (is_after_after txtime) (between outvalue (btc 300000) (btc 400000))
    ∷ select count_all txinfo (is_after_after txtime) (between outvalue (btc 400000) (btc 500000))
    ∷ select count_all txinfo (is_after_after txtime) (between outvalue (btc 500000) (btc 600000))
    ∷ select count_all txinfo (is_after_after txtime) (between outvalue (btc 600000) (btc 700000))
    ∷ select count_all txinfo (is_after_after txtime) (between outvalue (btc 700000) (btc 800000))
    ∷ select count_all txinfo (is_after_after txtime) (between outvalue (btc 800000) (btc 900000))
    ∷ select count_all txinfo (is_after_after txtime) (between outvalue (btc 900000) (btc 1000000))
    ∷ select count_all txinfo (is_after_after txtime) (at_least outvalue (btc 1000000))
    ∷ []
