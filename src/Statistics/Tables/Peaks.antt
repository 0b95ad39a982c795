-- ===== src/Statistics/Tables/Peaks.antt =====
-- The statements of BitcoinAnalysis/Statistical.h for the distribution of the greatest balances.
use bitcoin_analysis.Common.{List, [], ◌∷◌}
use bitcoin_analysis.Statistics.{
  Query, addressinfo, entityinfo, maxbal, count_all, always, at_least, between, select,
}
use bitcoin_analysis.Statistics.Tables.{btc, hundredths, tenths}

-- MaxbalOfAdd.
abbrev pub maxbal_of_add : List Query
maxbal_of_add =
    select count_all addressinfo always (between maxbal (btc 0) (hundredths 1))
    ∷ select count_all addressinfo always (between maxbal (hundredths 1) (tenths 1))
    ∷ select count_all addressinfo always (between maxbal (tenths 1) (tenths 2))
    ∷ select count_all addressinfo always (between maxbal (tenths 2) (tenths 3))
    ∷ select count_all addressinfo always (between maxbal (tenths 3) (tenths 4))
    ∷ select count_all addressinfo always (between maxbal (tenths 4) (tenths 5))
    ∷ select count_all addressinfo always (between maxbal (tenths 5) (tenths 6))
    ∷ select count_all addressinfo always (between maxbal (tenths 6) (tenths 7))
    ∷ select count_all addressinfo always (between maxbal (tenths 7) (tenths 8))
    ∷ select count_all addressinfo always (between maxbal (tenths 8) (tenths 9))
    ∷ select count_all addressinfo always (between maxbal (tenths 9) (btc 1))
    ∷ select count_all addressinfo always (between maxbal (btc 1) (btc 2))
    ∷ select count_all addressinfo always (between maxbal (btc 2) (btc 3))
    ∷ select count_all addressinfo always (between maxbal (btc 3) (btc 4))
    ∷ select count_all addressinfo always (between maxbal (btc 4) (btc 5))
    ∷ select count_all addressinfo always (between maxbal (btc 5) (btc 6))
    ∷ select count_all addressinfo always (between maxbal (btc 6) (btc 7))
    ∷ select count_all addressinfo always (between maxbal (btc 7) (btc 8))
    ∷ select count_all addressinfo always (between maxbal (btc 8) (btc 9))
    ∷ select count_all addressinfo always (between maxbal (btc 9) (btc 10))
    ∷ select count_all addressinfo always (between maxbal (btc 10) (btc 20))
    ∷ select count_all addressinfo always (between maxbal (btc 20) (btc 30))
    ∷ select count_all addressinfo always (between maxbal (btc 30) (btc 40))
    ∷ select count_all addressinfo always (between maxbal (btc 40) (btc 50))
    ∷ select count_all addressinfo always (between maxbal (btc 50) (btc 60))
    ∷ select count_all addressinfo always (between maxbal (btc 60) (btc 70))
    ∷ select count_all addressinfo always (between maxbal (btc 70) (btc 80))
    ∷ select count_all addressinfo always (between maxbal (btc 80) (btc 90))
    ∷ select count_all addressinfo always (between maxbal (btc 90) (btc 100))
    ∷ select count_all addressinfo always (between maxbal (btc 100) (btc 1000))
    ∷ select count_all addressinfo always (between maxbal (btc 1000) (btc 2000))
    ∷ select count_all addressinfo always (between maxbal (btc 2000) (btc 3000))
    ∷ select count_all addressinfo always (between maxbal (btc 3000) (btc 4000))
    ∷ select count_all addressinfo always (between maxbal (btc 4000) (btc 5000))
    ∷ select count_all addressinfo always (between maxbal (btc 5000) (btc 6000))
    ∷ select count_all addressinfo always (between maxbal (btc 6000) (btc 7000))
    ∷ select count_all addressinfo always (between maxbal (btc 7000) (btc 8000))
    ∷ select count_all addressinfo always (between maxbal (btc 8000) (btc 9000))
    ∷ select count_all addressinfo always (between maxbal (btc 9000) (btc 10000))
    ∷ select count_all addressinfo always (between maxbal (btc 10000) (btc 20000))
    ∷ select count_all addressinfo always (between maxbal (btc 20000) (btc 30000))
    ∷ select count_all addressinfo always (between maxbal (btc 30000) (btc 40000))
    ∷ select count_all addressinfo always (between maxbal (btc 40000) (btc 50000))
    ∷ select count_all addressinfo always (between maxbal (btc 50000) (btc 60000))
    ∷ select count_all addressinfo always (between maxbal (btc 60000) (btc 70000))
    ∷ select count_all addressinfo always (between maxbal (btc 70000) (btc 80000))
    ∷ select count_all addressinfo always (between maxbal (btc 80000) (btc 90000))
    ∷ select count_all addressinfo always (between maxbal (btc 90000) (btc 100000))
    ∷ select count_all addressinfo always (between maxbal (btc 100000) (btc 200000))
    ∷ select count_all addressinfo always (between maxbal (btc 200000) (btc 300000))
    ∷ select count_all addressinfo always (between maxbal (btc 300000) (btc 400000))
    ∷ select count_all addressinfo always (between maxbal (btc 400000) (btc 500000))
    ∷ select count_all addressinfo always (between maxbal (btc 500000) (btc 600000))
    ∷ select count_all addressinfo always (between maxbal (btc 600000) (btc 700000))
    ∷ select count_all addressinfo always (between maxbal (btc 700000) (btc 800000))
    ∷ select count_all addressinfo always (between maxbal (btc 800000) (btc 900000))
    ∷ select count_all addressinfo always (between maxbal (btc 900000) (btc 1000000))
    ∷ select count_all addressinfo always (at_least maxbal (btc 1000000))
    ∷ []

-- MaxbalOfEntity.
abbrev pub maxbal_of_entity : List Query
maxbal_of_entity =
    select count_all entityinfo always (between maxbal (btc 0) (hundredths 1))
    ∷ select count_all entityinfo always (between maxbal (hundredths 1) (tenths 1))
    ∷ select count_all entityinfo always (between maxbal (tenths 1) (tenths 2))
    ∷ select count_all entityinfo always (between maxbal (tenths 2) (tenths 3))
    ∷ select count_all entityinfo always (between maxbal (tenths 3) (tenths 4))
    ∷ select count_all entityinfo always (between maxbal (tenths 4) (tenths 5))
    ∷ select count_all entityinfo always (between maxbal (tenths 5) (tenths 6))
    ∷ select count_all entityinfo always (between maxbal (tenths 6) (tenths 7))
    ∷ select count_all entityinfo always (between maxbal (tenths 7) (tenths 8))
    ∷ select count_all entityinfo always (between maxbal (tenths 8) (tenths 9))
    ∷ select count_all entityinfo always (between maxbal (tenths 9) (btc 1))
    ∷ select count_all entityinfo always (between maxbal (btc 1) (btc 2))
    ∷ select count_all entityinfo always (between maxbal (btc 2) (btc 3))
    ∷ select count_all entityinfo always (between maxbal (btc 3) (btc 4))
    ∷ select count_all entityinfo always (between maxbal (btc 4) (btc 5))
    ∷ select count_all entityinfo always (between maxbal (btc 5) (btc 6))
    ∷ select count_all entityinfo always (between maxbal (btc 6) (btc 7))
    ∷ select count_all entityinfo always (between maxbal (btc 7) (btc 8))
    ∷ select count_all entityinfo always (between maxbal (btc 8) (btc 9))
    ∷ select count_all entityinfo always (between maxbal (btc 9) (btc 10))
    ∷ select count_all entityinfo always (between maxbal (btc 10) (btc 20))
    ∷ select count_all entityinfo always (between maxbal (btc 20) (btc 30))
    ∷ select count_all entityinfo always (between maxbal (btc 30) (btc 40))
    ∷ select count_all entityinfo always (between maxbal (btc 40) (btc 50))
    ∷ select count_all entityinfo always (between maxbal (btc 50) (btc 60))
    ∷ select count_all entityinfo always (between maxbal (btc 60) (btc 70))
    ∷ select count_all entityinfo always (between maxbal (btc 70) (btc 80))
    ∷ select count_all entityinfo always (between maxbal (btc 80) (btc 90))
    ∷ select count_all entityinfo always (between maxbal (btc 90) (btc 100))
    ∷ select count_all entityinfo always (between maxbal (btc 100) (btc 1000))
    ∷ select count_all entityinfo always (between maxbal (btc 1000) (btc 2000))
    ∷ select count_all entityinfo always (between maxbal (btc 2000) (btc 3000))
    ∷ select count_all entityinfo always (between maxbal (btc 3000) (btc 4000))
    ∷ select count_all entityinfo always (between maxbal (btc 4000) (btc 5000))
    ∷ select count_all entityinfo always (between maxbal (btc 5000) (btc 6000))
    ∷ select count_all entityinfo always (between maxbal (btc 6000) (btc 7000))
    ∷ select count_all entityinfo always (between maxbal (btc 7000) (btc 8000))
    ∷ select count_all entityinfo always (between maxbal (btc 8000) (btc 9000))
    ∷ select count_all entityinfo always (between maxbal (btc 9000) (btc 10000))
    ∷ select count_all entityinfo always (between maxbal (btc 10000) (btc 20000))
    ∷ select count_all entityinfo always (between maxbal (btc 20000) (btc 30000))
    ∷ select count_all entityinfo always (between maxbal (btc 30000) (btc 40000))
    ∷ select count_all entityinfo always (between maxbal (btc 40000) (btc 50000))
    ∷ select count_all entityinfo always (between maxbal (btc 50000) (btc 60000))
    ∷ select count_all entityinfo always (between maxbal (btc 60000) (btc 70000))
    ∷ select count_all entityinfo always (between maxbal (btc 70000) (btc 80000))
    ∷ select count_all entityinfo always (between maxbal (btc 80000) (btc 90000))
    ∷ select count_all entityinfo always (between maxbal (btc 90000) (btc 100000))
    ∷ select count_all entityinfo always (between maxbal (btc 100000) (btc 200000))
    ∷ select count_all entityinfo always (between maxbal (btc 200000) (btc 300000))
    ∷ select count_all entityinfo always (between maxbal (btc 300000) (btc 400000))
    ∷ select count_all entityinfo always (between maxbal (btc 400000) (btc 500000))
    ∷ select count_all entityinfo always (between maxbal (btc 500000) (btc 600000))
    ∷ select count_all entityinfo always (between maxbal (btc 600000) (btc 700000))
    ∷ select count_all entityinfo always (between maxbal (btc 700000) (btc 800000))
    ∷ select count_all entityinfo always (between maxbal (btc 800000) (btc 900000))
    ∷ select count_all entityinfo always (between maxbal (btc 900000) (btc 1000000))
    ∷ select count_all entityinfo always (at_least maxbal (btc 1000000))
    ∷ []
