-- ===== src/Statistics/Tables/Windows.antt =====
-- The statements of BitcoinAnalysis/Statistical.h over the transactions of a window of time, by amount and by size.
use bitcoin_analysis.Common.{List, [], ◌∷◌}
use bitcoin_analysis.Statistics.{
  Query, txinfo, outvalue, txsize, count_all, always, at_least, between, select,
}
use bitcoin_analysis.Statistics.Tables.{btc}

-- tx_amount.
abbrev pub tx_amount : List Query
tx_amount =
    select count_all txinfo always (between outvalue (btc 0) (btc 10))
    ∷ select count_all txinfo always (between outvalue (btc 10) (btc 20))
    ∷ select count_all txinfo always (between outvalue (btc 20) (btc 30))
    ∷ select count_all txinfo always (between outvalue (btc 30) (btc 40))
    ∷ select count_all txinfo always (between outvalue (btc 40) (btc 50))
    ∷ select count_all txinfo always (between outvalue (btc 50) (btc 60))
    ∷ select count_all txinfo always (between outvalue (btc 60) (btc 70))
    ∷ select count_all txinfo always (between outvalue (btc 70) (btc 80))
    ∷ select count_all txinfo always (between outvalue (btc 80) (btc 90))
    ∷ select count_all txinfo always (between outvalue (btc 90) (btc 100))
    ∷ select count_all txinfo always (between outvalue (btc 100) (btc 120))
    ∷ select count_all txinfo always (between outvalue (btc 120) (btc 140))
    ∷ select count_all txinfo always (between outvalue (btc 140) (btc 160))
    ∷ select count_all txinfo always (between outvalue (btc 160) (btc 180))
    ∷ select count_all txinfo always (between outvalue (btc 180) (btc 200))
    ∷ select count_all txinfo always (between outvalue (btc 200) (btc 220))
    ∷ select count_all txinfo always (between outvalue (btc 220) (btc 240))
    ∷ select count_all txinfo always (between outvalue (btc 240) (btc 260))
    ∷ select count_all txinfo always (between outvalue (btc 260) (btc 280))
    ∷ select count_all txinfo always (between outvalue (btc 280) (btc 300))
    ∷ select count_all txinfo always (between outvalue (btc 300) (btc 320))
    ∷ select count_all txinfo always (at_least outvalue (btc 320))
    ∷ select count_all txinfo always (between outvalue (btc 320) (btc 340))
    ∷ select count_all txinfo always (between outvalue (btc 340) (btc 360))
    ∷ select count_all txinfo always (between outvalue (btc 360) (btc 380))
    ∷ select count_all txinfo always (between outvalue (btc 380) (btc 400))
    ∷ select count_all txinfo always (between outvalue (btc 420) (btc 440))
    ∷ select count_all txinfo always (between outvalue (btc 440) (btc 460))
    ∷ select count_all txinfo always (between outvalue (btc 460) (btc 480))
    ∷ select count_all txinfo always (between outvalue (btc 480) (btc 500))
    ∷ select count_all txinfo always (between outvalue (btc 500) (btc 520))
    ∷ select count_all txinfo always (between outvalue (btc 520) (btc 540))
    ∷ select count_all txinfo always (between outvalue (btc 540) (btc 560))
    ∷ select count_all txinfo always (between outvalue (btc 560) (btc 580))
    ∷ select count_all txinfo always (between outvalue (btc 580) (btc 600))
    ∷ select count_all txinfo always (at_least outvalue (btc 600))
    ∷ []

-- tx_size.
abbrev pub tx_size : List Query
tx_size =
    select count_all txinfo always (between txsize 0 128)
    ∷ select count_all txinfo always (between txsize 128 256)
    ∷ select count_all txinfo always (between txsize 256 384)
    ∷ select count_all txinfo always (between txsize 384 512)
    ∷ select count_all txinfo always (between txsize 512 640)
    ∷ select count_all txinfo always (between txsize 640 768)
    ∷ select count_all txinfo always (between txsize 768 896)
    ∷ select count_all txinfo always (between txsize 896 1024)
    ∷ select count_all txinfo always (between txsize 1024 1152)
    ∷ select count_all txinfo always (between txsize 1152 1280)
    ∷ select count_all txinfo always (between txsize 1280 1408)
    ∷ select count_all txinfo always (between txsize 1408 1536)
    ∷ select count_all txinfo always (between txsize 1536 1664)
    ∷ select count_all txinfo always (between txsize 1664 1792)
    ∷ select count_all txinfo always (between txsize 1792 1920)
    ∷ select count_all txinfo always (between txsize 1920 2048)
    ∷ select count_all txinfo always (between txsize 2048 2176)
    ∷ select count_all txinfo always (between txsize 2176 2304)
    ∷ select count_all txinfo always (between txsize 2304 2432)
    ∷ select count_all txinfo always (between txsize 2432 2560)
    ∷ select count_all txinfo always (between txsize 2560 2688)
    ∷ select count_all txinfo always (between txsize 2688 2816)
    ∷ select count_all txinfo always (between txsize 2816 2944)
    ∷ select count_all txinfo always (between txsize 2944 3072)
    ∷ select count_all txinfo always (between txsize 3072 3200)
    ∷ select count_all txinfo always (between txsize 3200 3328)
    ∷ select count_all txinfo always (between txsize 3328 3456)
    ∷ select count_all txinfo always (between txsize 3456 3584)
    ∷ select count_all txinfo always (between txsize 3584 3712)
    ∷ select count_all txinfo always (between txsize 3712 3840)
    ∷ select count_all txinfo always (between txsize 3840 3968)
    ∷ select count_all txinfo always (between txsize 3968 4096)
    ∷ select count_all txinfo always (at_least txsize 4096)
    ∷ []
