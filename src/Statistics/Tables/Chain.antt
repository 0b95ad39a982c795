-- ===== src/Statistics/Tables/Chain.antt =====
-- The statements of BitcoinAnalysis/Statistical.h over the transactions and the blocks.
use bitcoin_analysis.Common.{List, [], ◌∷◌}
use bitcoin_analysis.Statistics.{
  Query, txinfo, blkinfo, outvalue, txsize, txfee, incnt, outcnt, txcnt, diff, blksize, reward,
  count_all, avg, stddev_pop, maximum, minimum, always, whole, select,
}

-- transaction.
abbrev pub transaction : List Query
transaction =
    select count_all txinfo always whole
    ∷ select count_all txinfo always whole
    ∷ select (avg outvalue) txinfo always whole
    ∷ select (stddev_pop outvalue) txinfo always whole
    ∷ select (maximum outvalue) txinfo always whole
    ∷ select (minimum outvalue) txinfo always whole
    ∷ select (avg txsize) txinfo always whole
    ∷ select (stddev_pop txsize) txinfo always whole
    ∷ select (maximum txsize) txinfo always whole
    ∷ select (minimum txsize) txinfo always whole
    ∷ select (avg txfee) txinfo always whole
    ∷ select (stddev_pop txfee) txinfo always whole
    ∷ select (maximum txfee) txinfo always whole
    ∷ select (minimum txfee) txinfo always whole
    ∷ select (avg incnt) txinfo always whole
    ∷ select (stddev_pop incnt) txinfo always whole
    ∷ select (maximum incnt) txinfo always whole
    ∷ select (minimum incnt) txinfo always whole
    ∷ select (avg outcnt) txinfo always whole
    ∷ select (stddev_pop outcnt) txinfo always whole
    ∷ select (maximum outcnt) txinfo always whole
    ∷ select (minimum outcnt) txinfo always whole
    ∷ []

-- block.
abbrev pub block : List Query
block =
    select count_all blkinfo always whole
    ∷ select count_all blkinfo always whole
    ∷ select (avg txcnt) blkinfo always whole
    ∷ select (stddev_pop txcnt) blkinfo always whole
    ∷ select (maximum txcnt) blkinfo always whole
    ∷ select (minimum txcnt) blkinfo always whole
    ∷ select (avg diff) blkinfo always whole
    ∷ select (stddev_pop diff) blkinfo always whole
    ∷ select (maximum diff) blkinfo always whole
    ∷ select (minimum diff) blkinfo always whole
    ∷ select (avg blksize) blkinfo always whole
    ∷ select (stddev_pop blksize) blkinfo always whole
    ∷ select (maximum blksize) blkinfo always whole
    ∷ select (minimum blksize) blkinfo always whole
    ∷ select (avg reward) blkinfo always whole
    ∷ select (stddev_pop reward) blkinfo always whole
    ∷ select (maximum reward) blkinfo always whole
    ∷ select (minimum reward) blkinfo always whole
    ∷ []
