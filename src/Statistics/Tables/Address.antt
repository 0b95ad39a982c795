-- ===== src/Statistics/Tables/Address.antt =====
-- The statements of BitcoinAnalysis/Statistical.h over the addresses: all, new ones and those that are still in use.
use bitcoin_analysis.Common.{List, [], ◌∷◌}
use bitcoin_analysis.Statistics.{
  Query, addressinfo, outval, inval, bal, maxbal, tx_count, life, lasttm, count_all, avg,
  stddev_pop, maximum, minimum, sum_or_zero, always, is_before_before, is_after_after, whole,
  select,
}

-- address, from index 1.
abbrev pub address : List Query
address =
    select count_all addressinfo always whole
    ∷ select count_all addressinfo (is_before_before lasttm) whole
    ∷ select count_all addressinfo (is_after_after lasttm) whole
    ∷ select (avg outval) addressinfo always whole
    ∷ select (stddev_pop outval) addressinfo always whole
    ∷ select (maximum outval) addressinfo always whole
    ∷ select (minimum outval) addressinfo always whole
    ∷ select (avg inval) addressinfo always whole
    ∷ select (stddev_pop inval) addressinfo always whole
    ∷ select (maximum inval) addressinfo always whole
    ∷ select (minimum inval) addressinfo always whole
    ∷ select (avg bal) addressinfo always whole
    ∷ select (stddev_pop bal) addressinfo always whole
    ∷ select (maximum bal) addressinfo always whole
    ∷ select (minimum bal) addressinfo always whole
    ∷ select (avg maxbal) addressinfo always whole
    ∷ select (stddev_pop maxbal) addressinfo always whole
    ∷ select (maximum maxbal) addressinfo always whole
    ∷ select (minimum maxbal) addressinfo always whole
    ∷ select (avg life) addressinfo always whole
    ∷ select (stddev_pop life) addressinfo always whole
    ∷ select (maximum life) addressinfo always whole
    ∷ select (minimum life) addressinfo always whole
    ∷ select (avg tx_count) addressinfo always whole
    ∷ select (stddev_pop tx_count) addressinfo always whole
    ∷ select (maximum tx_count) addressinfo always whole
    ∷ select (minimum tx_count) addressinfo always whole
    ∷ select (sum_or_zero bal) addressinfo (is_before_before lasttm) whole
    ∷ []

-- new_add, from index 1.
abbrev pub new_add : List Query
new_add =
    select count_all addressinfo always whole
    ∷ select (avg outval) addressinfo always whole
    ∷ select (stddev_pop outval) addressinfo always whole
    ∷ select (maximum outval) addressinfo always whole
    ∷ select (minimum outval) addressinfo always whole
    ∷ select (avg inval) addressinfo always whole
    ∷ select (stddev_pop inval) addressinfo always whole
    ∷ select (maximum inval) addressinfo always whole
    ∷ select (minimum inval) addressinfo always whole
    ∷ select (avg bal) addressinfo always whole
    ∷ select (stddev_pop bal) addressinfo always whole
    ∷ select (maximum bal) addressinfo always whole
    ∷ select (minimum bal) addressinfo always whole
    ∷ select (avg maxbal) addressinfo always whole
    ∷ select (stddev_pop maxbal) addressinfo always whole
    ∷ select (maximum maxbal) addressinfo always whole
    ∷ select (minimum maxbal) addressinfo always whole
    ∷ select (avg tx_count) addressinfo always whole
    ∷ select (stddev_pop tx_count) addressinfo always whole
    ∷ select (maximum tx_count) addressinfo always whole
    ∷ select (minimum tx_count) addressinfo always whole
    ∷ []

-- unstop_add, from index 1.
abbrev pub unstop_add : List Query
unstop_add =
    select count_all addressinfo always whole
    ∷ select (avg outval) addressinfo always whole
    ∷ select (stddev_pop outval) addressinfo always whole
    ∷ select (maximum outval) addressinfo always whole
    ∷ select (minimum outval) addressinfo always whole
    ∷ select (avg inval) addressinfo always whole
    ∷ select (stddev_pop inval) addressinfo always whole
    ∷ select (maximum inval) addressinfo always whole
    ∷ select (minimum inval) addressinfo always whole
    ∷ select (avg bal) addressinfo always whole
    ∷ select (stddev_pop bal) addressinfo always whole
    ∷ select (maximum bal) addressinfo always whole
    ∷ select (minimum bal) addressinfo always whole
    ∷ select (avg maxbal) addressinfo always whole
    ∷ select (stddev_pop maxbal) addressinfo always whole
    ∷ select (maximum maxbal) addressinfo always whole
    ∷ select (minimum maxbal) addressinfo always whole
    ∷ select (avg life) addressinfo always whole
    ∷ select (stddev_pop life) addressinfo always whole
    ∷ select (maximum life) addressinfo always whole
    ∷ select (minimum life) addressinfo always whole
    ∷ select (avg tx_count) addressinfo always whole
    ∷ select (stddev_pop tx_count) addressinfo always whole
    ∷ select (maximum tx_count) addressinfo always whole
    ∷ select (minimum tx_count) addressinfo always whole
    ∷ []
