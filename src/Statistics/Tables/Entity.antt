-- ===== src/Statistics/Tables/Entity.antt =====
-- The statements of BitcoinAnalysis/Statistical.h over the entities: all, new ones and those that are still in use.
use bitcoin_analysis.Common.{List, [], ◌∷◌}
use bitcoin_analysis.Statistics.{
  Query, entityinfo, outval, inval, bal, maxbal, addcnt, tx_count, life, lasttm, count_all, avg,
  stddev_pop, maximum, minimum, always, is_before_before, is_after_after, whole, select,
}

-- entity, from index 1.
abbrev pub entity : List Query
entity =
    select count_all entityinfo always whole
    ∷ select count_all entityinfo (is_before_before lasttm) whole
    ∷ select count_all entityinfo (is_after_after lasttm) whole
    ∷ select (avg addcnt) entityinfo always whole
    ∷ select (stddev_pop addcnt) entityinfo always whole
    ∷ select (maximum addcnt) entityinfo always whole
    ∷ select (minimum addcnt) entityinfo always whole
    ∷ select (avg outval) entityinfo always whole
    ∷ select (stddev_pop outval) entityinfo always whole
    ∷ select (maximum outval) entityinfo always whole
    ∷ select (minimum outval) entityinfo always whole
    ∷ select (avg inval) entityinfo always whole
    ∷ select (stddev_pop inval) entityinfo always whole
    ∷ select (maximum inval) entityinfo always whole
    ∷ select (minimum inval) entityinfo always whole
    ∷ select (avg bal) entityinfo always whole
    ∷ select (stddev_pop bal) entityinfo always whole
    ∷ select (maximum bal) entityinfo always whole
    ∷ select (minimum bal) entityinfo always whole
    ∷ select (avg maxbal) entityinfo always whole
    ∷ select (stddev_pop maxbal) entityinfo always whole
    ∷ select (maximum maxbal) entityinfo always whole
    ∷ select (minimum maxbal) entityinfo always whole
    ∷ select (avg life) entityinfo always whole
    ∷ select (stddev_pop life) entityinfo always whole
    ∷ select (maximum life) entityinfo always whole
    ∷ select (minimum life) entityinfo always whole
    ∷ select (avg tx_count) entityinfo always whole
    ∷ select (stddev_pop tx_count) entityinfo always whole
    ∷ select (maximum tx_count) entityinfo always whole
    ∷ select (minimum tx_count) entityinfo always whole
    ∷ []

-- new_entity, from index 1.
abbrev pub new_entity : List Query
new_entity =
    select count_all entityinfo always whole
    ∷ select (avg addcnt) entityinfo always whole
    ∷ select (stddev_pop addcnt) entityinfo always whole
    ∷ select (maximum addcnt) entityinfo always whole
    ∷ select (minimum addcnt) entityinfo always whole
    ∷ select (avg outval) entityinfo always whole
    ∷ select (stddev_pop outval) entityinfo always whole
    ∷ select (maximum outval) entityinfo always whole
    ∷ select (minimum outval) entityinfo always whole
    ∷ select (avg inval) entityinfo always whole
    ∷ select (stddev_pop inval) entityinfo always whole
    ∷ select (maximum inval) entityinfo always whole
    ∷ select (minimum inval) entityinfo always whole
    ∷ select (avg bal) entityinfo always whole
    ∷ select (stddev_pop bal) entityinfo always whole
    ∷ select (maximum bal) entityinfo always whole
    ∷ select (minimum bal) entityinfo always whole
    ∷ select (avg maxbal) entityinfo always whole
    ∷ select (stddev_pop maxbal) entityinfo always whole
    ∷ select (maximum maxbal) entityinfo always whole
    ∷ select (minimum maxbal) entityinfo always whole
    ∷ select (avg tx_count) entityinfo always whole
    ∷ select (stddev_pop tx_count) entityinfo always whole
    ∷ select (maximum tx_count) entityinfo always whole
    ∷ select (minimum tx_count) entityinfo always whole
    ∷ []

-- unstop_entity, from index 1.
abbrev pub unstop_entity : List Query
unstop_entity =
    select count_all entityinfo always whole
    ∷ select (avg addcnt) entityinfo always whole
    ∷ select (stddev_pop addcnt) entityinfo always whole
    ∷ select (maximum addcnt) entityinfo always whole
    ∷ select (minimum addcnt) entityinfo always whole
    ∷ select (avg outval) entityinfo always whole
    ∷ select (stddev_pop outval) entityinfo always whole
    ∷ select (maximum outval) entityinfo always whole
    ∷ select (minimum outval) entityinfo always whole
    ∷ select (avg inval) entityinfo always whole
    ∷ select (stddev_pop inval) entityinfo always whole
    ∷ select (maximum inval) entityinfo always whole
    ∷ select (minimum inval) entityinfo always whole
    ∷ select (avg bal) entityinfo always whole
    ∷ select (stddev_pop bal) entityinfo always whole
    ∷ select (maximum bal) entityinfo always whole
    ∷ select (minimum bal) entityinfo always whole
    ∷ select (avg maxbal) entityinfo always whole
    ∷ select (stddev_pop maxbal) entityinfo always whole
    ∷ select (maximum maxbal) entityinfo always whole
    ∷ select (minimum maxbal) entityinfo always whole
    ∷ select (avg life) entityinfo always whole
    ∷ select (stddev_pop life) entityinfo always whole
    ∷ select (maximum life) entityinfo always whole
    ∷ select (minimum life) entityinfo always whole
    ∷ select (avg tx_count) entityinfo always whole
    ∷ select (stddev_pop tx_count) entityinfo always whole
    ∷ select (maximum tx_count) entityinfo always whole
    ∷ select (minimum tx_count) entityinfo always whole
    ∷ []
