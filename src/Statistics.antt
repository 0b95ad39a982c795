-- ===== src/Statistics.antt =====
-- BitcoinAnalysis/Statistical.h: tables of SELECT statements that are sent one after the other,
-- each answer written behind the last. This file holds the statements;
-- what the server answers is a parameter. The code between `/*` and `*/` is not modelled.
pub mod Tables
pub mod Stream
pub mod Report
pub mod Rows
pub mod Partition
pub mod Printed
pub mod Lines
pub mod Written
mod Runs
use bitcoin_analysis.Common.{ℕ}

pub data Table : Type 0 where
  addressinfo entityinfo txinfo blkinfo : Table

-- The columns and expressions that are counted over; `tx_count` is incnt + outcnt, and `life` is
-- (unix_timestamp(lasttm) - unix_timestamp(firsttm)) / 86400.
pub data Column : Type 0 where
  outval inval bal maxbal addcnt tx_count life : Column
  outvalue txsize txfee incnt outcnt : Column
  txcnt diff blksize reward : Column

pub data TimeColumn : Type 0 where
  firsttm lasttm txtime blktime : TimeColumn

-- `sum_or_zero c` is IFNULL(sum(c),0).
pub data Aggregate : Type 0 where
  count_all : Aggregate
  avg stddev_pop maximum minimum sum_or_zero : Column → Aggregate

-- The part of a WHERE clause that compares a time with the texts `before` and `after`.
pub data Condition : Type 0 where
  always : Condition
  is_before_before is_after_after is_after_before within_window : TimeColumn → Condition

-- The part of a WHERE clause that compares a column with numbers.
pub data Range : Type 0 where
  whole : Range
  at_least : Column → ℕ → Range
  between : Column → ℕ → ℕ → Range

pub data Query : Type 0 where
  select : Aggregate → Table → Condition → Range → Query

-- The time that is appended to a statement without one.
abbrev pub with_time : Condition → Query → Query
with_time c (select a t d r) = select a t c r
