-- ===== src/Period/Runs.antt =====
-- The tables of months and paths at single entries.
use bitcoin_analysis.Common.{◌+◌, ◌-◌, ◌≡◌, ◌++◌, some, arith, get_or}
use bitcoin_analysis.Period.{Parameters, set_parameter}
use bitcoin_analysis.Period.Names.{blkname}
use bitcoin_analysis.Period.Calendar.{
  codes, decimal, days_in, year_of, month_of, january_2009, month_name, first_day, last_day,
  set_parameter-month, blkname-decimal,
}

-- February 2012.
set_parameter-month_example :
    (p : Parameters) × (set_parameter 37 ≡ some p)
    × (p.stopyear ≡ year_of (january_2009 + 37))
    × (p.stopmon ≡ month_of (january_2009 + 37))
    × (p.stopday ≡ days_in (year_of (january_2009 + 37)) (month_of (january_2009 + 37)))
    × (codes p.timerange ≡ month_name (january_2009 + 37))
    × (codes p.after_time ≡ first_day (january_2009 + 37))
    × (codes p.before_time ≡ last_day (january_2009 + 37 - 3))
set_parameter-month_example = set_parameter-month 37 (omega arith)

blkname-decimal_example :
    codes (get_or blkname 42 "") ≡ codes "E:\\blocks\\blk" ++ (decimal 5 42 ++ codes ".dat")
blkname-decimal_example = blkname-decimal 42 (omega arith)
