-- ===== src/Period.antt =====
-- BitcoinAnalysis/timerange.h: tables of 72 months, and what is written for a month into the
-- parameter files of unzipBlocks and of statistical.
pub mod Calendar
pub mod Names
mod Runs
use Prim.Native.String.{String}
use bitcoin_analysis.Common.{ℕ, List, [], ◌∷◌, Option, none, some, get_or, ltb, if◌then◌else◌}

abbrev pub year : List ℕ
year =
    2009 ∷ 2009 ∷ 2009 ∷ 2009 ∷ 2009 ∷ 2009 ∷ 2009 ∷ 2009 ∷ 2009 ∷ 2009 ∷ 2009 ∷ 2009 ∷ 2010 ∷ 2010
    ∷ 2010 ∷ 2010 ∷ 2010 ∷ 2010 ∷ 2010 ∷ 2010 ∷ 2010 ∷ 2010 ∷ 2010 ∷ 2010 ∷ 2011 ∷ 2011 ∷ 2011
    ∷ 2011 ∷ 2011 ∷ 2011 ∷ 2011 ∷ 2011 ∷ 2011 ∷ 2011 ∷ 2011 ∷ 2011 ∷ 2012 ∷ 2012 ∷ 2012 ∷ 2012
    ∷ 2012 ∷ 2012 ∷ 2012 ∷ 2012 ∷ 2012 ∷ 2012 ∷ 2012 ∷ 2012 ∷ 2013 ∷ 2013 ∷ 2013 ∷ 2013 ∷ 2013
    ∷ 2013 ∷ 2013 ∷ 2013 ∷ 2013 ∷ 2013 ∷ 2013 ∷ 2013 ∷ 2014 ∷ 2014 ∷ 2014 ∷ 2014 ∷ 2014 ∷ 2014
    ∷ 2014 ∷ 2014 ∷ 2014 ∷ 2014 ∷ 2014 ∷ 2014 ∷ []

abbrev pub month : List ℕ
month =
    1 ∷ 2 ∷ 3 ∷ 4 ∷ 5 ∷ 6 ∷ 7 ∷ 8 ∷ 9 ∷ 10 ∷ 11 ∷ 12 ∷ 1 ∷ 2 ∷ 3 ∷ 4 ∷ 5 ∷ 6 ∷ 7 ∷ 8 ∷ 9 ∷ 10 ∷ 11
    ∷ 12 ∷ 1 ∷ 2 ∷ 3 ∷ 4 ∷ 5 ∷ 6 ∷ 7 ∷ 8 ∷ 9 ∷ 10 ∷ 11 ∷ 12 ∷ 1 ∷ 2 ∷ 3 ∷ 4 ∷ 5 ∷ 6 ∷ 7 ∷ 8 ∷ 9 ∷ 10
    ∷ 11 ∷ 12 ∷ 1 ∷ 2 ∷ 3 ∷ 4 ∷ 5 ∷ 6 ∷ 7 ∷ 8 ∷ 9 ∷ 10 ∷ 11 ∷ 12 ∷ 1 ∷ 2 ∷ 3 ∷ 4 ∷ 5 ∷ 6 ∷ 7 ∷ 8 ∷ 9
    ∷ 10 ∷ 11 ∷ 12 ∷ []

abbrev pub day : List ℕ
day =
    31 ∷ 28 ∷ 31 ∷ 30 ∷ 31 ∷ 30 ∷ 31 ∷ 31 ∷ 30 ∷ 31 ∷ 30 ∷ 31 ∷ 31 ∷ 28 ∷ 31 ∷ 30 ∷ 31 ∷ 30 ∷ 31
    ∷ 31 ∷ 30 ∷ 31 ∷ 30 ∷ 31 ∷ 31 ∷ 28 ∷ 31 ∷ 30 ∷ 31 ∷ 30 ∷ 31 ∷ 31 ∷ 30 ∷ 31 ∷ 30 ∷ 31 ∷ 31 ∷ 29
    ∷ 31 ∷ 30 ∷ 31 ∷ 30 ∷ 31 ∷ 31 ∷ 30 ∷ 31 ∷ 30 ∷ 31 ∷ 31 ∷ 28 ∷ 31 ∷ 30 ∷ 31 ∷ 30 ∷ 31 ∷ 31 ∷ 30
    ∷ 31 ∷ 30 ∷ 31 ∷ 31 ∷ 28 ∷ 31 ∷ 30 ∷ 31 ∷ 30 ∷ 31 ∷ 31 ∷ 30 ∷ 31 ∷ 30 ∷ 31 ∷ []

abbrev pub range : List String
range =
    "2009-01" ∷ "2009-02" ∷ "2009-03" ∷ "2009-04" ∷ "2009-05" ∷ "2009-06" ∷ "2009-07" ∷ "2009-08"
    ∷ "2009-09" ∷ "2009-10" ∷ "2009-11" ∷ "2009-12" ∷ "2010-01" ∷ "2010-02" ∷ "2010-03" ∷ "2010-04"
    ∷ "2010-05" ∷ "2010-06" ∷ "2010-07" ∷ "2010-08" ∷ "2010-09" ∷ "2010-10" ∷ "2010-11" ∷ "2010-12"
    ∷ "2011-01" ∷ "2011-02" ∷ "2011-03" ∷ "2011-04" ∷ "2011-05" ∷ "2011-06" ∷ "2011-07" ∷ "2011-08"
    ∷ "2011-09" ∷ "2011-10" ∷ "2011-11" ∷ "2011-12" ∷ "2012-01" ∷ "2012-02" ∷ "2012-03" ∷ "2012-04"
    ∷ "2012-05" ∷ "2012-06" ∷ "2012-07" ∷ "2012-08" ∷ "2012-09" ∷ "2012-10" ∷ "2012-11" ∷ "2012-12"
    ∷ "2013-01" ∷ "2013-02" ∷ "2013-03" ∷ "2013-04" ∷ "2013-05" ∷ "2013-06" ∷ "2013-07" ∷ "2013-08"
    ∷ "2013-09" ∷ "2013-10" ∷ "2013-11" ∷ "2013-12" ∷ "2014-01" ∷ "2014-02" ∷ "2014-03" ∷ "2014-04"
    ∷ "2014-05" ∷ "2014-06" ∷ "2014-07" ∷ "2014-08" ∷ "2014-09" ∷ "2014-10" ∷ "2014-11" ∷ "2014-12"
    ∷ []

abbrev pub before : List String
before =
    "2008-10-31-00-00-00" ∷ "2008-11-30-00-00-00" ∷ "2008-12-31-00-00-00" ∷ "2009-01-31-00-00-00"
    ∷ "2009-02-28-00-00-00" ∷ "2009-03-31-00-00-00" ∷ "2009-04-30-00-00-00" ∷ "2009-05-31-00-00-00"
    ∷ "2009-06-30-00-00-00" ∷ "2009-07-31-00-00-00" ∷ "2009-08-31-00-00-00" ∷ "2009-09-30-00-00-00"
    ∷ "2009-10-31-00-00-00" ∷ "2009-11-30-00-00-00" ∷ "2009-12-31-00-00-00" ∷ "2010-01-31-00-00-00"
    ∷ "2010-02-28-00-00-00" ∷ "2010-03-31-00-00-00" ∷ "2010-04-30-00-00-00" ∷ "2010-05-31-00-00-00"
    ∷ "2010-06-30-00-00-00" ∷ "2010-07-31-00-00-00" ∷ "2010-08-31-00-00-00" ∷ "2010-09-30-00-00-00"
    ∷ "2010-10-31-00-00-00" ∷ "2010-11-30-00-00-00" ∷ "2010-12-31-00-00-00" ∷ "2011-01-31-00-00-00"
    ∷ "2011-02-28-00-00-00" ∷ "2011-03-31-00-00-00" ∷ "2011-04-30-00-00-00" ∷ "2011-05-31-00-00-00"
    ∷ "2011-06-30-00-00-00" ∷ "2011-07-31-00-00-00" ∷ "2011-08-31-00-00-00" ∷ "2011-09-30-00-00-00"
    ∷ "2011-10-31-00-00-00" ∷ "2011-11-30-00-00-00" ∷ "2011-12-31-00-00-00" ∷ "2012-01-31-00-00-00"
    ∷ "2012-02-29-00-00-00" ∷ "2012-03-31-00-00-00" ∷ "2012-04-30-00-00-00" ∷ "2012-05-31-00-00-00"
    ∷ "2012-06-30-00-00-00" ∷ "2012-07-31-00-00-00" ∷ "2012-08-31-00-00-00" ∷ "2012-09-30-00-00-00"
    ∷ "2012-10-31-00-00-00" ∷ "2012-11-30-00-00-00" ∷ "2012-12-31-00-00-00" ∷ "2013-01-31-00-00-00"
    ∷ "2013-02-28-00-00-00" ∷ "2013-03-31-00-00-00" ∷ "2013-04-30-00-00-00" ∷ "2013-05-31-00-00-00"
    ∷ "2013-06-30-00-00-00" ∷ "2013-07-31-00-00-00" ∷ "2013-08-31-00-00-00" ∷ "2013-09-30-00-00-00"
    ∷ "2013-10-31-00-00-00" ∷ "2013-11-30-00-00-00" ∷ "2013-12-31-00-00-00" ∷ "2014-01-31-00-00-00"
    ∷ "2014-02-28-00-00-00" ∷ "2014-03-31-00-00-00" ∷ "2014-04-30-00-00-00" ∷ "2014-05-31-00-00-00"
    ∷ "2014-06-30-00-00-00" ∷ "2014-07-31-00-00-00" ∷ "2014-08-31-00-00-00" ∷ "2014-09-30-00-00-00"
    ∷ []

abbrev pub after : List String
after =
    "2009-01-01-00-00-00" ∷ "2009-02-01-00-00-00" ∷ "2009-03-01-00-00-00" ∷ "2009-04-01-00-00-00"
    ∷ "2009-05-01-00-00-00" ∷ "2009-06-01-00-00-00" ∷ "2009-07-01-00-00-00" ∷ "2009-08-01-00-00-00"
    ∷ "2009-09-01-00-00-00" ∷ "2009-10-01-00-00-00" ∷ "2009-11-01-00-00-00" ∷ "2009-12-01-00-00-00"
    ∷ "2010-01-01-00-00-00" ∷ "2010-02-01-00-00-00" ∷ "2010-03-01-00-00-00" ∷ "2010-04-01-00-00-00"
    ∷ "2010-05-01-00-00-00" ∷ "2010-06-01-00-00-00" ∷ "2010-07-01-00-00-00" ∷ "2010-08-01-00-00-00"
    ∷ "2010-09-01-00-00-00" ∷ "2010-10-01-00-00-00" ∷ "2010-11-01-00-00-00" ∷ "2010-12-01-00-00-00"
    ∷ "2011-01-01-00-00-00" ∷ "2011-02-01-00-00-00" ∷ "2011-03-01-00-00-00" ∷ "2011-04-01-00-00-00"
    ∷ "2011-05-01-00-00-00" ∷ "2011-06-01-00-00-00" ∷ "2011-07-01-00-00-00" ∷ "2011-08-01-00-00-00"
    ∷ "2011-09-01-00-00-00" ∷ "2011-10-01-00-00-00" ∷ "2011-11-01-00-00-00" ∷ "2011-12-01-00-00-00"
    ∷ "2012-01-01-00-00-00" ∷ "2012-02-01-00-00-00" ∷ "2012-03-01-00-00-00" ∷ "2012-04-01-00-00-00"
    ∷ "2012-05-01-00-00-00" ∷ "2012-06-01-00-00-00" ∷ "2012-07-01-00-00-00" ∷ "2012-08-01-00-00-00"
    ∷ "2012-09-01-00-00-00" ∷ "2012-10-01-00-00-00" ∷ "2012-11-01-00-00-00" ∷ "2012-12-01-00-00-00"
    ∷ "2013-01-01-00-00-00" ∷ "2013-02-01-00-00-00" ∷ "2013-03-01-00-00-00" ∷ "2013-04-01-00-00-00"
    ∷ "2013-05-01-00-00-00" ∷ "2013-06-01-00-00-00" ∷ "2013-07-01-00-00-00" ∷ "2013-08-01-00-00-00"
    ∷ "2013-09-01-00-00-00" ∷ "2013-10-01-00-00-00" ∷ "2013-11-01-00-00-00" ∷ "2013-12-01-00-00-00"
    ∷ "2014-01-01-00-00-00" ∷ "2014-02-01-00-00-00" ∷ "2014-03-01-00-00-00" ∷ "2014-04-01-00-00-00"
    ∷ "2014-05-01-00-00-00" ∷ "2014-06-01-00-00-00" ∷ "2014-07-01-00-00-00" ∷ "2014-08-01-00-00-00"
    ∷ "2014-09-01-00-00-00" ∷ "2014-10-01-00-00-00" ∷ "2014-11-01-00-00-00" ∷ "2014-12-01-00-00-00"
    ∷ []

-- The lines of the two files.
pub record Parameters : Type 0 where
  pub stopyear : ℕ
  pub stopmon : ℕ
  pub stopday : ℕ
  pub timerange : String
  pub before_time : String
  pub after_time : String

-- A month outside the tables is not defined.
unfoldable pub set_parameter : ℕ → Option Parameters
set_parameter i =
    if ltb i 72
    then some (record {
      stopyear = get_or year i 0;
      stopmon = get_or month i 0;
      stopday = get_or day i 0;
      timerange = get_or range i "";
      before_time = get_or before i "";
      after_time = get_or after i "";
    })
    else none
