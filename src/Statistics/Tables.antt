-- ===== src/Statistics/Tables.antt =====
-- The arrays of BitcoinAnalysis/Statistical.h. Amounts are written in coins of 100000000 units.
pub mod Address
pub mod Entity
pub mod Chain
pub mod Counts
pub mod Outputs
pub mod Balances
pub mod Peaks
pub mod Fees
pub mod Windows
use bitcoin_analysis.Common.{ℕ, ◌*◌}

abbrev pub btc : ℕ → ℕ
btc n = n * 100000000

-- `n` tenths of a coin.
abbrev pub tenths : ℕ → ℕ
tenths n = n * 10000000

abbrev pub hundredths : ℕ → ℕ
hundredths n = n * 1000000
