-- ===== src/Hash.antt =====
-- BitcoinAnalysis/hash.h, a module for each of its namespaces.
pub mod Blocks
pub mod Ripemd160
pub mod Sha256
