-- ===== src/Block.antt =====
-- BitcoinAnalysis/block.h and the parsing part of BitcoinAnalysis/unzipBlocks.h: the records of a
-- block, the readers of its bytes, and the address of an output script.
pub mod Reader
pub mod Transaction
pub mod Script
