-- ===== src/Lib.antt =====
-- The block-chain unpacker of BitcoinAnalysis/, as definitions that run and theorems about them.
--
-- The program reads Bitcoin's block files, takes the transactions apart, stores each of them in a
-- key-value store (LevelDB) and keeps tables of addresses, of transactions and of entities (the
-- addresses that have been spent together) in a relational database (MySQL). One transaction
-- passes through the parts in this order:
--   * its bytes are read (Block.Reader, Block.Transaction: the readers of BitcoinAnalysis/block.h
--     and the loop of BitcoinAnalysis/unzipBlocks.h);
--   * each output script gives an address of 20 bytes (Block.Script: outAddress of block.h, and
--     bitcoinPublicKeyToAddress of BitcoinAnalysis/hash.h), by means of the two hash functions
--     (Hash.Sha256, Hash.Ripemd160: BLOCKCHAIN_SHA256 and BLOCKCHAIN_RIPEMD160 of hash.h);
--   * its inputs are looked up in the store, its record is put there, and the statements for the
--     tables are sent (Ledger: ReadOutput, Transaction2MySQL, input_transaction_mysql,
--     output_transaction_mysql and TransactionProcess of BitcoinAnalysis/TransactionProcess.h);
--   * the entities of its inputs are merged, and outputs without an entity get one (Entity:
--     input_entity_mysql, insert_entity_mysql, output_entity_mysql and update_entity_mysql of
--     BitcoinAnalysis/EntityProcess.h).
-- Unzip puts these together: the loops of unzipBlocks over the blocks of a file and the
-- transactions of a block, the stop time, and what is saved for the next run; Unzip.Files has the
-- loop over the files, and Unzip.Wire is the specification of the loop over blocks, the list of
-- blocks that the bytes stand for and what is done with it, without positions; Unzip.Whole and
-- Unzip.Ends compare the two. Period is BitcoinAnalysis/timerange.h, the tables of months and what
-- is set for a month, with the paths of BitcoinAnalysis/BlockFileName.h. Console is main of
-- BitcoinAnalysis/console.cpp: month after month, the parameters, the blocks and the statistics.
-- Beside this path stand Base58, the big numbers of BLOCKCHAIN_BASE58, CBDecodeBase58 and
-- CBEncodeBase58, and Address, decodeBase58 and the addresses as strings (bitcoinAsciiToAddress,
-- bitcoinRIPEMD160ToAddress, bitcoinPublicKeyToAscii, bitcoinAddressToAscii), all of hash.h.
-- Statistics is `statistical` of BitcoinAnalysis/Statistical.h, which sends tables of statements to
-- the database and writes the answers into files: the statements (Statistics, Statistics.Tables),
-- the output stream and the loops (Statistics.Stream), and the parts in their order
-- (Statistics.Report).
-- Common holds what all parts share: lists over the native numbers, machine words, bit laws.
-- Database is the relational database as a parameter, with one constructor for each statement
-- text, and laws for what SQL says of the column `entity`; Ledger.KeyValue is the store. Entity.Rows
-- and Ledger.Entries hold instances on which the laws are proved.
--
-- A C++ name in camel case is spelled with underscores here. Bytes and words are natural numbers,
-- and the wrap-around of an operation is written out. `unsigned long` has 32 bits, as on the
-- program's platform, Windows. State that a function changes is an argument and a part of its
-- result: the position in the buffer, the hash context, the store, the database, `entitychange_v`
-- and `entitycnt`. What C++ leaves undefined is `none`: a read beyond the buffer or beyond a
-- stored record, the first element of an empty vector, a row that a SELECT does not return, a byte
-- of a block that no read has filled, and a loop that never ends. `char` is signed, as on that
-- platform. A position in a file is an `int`: files of less than 2^31 bytes are those that it can
-- address. The counter of the blocks, which can be negative, is an integer (Common.Integers).
--
-- Fuel: the loops over whole blocks of the two hash functions run as often as the message has
-- bytes at most, and take 64 bytes each time. The loop over the blocks of a file of less than 2^31
-- bytes moves on each time, so one round more than the file has bytes is enough. The loop of
-- CBEncodeBase58 runs at most twice for a byte of the number, and once more. All other loops recur
-- on their list or count.
--
-- Not modelled: the connections to the databases, the text of times, the difficulty (floating
-- point, which the bits stand for), logging, the failing of an allocation, the end of the array of
-- 256 bytes that holds a big number, which strings of at most 128 characters stay below, the echo
-- to the console, and the code inside block comments. LevelDB, Snappy and Crc32C are copies of
-- other projects.
pub mod Address
pub mod Base58
pub mod Block
pub mod Common
pub mod Console
pub mod Database
pub mod Entity
pub mod Hash
pub mod Ledger
pub mod Period
pub mod Statistics
pub mod Unzip
