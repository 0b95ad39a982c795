-- ===== src/Block/Script.antt =====
-- outAddress of BitcoinAnalysis/block.h and bitcoinPublicKeyToAddress of BitcoinAnalysis/hash.h.
-- Reads of the script stand behind the guard on its length. Both functions take what the hash
-- context's buffer holds before it is set up.
pub mod Templates
pub mod Scan
mod Runs
use bitcoin_analysis.Common.{
  ℕ, zero, suc, ◌-◌, ◌≡◌, List, [], ◌∷◌, ◌++◌, Bool, true, false, ◌&&◌, ◌||◌, Option, none, some,
  leb, ltb, ◌==◌, if◌then◌else◌, get_or, take, drop, replicate,
}
use bitcoin_analysis.Hash.Sha256.{compute_sha256}
use bitcoin_analysis.Hash.Ripemd160.{compute_ripemd160}

abbrev pub op_1 : ℕ
op_1 = 0x51

abbrev pub op_2 : ℕ
op_2 = 0x52

abbrev pub op_3 : ℕ
op_3 = 0x53

abbrev pub op_return : ℕ
op_return = 0x6a

abbrev pub op_drop : ℕ
op_drop = 0x75

abbrev pub op_dup : ℕ
op_dup = 0x76

abbrev pub op_equalverify : ℕ
op_equalverify = 0x88

abbrev pub op_hash160 : ℕ
op_hash160 = 0xa9

abbrev pub op_checksig : ℕ
op_checksig = 0xac

abbrev pub op_checkmultisig : ℕ
op_checkmultisig = 0xae

abbrev pub op_nop2 : ℕ
op_nop2 = 0xb1

-- The script's byte at an index.
abbrev pub at : List ℕ → ℕ → ℕ
at script i = get_or script i 0

-- `scan[0..24]` at the head of what is left of the script.
unfoldable pub pattern_here : List ℕ → Bool
pattern_here scan =
    at scan 0 == op_dup
    && (at scan 1 == op_hash160
        && (at scan 2 == 20 && (at scan 23 == op_equalverify && at scan 24 == op_checksig)))

-- The loop over `endIndex` windows.
unfoldable pub scan_loop : ℕ → List ℕ → Option (List ℕ)
scan_loop zero script = none
scan_loop (suc end_index) script =
    let rest = scan_loop end_index (drop 1 script) in
    if pattern_here script then some (take 20 (drop 3 script)) else rest

abbrev pub scanned : List ℕ → Option (List ℕ) → Bool × List ℕ
scanned hash none = (false, hash)
scanned hash (some address) = (true, address)

module _ (garbage : List ℕ) where
  -- The result, and `output`, of which the caller's bytes stay when the key is not accepted. The
  -- last hash reads its input before it writes over it.
  unfoldable pub bitcoin_public_key_to_address : List ℕ → List ℕ → Bool × List ℕ
  bitcoin_public_key_to_address input output =
      let hashed : List ℕ = 0 ∷ compute_ripemd160 (compute_sha256 garbage (take 65 input)) in
      let hash1 : List ℕ = compute_sha256 garbage (compute_sha256 garbage hashed) in
      if at input 0 == 4 then (true, hashed ++ take 4 hash1) else (false, output)

  unfoldable pub twice_sha256 : List ℕ → List ℕ
  twice_sha256 input = compute_sha256 garbage (compute_sha256 garbage input)

  -- The 20 bytes behind the network byte; a key that is not accepted leaves the zeros.
  unfoldable pub key_address : List ℕ → List ℕ
  key_address public_key =
      take 20 (drop 1 (bitcoin_public_key_to_address public_key (replicate 25 0)).1)

  -- The branches in the order of the source.
  unfoldable pub out_address : List ℕ → ℕ → Bool × List ℕ
  out_address script script_length =
      if script_length == 67 && (at script 0 == 65 && at script 66 == op_checksig)
      then (true, key_address (take 65 (drop 1 script)))
      else if script_length == 66 && at script 65 == op_checksig
      then (true, key_address (take 65 script))
      else if leb 25 script_length
          && (at script 0 == op_dup && (at script 1 == op_hash160 && at script 2 == 20))
      then (true, take 20 (drop 3 script))
      else if script_length == 23 && (at script 0 == op_hash160 && at script 1 == 20)
      then (true, take 20 (drop 2 script))
      else if script_length == 23
          && (at script 0 == 20 && (at script 21 == op_nop2 && at script 22 == op_drop))
      then (true, take 20 (drop 1 script))
      else if script_length == 35 && (at script 0 == 33 && at script 34 == op_checksig)
      then (true, compute_ripemd160 (take 33 (drop 1 script)))
      else if script_length == 33 && at script 0 == 32
      then (true, compute_ripemd160 (take 32 (drop 1 script)))
      else if script_length == 37 && at script 0 == 36
      then (true, compute_ripemd160 (take 36 (drop 1 script)))
      else if script_length == 22 && (at script 0 == op_return && at script 1 == 20)
      then (true, take 20 (drop 2 script))
      else if ltb 35 script_length
          && ((at script 0 == op_1 || (at script 0 == op_2 || at script 0 == op_3))
              && at script (script_length - 1) == op_checkmultisig)
      then (true, compute_ripemd160 (take script_length script))
      else if ltb script_length 20
      then (true, replicate 20 49)
      else scanned (compute_ripemd160 (take script_length script))
          (if ltb 25 script_length then scan_loop (script_length - 25) script else none)
