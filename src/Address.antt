-- ===== src/Address.antt =====
-- BLOCKCHAIN_BITCOIN_ADDRESS of BitcoinAnalysis/hash.h, and decodeBase58 of the same file, which
-- it calls: an address of 25 bytes is a network byte, a hash of 20 bytes and a checksum of four.
pub mod Checksum
pub mod Ascii
mod Runs
use bitcoin_analysis.Common.{
  ℕ, List, [], ◌∷◌, ◌++◌, Bool, true, false, ◌||◌, ◌==◌, leb, if◌then◌else◌, get_or, length, take,
  reverse, replicate, Option, none, some,
}
use bitcoin_analysis.Hash.Sha256.{compute_sha256}
use bitcoin_analysis.Block.Script.{bitcoin_public_key_to_address}
use bitcoin_analysis.Base58.{decode_base58}
use bitcoin_analysis.Base58.Encoder.{Encoding, refused, encode_base58}

-- The bytes that are written, in the order of the caller's choice; no bytes where they are too
-- many.
abbrev pub written : ℕ → Bool → List ℕ → List ℕ
written max_output_length little_endian bn =
    let bytes : List ℕ = if little_endian then reverse bn else bn in
    if leb (length bn) max_output_length then bytes else []

-- The number decoded into has no bytes at first. `none` where the decoding does not return.
unfoldable pub decode_bytes : List ℕ → ℕ → Bool → Option (List ℕ)
decode_bytes string max_output_length little_endian = elim (decode_base58 [] string) [
  | none ↦ none
  | some bn ↦ some (written max_output_length little_endian bn)
]

module _ (garbage : List ℕ) where
  -- The checksum of the 21 bytes in front.
  unfoldable pub checksum_of : List ℕ → List ℕ
  checksum_of output = compute_sha256 garbage (compute_sha256 garbage (take 21 output))

  -- One byte that matches is enough.
  unfoldable pub is_accepted : List ℕ → Bool
  is_accepted output =
      get_or output 21 0 == get_or (checksum_of output) 0 0
      || (get_or output 22 0 == get_or (checksum_of output) 1 0
          || (get_or output 23 0 == get_or (checksum_of output) 2 0
              || get_or output 24 0 == get_or (checksum_of output) 3 0))

  abbrev pub judged : List ℕ → Bool × List ℕ
  judged output = (if length output == 25 then is_accepted output else false, output)

  unfoldable pub bitcoin_ascii_to_address : List ℕ → Option (Bool × List ℕ)
  bitcoin_ascii_to_address input = elim (decode_bytes input 25 true) [
    | none ↦ none
    | some output ↦ some (judged output)
  ]

  unfoldable pub bitcoin_ripemd160_to_address : List ℕ → List ℕ
  bitcoin_ripemd160_to_address ripe_md160 =
      let output : List ℕ = 0 ∷ take 20 ripe_md160 in
      output ++ take 4 (compute_sha256 garbage (compute_sha256 garbage output))

-- The 25 bytes as a string.
unfoldable pub bitcoin_address_to_ascii : List ℕ → ℕ → Encoding
bitcoin_address_to_ascii address max_output_len = encode_base58 address 25 true max_output_len

module _ (garbage : List ℕ) where
  -- A public key is made an address, and that a string; false where it is not accepted.
  unfoldable pub bitcoin_public_key_to_ascii : List ℕ → ℕ → Encoding
  bitcoin_public_key_to_ascii input max_output_len =
      let hash2 : List ℕ = (bitcoin_public_key_to_address garbage input (replicate 25 0)).1 in
      if (bitcoin_public_key_to_address garbage input (replicate 25 0)).0
      then encode_base58 hash2 25 true max_output_len
      else refused
