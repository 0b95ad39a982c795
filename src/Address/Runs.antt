-- ===== src/Address/Runs.antt =====
-- The address code at concrete bytes.
use bitcoin_analysis.Common.{
  some, ℕ, ◌≡◌, refl, List, [], ◌∷◌, ◌++◌, true, get_or, length, replicate, arith, inl,
}
use bitcoin_analysis.Hash.Sha256.{compute_sha256}
use bitcoin_analysis.Block.Script.{bitcoin_public_key_to_address}
use bitcoin_analysis.Block.Script.Templates.{hash160}
use bitcoin_analysis.Base58.Encoder.{text}
use bitcoin_analysis.Address.{
  is_accepted, bitcoin_ripemd160_to_address, bitcoin_address_to_ascii, bitcoin_ascii_to_address,
}
use bitcoin_analysis.Address.Ascii.{bitcoin_address_to_ascii-bitcoin_ascii_to_address}
use bitcoin_analysis.Address.Checksum.{
  is_accepted-first_byte, bitcoin_ripemd160_to_address-is_accepted,
}

abbrev garbage : List ℕ
garbage = replicate 64 7

is_accepted-first_byte_example :
    is_accepted garbage (
      replicate 21 0
      ++ get_or (compute_sha256 garbage (compute_sha256 garbage (replicate 21 0))) 0 0
        ∷ 1
        ∷ 2
        ∷ 3
        ∷ [])
    ≡ true
is_accepted-first_byte_example = is_accepted-first_byte garbage (replicate 21 0) 1 2 3 refl

bitcoin_ripemd160_to_address-is_accepted_example :
    (length (bitcoin_ripemd160_to_address garbage (replicate 20 9)) ≡ 25)
    × (is_accepted garbage (bitcoin_ripemd160_to_address garbage (replicate 20 9)) ≡ true)
    × (bitcoin_public_key_to_address garbage (4 ∷ replicate 64 1) (replicate 25 0)
        ≡ (true, bitcoin_ripemd160_to_address garbage (hash160 garbage (4 ∷ replicate 64 1))))
bitcoin_ripemd160_to_address-is_accepted_example =
    bitcoin_ripemd160_to_address-is_accepted garbage (replicate 20 9) (4 ∷ replicate 64 1)
      (replicate 25 0) refl refl refl

bitcoin_address_to_ascii-bitcoin_ascii_to_address_example :
    (str : List ℕ) × (bitcoin_address_to_ascii (replicate 1 0 ++ (8 ∷ replicate 23 7)) 79
      ≡ text str)
    × (bitcoin_ascii_to_address garbage str
        ≡ some (
          is_accepted garbage (replicate 1 0 ++ (8 ∷ replicate 23 7)),
          replicate 1 0 ++ (8 ∷ replicate 23 7),
        ))
bitcoin_address_to_ascii-bitcoin_ascii_to_address_example =
    bitcoin_address_to_ascii-bitcoin_ascii_to_address garbage 1 8 (replicate 23 7) 79 (omega arith)
      (omega arith) refl (inl (omega arith)) (omega arith)
