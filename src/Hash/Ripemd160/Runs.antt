-- ===== src/Hash/Ripemd160/Runs.antt =====
-- Runs of the RIPEMD-160 code, and its theorems at concrete inputs.
use bitcoin_analysis.Common.{◌≡◌, refl, [], ◌∷◌, arith}
use bitcoin_analysis.Hash.Ripemd160.{
  compute_ripemd160, chunks, md_finish, put_bytes, put_bit, put_length, compress, load_block,
}
use bitcoin_analysis.Hash.Ripemd160.Digest.{
  ripemd160_standard, compute_ripemd160-ripemd160_standard,
}

-- RIPEMD-160 of the three letters abc.
known_answer :
    compute_ripemd160 (b'a' ∷ b'b' ∷ b'c' ∷ [])
    ≡ 0x8e ∷ 0xb2 ∷ 0x08 ∷ 0xf7 ∷ 0xe0 ∷ 0x5d ∷ 0x98 ∷ 0x7a ∷ 0x9b ∷ 0x04 ∷ 0x4a ∷ 0x8e ∷ 0x98
      ∷ 0xc6 ∷ 0xb0 ∷ 0x87 ∷ 0xf1 ∷ 0x5a ∷ 0x0b ∷ 0xfc ∷ []
unfolding compute_ripemd160 chunks md_finish put_bytes put_bit put_length compress load_block
known_answer = refl

compute_ripemd160-ripemd160_standard_example :
    compute_ripemd160 (b'a' ∷ b'b' ∷ b'c' ∷ []) ≡ ripemd160_standard (b'a' ∷ b'b' ∷ b'c' ∷ [])
compute_ripemd160-ripemd160_standard_example =
    compute_ripemd160-ripemd160_standard (b'a' ∷ b'b' ∷ b'c' ∷ []) (omega arith) (omega arith)
