-- ===== src/Hash/Sha256/Runs.antt =====
-- Runs of the SHA-256 code, and its theorems at concrete inputs.
use bitcoin_analysis.Common.{
  ℕ, ◌+◌, ◌<◌, ◌≡◌, refl, List, [], ◌∷◌, arith, replicate, length, get_or, All, IsByte, words_be,
  bit_and, bit_xor, not32,
}
use bitcoin_analysis.Hash.Sha256.{
  Ctx, compute_sha256, fill_buffer, whole_blocks, keep_tail, sha256_guts, sha256_update, choose,
  majority, schedule,
}
use bitcoin_analysis.Hash.Sha256.Logic.{choose-majority-standard}
use bitcoin_analysis.Hash.Sha256.Schedule.{next_word, schedule-standard}
use bitcoin_analysis.Hash.Sha256.View.{view, absorb_all, IsCtx}
use bitcoin_analysis.Hash.Sha256.Stream.{view-sha256_update}
use bitcoin_analysis.Hash.Sha256.Digest.{sha256_standard, compute_sha256-sha256_standard}

abbrev garbage : List ℕ
garbage = replicate 64 7

abbrev abc : List ℕ
abc = b'a' ∷ b'b' ∷ b'c' ∷ []

-- SHA-256 of the three letters abc.
known_answer :
    compute_sha256 garbage abc
    ≡ 0xba ∷ 0x78 ∷ 0x16 ∷ 0xbf ∷ 0x8f ∷ 0x01 ∷ 0xcf ∷ 0xea ∷ 0x41 ∷ 0x41 ∷ 0x40 ∷ 0xde ∷ 0x5d
      ∷ 0xae ∷ 0x22 ∷ 0x23 ∷ 0xb0 ∷ 0x03 ∷ 0x61 ∷ 0xa3 ∷ 0x96 ∷ 0x17 ∷ 0x7a ∷ 0x9c ∷ 0xb4 ∷ 0x10
      ∷ 0xff ∷ 0x61 ∷ 0xf2 ∷ 0x00 ∷ 0x15 ∷ 0xad ∷ []
unfolding compute_sha256 fill_buffer whole_blocks keep_tail sha256_guts
known_answer = refl

compute_sha256-sha256_standard_example : compute_sha256 garbage abc ≡ sha256_standard abc
compute_sha256-sha256_standard_example =
    compute_sha256-sha256_standard garbage abc (omega arith) (omega arith)

abbrev busy : Ctx
busy = record {
  total_length = 488;
  hash = record { a = 1; b = 2; c = 3; d = 4; e = 5; f = 6; g = 7; h = 8 };
  buffer_length = 61;
  buffer = garbage;
}

-- Five bytes fill the buffer and leave two.
view-sha256_update_example :
    (view (sha256_update busy (1 ∷ 2 ∷ 3 ∷ 4 ∷ 5 ∷ []))
      ≡ absorb_all (view busy) (1 ∷ 2 ∷ 3 ∷ 4 ∷ 5 ∷ []))
    × IsCtx (sha256_update busy (1 ∷ 2 ∷ 3 ∷ 4 ∷ 5 ∷ []))
view-sha256_update_example = view-sha256_update busy (1 ∷ 2 ∷ 3 ∷ 4 ∷ 5 ∷ []) (omega arith)

garbage-All : All IsByte garbage
garbage-All = omega arith

schedule-standard_example :
    (length (schedule garbage) ≡ 64)
    × ((j : ℕ) → j < 16 → get_or (schedule garbage) j 0 ≡ get_or (words_be garbage) j 0)
    × ((t : ℕ) → t < 48 → get_or (schedule garbage) (t + 16) 0 ≡ next_word (schedule garbage) t)
schedule-standard_example = schedule-standard garbage garbage-All (omega arith)

choose-majority-standard_example :
    (choose 12 10 6 ≡ bit_xor (bit_and 12 10) (bit_and (not32 12) 6))
    × (majority 12 10 6 ≡ bit_xor (bit_xor (bit_and 12 10) (bit_and 12 6)) (bit_and 10 6))
choose-majority-standard_example =
    choose-majority-standard 12 10 6 (omega arith) (omega arith) (omega arith)
