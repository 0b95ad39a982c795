-- ===== src/Hash/Sha256/Swap.antt =====
-- BYTESWAP and `_byteswap64` reverse the bytes of a word, so that the code reads and writes
-- big-endian words on a little-endian machine.
use bitcoin_analysis.Common.{
  ℕ, ◌+◌, ◌*◌, ◌/◌, ◌%◌, ◌^◌, ◌<◌, ◌≡◌, refl, ap, ap₂, ◌∙◌, List, [], ◌∷◌, map, bit_and, bit_or,
  arith, All, u32, u64, shr, shl, IsByte, le32, words_le, words_be, bytes_le32, bytes_be32,
  bytes_le64, bytes_be64,
}
use bitcoin_analysis.Common.Bits.{
  bit_and_eq, bit_or_eq, bit_or_eq_low, bit_or_fields_eq, bit_or_disjoint, bit_and-zero,
  bit_or-zero, zero-bit_or,
}
use bitcoin_analysis.Common.Table.{bit_and_byte}
use bitcoin_analysis.Hash.Sha256.{rotl, rotr, byteswap, byteswap64}

module _ (b0 b1 b2 b3 : ℕ) (h0 : b0 < 256) (h1 : b1 < 256) (h2 : b2 < 256) (h3 : b3 < 256) where
  rotr-le32 : rotr (le32 b0 b1 b2 b3) 8 ≡ le32 b1 b2 b3 b0
  unfolding rotr
  rotr-le32 = omega (
    arith,
    bit_or_eq_low 24 b0 (b1 + b2 * 2 ^ 8 + b3 * 2 ^ 16) (shr (le32 b0 b1 b2 b3) 8)
        (shl (le32 b0 b1 b2 b3) 24) (omega arith) (omega arith) (omega arith),
  )

  rotl-le32 : rotl (le32 b0 b1 b2 b3) 8 ≡ le32 b3 b0 b1 b2
  unfolding rotl
  rotl-le32 = omega (
    arith,
    bit_or_eq 8 (b0 + b1 * 2 ^ 8 + b2 * 2 ^ 16) b3 (shl (le32 b0 b1 b2 b3) 8)
        (shr (le32 b0 b1 b2 b3) 24) (omega arith) (omega arith) (omega arith),
  )

  and_high_mask : bit_and (le32 b0 b1 b2 b3) 0xff00ff00 ≡ le32 0 b1 0 b3
  and_high_mask = omega (
    arith,
    bit_and_eq 8 (b1 + b2 * 2 ^ 8 + b3 * 2 ^ 16) 0xff00ff b0 0 (le32 b0 b1 b2 b3) 0xff00ff00
        (omega arith) (omega arith) (omega arith) refl,
    bit_and_eq 8 (b2 + b3 * 2 ^ 8) 0xff00 b1 0xff (b1 + b2 * 2 ^ 8 + b3 * 2 ^ 16) 0xff00ff
        (omega arith) (omega arith) (omega arith) refl,
    bit_and_eq 8 b3 0xff b2 0 (b2 + b3 * 2 ^ 8) 0xff00 (omega arith) (omega arith) (omega arith)
        refl,
    bit_and-zero b0,
    bit_and-zero b2,
    bit_and_byte b1 h1,
    bit_and_byte b3 h3,
  )

  and_low_mask : bit_and (le32 b0 b1 b2 b3) 0x00ff00ff ≡ le32 b0 0 b2 0
  and_low_mask = omega (
    arith,
    bit_and_eq 8 (b1 + b2 * 2 ^ 8 + b3 * 2 ^ 16) 0xff00 b0 0xff (le32 b0 b1 b2 b3) 0x00ff00ff
        (omega arith) (omega arith) (omega arith) refl,
    bit_and_eq 8 (b2 + b3 * 2 ^ 8) 0xff b1 0 (b1 + b2 * 2 ^ 8 + b3 * 2 ^ 16) 0xff00 (omega arith)
        (omega arith) (omega arith) refl,
    bit_and_eq 8 b3 0 b2 0xff (b2 + b3 * 2 ^ 8) 0xff (omega arith) (omega arith) (omega arith) refl,
    bit_and_byte b0 h0,
    bit_and-zero b1,
    bit_and_byte b2 h2,
    bit_and-zero b3,
  )

module _ (b0 b1 b2 b3 : ℕ) (h0 : b0 < 256) (h1 : b1 < 256) (h2 : b2 < 256) (h3 : b3 < 256) where
  or_odd_even : bit_or (le32 0 b2 0 b0) (le32 b3 0 b1 0) ≡ le32 b3 b2 b1 b0
  or_odd_even = omega (
    arith,
    bit_or_fields_eq 8 (b2 + b0 * 2 ^ 16) (b1 * 2 ^ 8) 0 b3 (le32 0 b2 0 b0) (le32 b3 0 b1 0)
        (omega arith) (omega arith) (omega arith) (omega arith),
    bit_or_fields_eq 8 (b0 * 2 ^ 8) b1 b2 0 (b2 + b0 * 2 ^ 16) (b1 * 2 ^ 8) (omega arith)
        (omega arith) (omega arith) (omega arith),
    bit_or_disjoint 8 b0 b1 (omega arith),
    zero-bit_or b3,
    bit_or-zero b2,
  )

  -- BYTESWAP reverses the four bytes of a word.
  pub byteswap-le32 : byteswap (le32 b0 b1 b2 b3) ≡ le32 b3 b2 b1 b0
  unfolding byteswap
  byteswap-le32 =
      rw
        (
          rotr-le32 b0 b1 b2 b3 h0 h1 h2 h3,
          rotl-le32 b0 b1 b2 b3 h0 h1 h2 h3,
          and_high_mask b1 b2 b3 b0 h1 h2 h3 h0,
          and_low_mask b3 b0 b1 b2 h3 h0 h1 h2,
        )
        or_odd_even

word_bytes :
    (w : ℕ)
    → w < 2 ^ 32
    → w ≡ le32 (w % 2 ^ 8) (w / 2 ^ 8 % 2 ^ 8) (w / 2 ^ 16 % 2 ^ 8) (w / 2 ^ 24 % 2 ^ 8)
word_bytes w h = omega arith

byteswap_bytes :
    (w : ℕ)
    → w < 2 ^ 32
    → byteswap w ≡ le32 (w / 2 ^ 24 % 2 ^ 8) (w / 2 ^ 16 % 2 ^ 8) (w / 2 ^ 8 % 2 ^ 8) (w % 2 ^ 8)
byteswap_bytes w h =
    ap byteswap (word_bytes w h)
    ∙ byteswap-le32 _ _ _ _ (omega arith) (omega arith) (omega arith) (omega arith)

pub byteswap-lt : (w : ℕ) → w < 2 ^ 32 → byteswap w < 2 ^ 32
byteswap-lt w h = omega (arith, byteswap_bytes w h)

-- A swapped word is stored highest byte first.
pub bytes_le32-byteswap : (w : ℕ) → w < 2 ^ 32 → bytes_le32 (byteswap w) ≡ bytes_be32 w
bytes_le32-byteswap w h = ground (arith, byteswap_bytes w h)

byteswap64_parts :
    (x : ℕ) → x < 2 ^ 64 → byteswap64 x ≡ byteswap (x % 2 ^ 32) * 2 ^ 32 + byteswap (x / 2 ^ 32)
unfolding byteswap64
byteswap64_parts x h =
    let high : u32 (x / 2 ^ 32) ≡ x / 2 ^ 32 = omega arith in
    let low_fits : byteswap (x % 2 ^ 32) < 2 ^ 32 = byteswap-lt (x % 2 ^ 32) (omega arith) in
    bit_or_eq 32 (byteswap (x % 2 ^ 32)) (byteswap (x / 2 ^ 32))
      (u64 (byteswap (x % 2 ^ 32) * 2 ^ 32)) (byteswap (u32 (x / 2 ^ 32)))
      (byteswap-lt (x / 2 ^ 32) (omega arith)) (omega arith) (ap byteswap high)

pub bytes_le64-byteswap64 : (x : ℕ) → x < 2 ^ 64 → bytes_le64 (byteswap64 x) ≡ bytes_be64 x
bytes_le64-byteswap64 x h =
    ground (arith, byteswap64_parts x h, byteswap_bytes (x % 2 ^ 32), byteswap_bytes (x / 2 ^ 32))

-- Reading swapped words is reading big-endian words.
pub map-byteswap-words_le : (bs : List ℕ) → All IsByte bs → map byteswap (words_le bs) ≡ words_be bs
map-byteswap-words_le (b0 ∷ b1 ∷ b2 ∷ b3 ∷ bs) (h0, (h1, (h2, (h3, hs)))) =
    ap₂ ◌∷◌ (byteswap-le32 b0 b1 b2 b3 h0 h1 h2 h3) (map-byteswap-words_le bs hs)
map-byteswap-words_le [] h = refl
map-byteswap-words_le (b0 ∷ []) h = refl
map-byteswap-words_le (b0 ∷ b1 ∷ []) h = refl
map-byteswap-words_le (b0 ∷ b1 ∷ b2 ∷ []) h = refl
