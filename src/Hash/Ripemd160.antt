-- ===== src/Hash/Ripemd160.antt =====
-- namespace BLOCKCHAIN_RIPEMD160 of BitcoinAnalysis/hash.h. The proofs are in the child modules.
pub mod Pack
pub mod Finish
pub mod Digest
mod Runs
mod Tables
use Tables.{left1, left2, left3, left4, left5, right1, right2, right3, right4, right5}
use bitcoin_analysis.Common.{
  ℕ, zero, suc, ◌+◌, ◌-◌, ◌*◌, ◌/◌, ◌^◌, List, [], ◌∷◌, ◌++◌, Bool, true, false, bit_and, bit_or,
  bit_xor, ltb, if◌then◌else◌, length, get_or, set, take, drop, replicate, u32, shr, shl, not32,
  bytes_le32,
}

-- BYTES_TO_DWORD of four bytes.
pub bytes_to_dword : ℕ → ℕ → ℕ → ℕ → ℕ
bytes_to_dword b0 b1 b2 b3 = bit_or (bit_or (bit_or (shl b3 24) (shl b2 16)) (shl b1 8)) b0

pub rol : ℕ → ℕ → ℕ
rol x n = bit_or (shl x n) (shr x (32 - n))

-- The macros F, G, H, I and J.
pub fun_f : ℕ → ℕ → ℕ → ℕ
fun_f x y z = bit_xor (bit_xor x y) z

pub fun_g : ℕ → ℕ → ℕ → ℕ
fun_g x y z = bit_or (bit_and x y) (bit_and (not32 x) z)

pub fun_h : ℕ → ℕ → ℕ → ℕ
fun_h x y z = bit_xor (bit_or x (not32 y)) z

pub fun_i : ℕ → ℕ → ℕ → ℕ
fun_i x y z = bit_or (bit_and x z) (bit_and y (not32 z))

pub fun_j : ℕ → ℕ → ℕ → ℕ
fun_j x y z = bit_xor x (bit_or y (not32 z))

-- Five words: `MDbuf`, and the variables of either line in the order of the next macro call.
pub record Words5 : Type 0 where
  pub a : ℕ
  pub b : ℕ
  pub c : ℕ
  pub d : ℕ
  pub e : ℕ

-- One call of a macro FF to JJJ on (a, b, c, d, e). The next call in the source names the variables
-- in the order (e, a, b, c, d), which is the order of the result.
pub operation : (ℕ → ℕ → ℕ → ℕ) → ℕ → ℕ → ℕ → Words5 → Words5
unfolding rol
operation f k x s r =
    let a1 : ℕ = u32 (r.a + f r.b r.c r.d + x + k) in
    record { a = r.e; b = u32 (rol a1 s + r.e); c = r.b; d = rol r.c 10; e = r.d }

-- A round: its calls by the index into X and the shift.
pub round : (ℕ → ℕ → ℕ → ℕ) → ℕ → List (ℕ × ℕ) → List ℕ → Words5 → Words5
round f k [] x r = r
round f k ((i, s) ∷ calls) x r = round f k calls x (operation f k (get_or x i 0) s r)

pub left_line : List ℕ → Words5 → Words5
unfolding round operation fun_f fun_g fun_h fun_i fun_j left1 left2 left3 left4 left5
left_line x r = round fun_j 0xa953fd4e left5 x (
    round fun_i 0x8f1bbcdc left4 x
      (round fun_h 0x6ed9eba1 left3 x (round fun_g 0x5a827999 left2 x (round fun_f 0 left1 x r))))

pub right_line : List ℕ → Words5 → Words5
unfolding round operation fun_f fun_g fun_h fun_i fun_j right1 right2 right3 right4 right5
right_line x r = round fun_f 0 right5 x (
    round fun_g 0x7a6d76e9 right4 x (
      round fun_h 0x6d703ef3 right3 x
        (round fun_i 0x5c4dd124 right2 x (round fun_j 0x50a28be6 right1 x r))))

-- After 80 calls the variables are in their first order again.
pub compress : Words5 → List ℕ → Words5
unfolding left_line right_line
compress mdbuf x =
    let l = left_line x mdbuf in
    let r = right_line x mdbuf in
    record {
      a = u32 (r.d + l.c + mdbuf.b);
      b = u32 (mdbuf.c + l.d + r.e);
      c = u32 (mdbuf.d + l.e + r.a);
      d = u32 (mdbuf.e + l.a + r.b);
      e = u32 (mdbuf.a + l.b + r.c);
    }

pub md_init : Words5
md_init = record { a = 0x67452301; b = 0xefcdab89; c = 0x98badcfe; d = 0x10325476; e = 0xc3d2e1f0 }

-- The loop of MDfinish that puts bytes into X, from byte `i` on.
pub put_bytes : ℕ → List ℕ → List ℕ → List ℕ
put_bytes i [] x = x
put_bytes i (b ∷ bs) x =
    put_bytes (i + 1) bs
      (set x (shr i 2) (bit_xor (get_or x (shr i 2) 0) (shl b (8 * bit_and i 3))))

pub put_bit : ℕ → List ℕ → List ℕ
put_bit lswlen x =
    let i : ℕ = bit_and (shr lswlen 2) 15 in
    set x i (bit_xor (get_or x i 0) (shl 1 (8 * bit_and lswlen 3 + 7)))

pub put_length : ℕ → ℕ → List ℕ → List ℕ
put_length lswlen mswlen x =
    set (set x 14 (shl lswlen 3)) 15 (bit_or (shr lswlen 29) (shl mswlen 3))

-- A second block is compressed if the length does not fit behind the bytes.
pub md_finish : Words5 → List ℕ → ℕ → ℕ → Words5
md_finish mdbuf strptr lswlen mswlen =
    let x : List ℕ =
      put_bit lswlen (put_bytes 0 (take (bit_and lswlen 63) strptr) (replicate 16 0)) in
    if ltb 55 (bit_and lswlen 63)
    then compress (compress mdbuf x) (put_length lswlen mswlen (replicate 16 0))
    else compress mdbuf (put_length lswlen mswlen x)

-- Sixteen words of the message, or fewer where it ends.
pub load_block : ℕ → List ℕ → List ℕ
unfolding bytes_to_dword
load_block zero message = []
load_block (suc n) (b0 ∷ b1 ∷ b2 ∷ b3 ∷ message) = bytes_to_dword b0 b1 b2 b3 ∷ load_block n message
load_block (suc n) _ = []

-- The loop over whole blocks; the round's number `fuel` is at least that of the blocks.
pub chunks : ℕ → Words5 → List ℕ → ℕ → Words5 × List ℕ
chunks zero mdbuf message nbytes = (mdbuf, message)
chunks (suc fuel) mdbuf message nbytes = elim (ltb 63 nbytes) [
  | true ↦ chunks fuel (compress mdbuf (load_block 16 message)) (drop 64 message) (nbytes - 64)
  | false ↦ (mdbuf, message)
]

pub hash_code : Words5 → List ℕ
hash_code w =
    bytes_le32 w.a ++ (bytes_le32 w.b ++ (bytes_le32 w.c ++ (bytes_le32 w.d ++ bytes_le32 w.e)))

-- Each round of the loop takes 64 bytes, so `length` rounds are enough. The parameter `length` of
-- the source is the length of the message.
pub compute_ripemd160 : List ℕ → List ℕ
unfolding md_init hash_code
compute_ripemd160 message =
    let n : ℕ = length message in
    let (mdbuf, rest) = chunks n md_init message n in hash_code (md_finish mdbuf rest n 0)
