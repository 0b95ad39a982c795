-- ===== src/Hash/Sha256.antt =====
-- namespace BLOCKCHAIN_SHA256 of BitcoinAnalysis/hash.h: the streaming SHA-256. The proofs are in
-- the child modules. `burnStack`, which overwrites dead stack bytes, has no effect on the state.
pub mod Swap
pub mod Logic
pub mod Schedule
pub mod View
pub mod Stream
pub mod Digest
mod Runs
use bitcoin_analysis.Common.{
  ℕ, zero, suc, ◌+◌, ◌-◌, ◌*◌, ◌/◌, ◌^◌, List, [], ◌∷◌, ◌++◌, map, Bool, true, false, bit_and,
  bit_or, bit_xor, ltb, ◌==◌, if◌then◌else◌, length, get_or, take, drop, replicate, copy_to, u32,
  u64, shr, shl, words_le, bytes_le32, bytes_le64,
}

pub rotl : ℕ → ℕ → ℕ
rotl x n = bit_or (shl x n) (shr x (32 - n))

pub rotr : ℕ → ℕ → ℕ
rotr x n = bit_or (shr x n) (shl x (32 - n))

-- Ch, Maj, SIGMA0, SIGMA1, sigma0 and sigma1.
pub choose : ℕ → ℕ → ℕ → ℕ
choose x y z = bit_xor z (bit_and x (bit_xor y z))

pub majority : ℕ → ℕ → ℕ → ℕ
majority x y z = bit_or (bit_and x (bit_or y z)) (bit_and y z)

pub big_sigma0 : ℕ → ℕ
unfolding rotr
big_sigma0 x = bit_xor (bit_xor (rotr x 2) (rotr x 13)) (rotr x 22)

pub big_sigma1 : ℕ → ℕ
unfolding rotr
big_sigma1 x = bit_xor (bit_xor (rotr x 6) (rotr x 11)) (rotr x 25)

pub small_sigma0 : ℕ → ℕ
unfolding rotr
small_sigma0 x = bit_xor (bit_xor (rotr x 7) (rotr x 18)) (shr x 3)

pub small_sigma1 : ℕ → ℕ
unfolding rotr
small_sigma1 x = bit_xor (bit_xor (rotr x 17) (rotr x 19)) (shr x 10)

-- The variables a to h of the rounds, and the array `hash` of the context.
pub record Words8 : Type 0 where
  pub a : ℕ
  pub b : ℕ
  pub c : ℕ
  pub d : ℕ
  pub e : ℕ
  pub f : ℕ
  pub g : ℕ
  pub h : ℕ

-- DO_ROUND, with what `Kp` and `W` point at.
pub do_round : ℕ → ℕ → Words8 → Words8
unfolding big_sigma0 big_sigma1 choose majority
do_round k w r =
    let t1 : ℕ = u32 (r.h + big_sigma1 r.e + choose r.e r.f r.g + k + w) in
    let t2 : ℕ = u32 (big_sigma0 r.a + majority r.a r.b r.c) in
    record {
      a = u32 (t1 + t2);
      b = r.a;
      c = r.b;
      d = r.c;
      e = u32 (r.d + t1);
      f = r.e;
      g = r.f;
      h = r.g;
    }

pub k_table : List ℕ
k_table =
    0x428a2f98 ∷ 0x71374491 ∷ 0xb5c0fbcf ∷ 0xe9b5dba5 ∷ 0x3956c25b ∷ 0x59f111f1 ∷ 0x923f82a4
    ∷ 0xab1c5ed5 ∷ 0xd807aa98 ∷ 0x12835b01 ∷ 0x243185be ∷ 0x550c7dc3 ∷ 0x72be5d74 ∷ 0x80deb1fe
    ∷ 0x9bdc06a7 ∷ 0xc19bf174 ∷ 0xe49b69c1 ∷ 0xefbe4786 ∷ 0x0fc19dc6 ∷ 0x240ca1cc ∷ 0x2de92c6f
    ∷ 0x4a7484aa ∷ 0x5cb0a9dc ∷ 0x76f988da ∷ 0x983e5152 ∷ 0xa831c66d ∷ 0xb00327c8 ∷ 0xbf597fc7
    ∷ 0xc6e00bf3 ∷ 0xd5a79147 ∷ 0x06ca6351 ∷ 0x14292967 ∷ 0x27b70a85 ∷ 0x2e1b2138 ∷ 0x4d2c6dfc
    ∷ 0x53380d13 ∷ 0x650a7354 ∷ 0x766a0abb ∷ 0x81c2c92e ∷ 0x92722c85 ∷ 0xa2bfe8a1 ∷ 0xa81a664b
    ∷ 0xc24b8b70 ∷ 0xc76c51a3 ∷ 0xd192e819 ∷ 0xd6990624 ∷ 0xf40e3585 ∷ 0x106aa070 ∷ 0x19a4c116
    ∷ 0x1e376c08 ∷ 0x2748774c ∷ 0x34b0bcb5 ∷ 0x391c0cb3 ∷ 0x4ed8aa4a ∷ 0x5b9cca4f ∷ 0x682e6ff3
    ∷ 0x748f82ee ∷ 0x78a5636f ∷ 0x84c87814 ∷ 0x8cc70208 ∷ 0x90befffa ∷ 0xa4506ceb ∷ 0xbef9a3f7
    ∷ 0xc67178f2 ∷ []

-- The 64 unrolled rounds: both pointers advance by one at each.
pub do_rounds : List ℕ → List ℕ → Words8 → Words8
unfolding do_round
do_rounds (k ∷ ks) (w ∷ ws) r = do_rounds ks ws (do_round k w r)
do_rounds _ _ r = r

-- BYTESWAP and _byteswap64, for a little-endian machine.
pub byteswap : ℕ → ℕ
unfolding rotl rotr
byteswap x = bit_or (bit_and (rotr x 8) 0xff00ff00) (bit_and (rotl x 8) 0x00ff00ff)

pub byteswap64 : ℕ → ℕ
unfolding byteswap
byteswap64 x =
    let a : ℕ = u32 (shr x 32) in
    let b : ℕ = u32 x in bit_or (u64 (byteswap b * 2 ^ 32)) (byteswap a)

-- The loop that fills W[16] to W[63]. The pointers W16, W15, W7 and W2 are indices, and W points
-- at the end of the list.
pub extend : ℕ → ℕ → ℕ → ℕ → ℕ → List ℕ → List ℕ
unfolding small_sigma0 small_sigma1
extend zero w16 w15 w7 w2 buf = buf
extend (suc left) w16 w15 w7 w2 buf =
    let next : ℕ = u32 (
      small_sigma1 (get_or buf w2 0)
      + get_or buf w7 0
      + small_sigma0 (get_or buf w15 0)
      + get_or buf w16 0) in
    extend left (w16 + 1) (w15 + 1) (w7 + 1) (w2 + 1) (buf ++ next ∷ [])

-- `cbuf` is read as sixteen words of the machine's byte order.
pub schedule : List ℕ → List ℕ
unfolding extend byteswap
schedule cbuf = extend 48 0 1 9 14 (map byteswap (words_le cbuf))

pub sha256_guts : Words8 → List ℕ → Words8
unfolding schedule do_rounds k_table
sha256_guts hash cbuf =
    let r = do_rounds k_table (schedule cbuf) hash in
    record {
      a = u32 (hash.a + r.a);
      b = u32 (hash.b + r.b);
      c = u32 (hash.c + r.c);
      d = u32 (hash.d + r.d);
      e = u32 (hash.e + r.e);
      f = u32 (hash.f + r.f);
      g = u32 (hash.g + r.g);
      h = u32 (hash.h + r.h);
    }

-- sha256_ctx_t; `buffer` is the union seen as its 64 bytes.
pub record Ctx : Type 0 where
  pub total_length : ℕ
  pub hash : Words8
  pub buffer_length : ℕ
  pub buffer : List ℕ

pub init_hash : Words8
init_hash = record {
  a = 0x6a09e667;
  b = 0xbb67ae85;
  c = 0x3c6ef372;
  d = 0xa54ff53a;
  e = 0x510e527f;
  f = 0x9b05688c;
  g = 0x1f83d9ab;
  h = 0x5be0cd19;
}

-- The buffer of a fresh context is not initialised: any bytes.
pub sha256_init : List ℕ → Ctx
unfolding init_hash
sha256_init garbage = record {
  total_length = 0;
  hash = init_hash;
  buffer_length = 0;
  buffer = garbage;
}

-- sha256_update up to its loop: a buffer in use is filled first. `len` is the length of the data.
pub fill_buffer : Ctx → List ℕ → Ctx × List ℕ
fill_buffer sc input =
    if sc.buffer_length == 0
    then (sc, input)
    else (let left : ℕ = 64 - sc.buffer_length in
        let n : ℕ = if ltb (length input) left then length input else left in
        let sc' : Ctx = record sc {
          total_length = u64 (sc.total_length + n * 8);
          buffer_length = sc.buffer_length + n;
          buffer = copy_to sc.buffer sc.buffer_length input n;
        } in
        if sc'.buffer_length == 64
        then (
          record sc' { hash = sha256_guts sc'.hash sc'.buffer; buffer_length = 0 },
          drop n input,
        )
        else (sc', drop n input))

-- The loop over whole blocks, which bypasses the buffer.
pub whole_blocks : ℕ → Ctx → List ℕ → Ctx × List ℕ
whole_blocks zero sc input = (sc, input)
whole_blocks (suc fuel) sc input = elim (ltb 63 (length input)) [
  | true ↦
      whole_blocks fuel
        (record sc {
          total_length = u64 (sc.total_length + 512);
          hash = sha256_guts sc.hash (take 64 input);
        })
        (drop 64 input)
  | false ↦ (sc, input)
]

pub keep_tail : Ctx → List ℕ → Ctx
keep_tail sc input = if length input == 0 then sc else record sc {
  total_length = u64 (sc.total_length + length input * 8);
  buffer_length = sc.buffer_length + length input;
  buffer = copy_to sc.buffer sc.buffer_length input (length input);
}

-- Each round of the loop takes 64 bytes, so as many rounds as there are bytes are enough.
pub sha256_update : Ctx → List ℕ → Ctx
sha256_update sc input =
    let (sc1, rest1) = fill_buffer sc input in
    let (sc2, rest2) = whole_blocks (length rest1) sc1 rest1 in keep_tail sc2 rest2

pub padding : List ℕ
padding = 0x80 ∷ replicate 63 0

-- The loop that stores the eight words.
pub store_hash : Words8 → List ℕ
unfolding byteswap
store_hash w =
    bytes_le32 (byteswap w.a)
    ++ (bytes_le32 (byteswap w.b)
        ++ (bytes_le32 (byteswap w.c)
            ++ (bytes_le32 (byteswap w.d)
                ++ (bytes_le32 (byteswap w.e)
                    ++ (bytes_le32 (byteswap w.f)
                        ++ (bytes_le32 (byteswap w.g) ++ bytes_le32 (byteswap w.h)))))))

pub bytes_to_pad : ℕ → ℕ
bytes_to_pad buffer_length = let n : ℕ = 120 - buffer_length in if ltb 64 n then n - 64 else n

pub sha256_finalize : Ctx → List ℕ
unfolding bytes_to_pad padding byteswap64 store_hash
sha256_finalize sc =
    let length_pad : ℕ = byteswap64 sc.total_length in
    let sc1 : Ctx = sha256_update sc (take (bytes_to_pad sc.buffer_length) padding) in
    let sc2 : Ctx = sha256_update sc1 (bytes_le64 length_pad) in store_hash sc2.hash

pub compute_sha256 : List ℕ → List ℕ → List ℕ
unfolding sha256_init sha256_update sha256_finalize
compute_sha256 garbage input = sha256_finalize (sha256_update (sha256_init garbage) input)
