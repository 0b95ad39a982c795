-- ===== src/Hash/Ripemd160/Digest.antt =====
-- `computeRIPEMD160` against the standard's description: the message is padded to whole blocks by
-- a bit, zeros and its length in bits, lowest byte first, and the blocks are compressed in order.
use bitcoin_analysis.Common.{
  ℕ, zero, suc, ◌+◌, ◌-◌, ◌*◌, ◌/◌, ◌%◌, ◌^◌, ◌≤◌, ◌<◌, ◌≡◌, refl, sym, ap, ap₂, ◌∙◌, List, [], ◌∷◌,
  ◌++◌, append_assoc, arith, inl, inr, Bool-cases, ltb, lt→ltb, le→ltb, All, IsByte, length, take,
  drop, replicate, words_le, bytes_le64, length-append, length-drop, length-replicate, drop-drop,
  replicate-add,
}
use bitcoin_analysis.Hash.Blocks.{absorb, absorb-split, absorb_one, absorb_two, zeros}
use bitcoin_analysis.Hash.Ripemd160.{
  Words5, compress, md_init, md_finish, chunks, hash_code, compute_ripemd160,
}
use bitcoin_analysis.Hash.Ripemd160.Finish.{md_finish_one, md_finish_two}
use bitcoin_analysis.Hash.Ripemd160.Pack.{load_block-words_le}

-- A block of 64 bytes, read as little-endian words.
pub step : Words5 → List ℕ → Words5
step w block = compress w (words_le block)

pub padded : List ℕ → List ℕ
padded message =
    message ++ (0x80 ∷ replicate (zeros (length message)) 0 ++ bytes_le64 (8 * length message))

pub ripemd160_standard : List ℕ → List ℕ
ripemd160_standard message =
    let blocks : List ℕ = padded message in
    hash_code (absorb step (length blocks / 64) md_init blocks)

All-drop : (n : ℕ) (bs : List ℕ) → All IsByte bs → All IsByte (drop n bs)
All-drop zero bs h = h
All-drop (suc n) [] h = h
All-drop (suc n) (b ∷ bs) (hb, hs) = All-drop n bs hs

-- The loop over whole blocks.
chunks-absorb :
    (n fuel : ℕ) (w : Words5) (bs : List ℕ)
    → All IsByte bs
    → 64 * n ≤ length bs
    → length bs < 64 * n + 64
    → n ≤ fuel
    → chunks fuel w bs (length bs) ≡ (absorb step n w bs, drop (64 * n) bs)
unfolding chunks absorb step
chunks-absorb zero zero w bs h lo hi f = refl
chunks-absorb zero (suc fuel) w bs h lo hi f = rw (le→ltb 63 (length bs) (omega arith), chunks)
chunks-absorb (suc n) zero w bs h lo hi f = absurd (omega arith)
chunks-absorb (suc n) (suc fuel) w bs h lo hi f =
    rw (lt→ltb 63 (length bs) (omega arith), chunks)
      (ap₂ (λ b (k : ℕ). chunks fuel (compress w b) (drop 64 bs) k)
          (load_block-words_le 16 bs h (omega arith)) (sym (length-drop 64 bs))
        ∙ chunks-absorb n fuel (compress w (words_le (take 64 bs))) (drop 64 bs) (All-drop 64 bs h)
            (omega (arith, length-drop 64 bs)) (omega (arith, length-drop 64 bs)) (omega arith)
        ∙ ap (λ r. (absorb step n (compress w (words_le (take 64 bs))) (drop 64 bs), r))
            (drop-drop 64 (64 * n) bs ∙ ap (λ (k : ℕ). drop k bs) {x = 64 + 64 * n} (omega arith)))

zeros_one : (n r : ℕ) → r ≡ n % 64 → r < 56 → 55 - r ≡ zeros n
unfolding zeros
zeros_one n r e lt = omega arith

zeros_two : (n r : ℕ) → r ≡ n % 64 → 56 ≤ r → 63 - r + 56 ≡ zeros n
unfolding zeros
zeros_two n r e ge = omega arith

module _ (w : Words5) (n : ℕ) (rest : List ℕ) (short : n < 2 ^ 32) (len : length rest ≡ n % 64)
    (h : All IsByte rest) where
  abbrev tail_bytes : List ℕ
  tail_bytes = rest ++ (0x80 ∷ replicate (zeros n) 0 ++ bytes_le64 (8 * n))

  md_finish-absorb : md_finish w rest n 0 ≡ absorb step (length tail_bytes / 64) w tail_bytes
  unfolding step
  md_finish-absorb = elim (Bool-cases (ltb (length rest) 56)) [
    | inl fits ↦ one (ground arith)
    | inr not_fits ↦ two (ground arith)
  ]
    where
      front : List ℕ
      front = rest ++ 0x80 ∷ []

      regroup :
          (zs : List ℕ)
          → (front ++ zs) ++ bytes_le64 (8 * n) ≡ rest ++ (0x80 ∷ zs ++ bytes_le64 (8 * n))
      regroup zs =
          append_assoc front zs (bytes_le64 (8 * n))
          ∙ append_assoc rest (0x80 ∷ []) (zs ++ bytes_le64 (8 * n))

      count : (k : ℕ) → length (front ++ replicate k 0) ≡ length rest + 1 + k
      count k = omega (
        arith,
        length-append front (replicate k 0),
        length-append rest (0x80 ∷ []),
        length-replicate {A = ℕ} k 0,
      )

      one :
          length rest < 56
          → md_finish w rest n 0 ≡ absorb step (length tail_bytes / 64) w tail_bytes
      one lt =
          let k : ℕ = 55 - length rest in
          let block : List ℕ = (front ++ replicate k 0) ++ bytes_le64 (8 * n) in
          let same : block ≡ tail_bytes =
            regroup (replicate k 0)
            ∙ ap (λ (z : ℕ). rest ++ (0x80 ∷ replicate z 0 ++ bytes_le64 (8 * n))) {x = k}
                {y = zeros n} (zeros_one n (length rest) len lt) in
          md_finish_one w n rest short len h lt
          ∙ sym (
              absorb_one step w block (
                omega
                  (arith, length-append (front ++ replicate k 0) (bytes_le64 (8 * n)), count k)))
          ∙ ap (λ t. absorb step (length t / 64) w t) same

      two :
          56 ≤ length rest
          → md_finish w rest n 0 ≡ absorb step (length tail_bytes / 64) w tail_bytes
      two ge =
          let k : ℕ = 63 - length rest in
          let same : (front ++ replicate k 0) ++ (replicate 56 0 ++ bytes_le64 (8 * n))
              ≡ tail_bytes =
            sym (append_assoc (front ++ replicate k 0) (replicate 56 0) (bytes_le64 (8 * n)))
            ∙ ap (λ t. t ++ bytes_le64 (8 * n))
                (append_assoc front (replicate k 0) (replicate 56 0)
                  ∙ ap (λ t. front ++ t) (sym (replicate-add k 56 0)))
            ∙ regroup (replicate (k + 56) 0)
            ∙ ap (λ (z : ℕ). rest ++ (0x80 ∷ replicate z 0 ++ bytes_le64 (8 * n))) {x = k + 56}
                {y = zeros n} (zeros_two n (length rest) len ge) in
          md_finish_two w n rest short len h ge
          ∙ sym (
              absorb_two step w (front ++ replicate k 0) (replicate 56 0 ++ bytes_le64 (8 * n))
                (omega (arith, count k)) refl)
          ∙ ap (λ t. absorb step (length t / 64) w t) same

-- `computeRIPEMD160` of a message of bytes shorter than 2^32 is the digest of the standard's padded
-- message: its blocks compressed in order from the initial words, each word stored lowest byte
-- first.
pub compute_ripemd160-ripemd160_standard :
    (message : List ℕ)
    → All IsByte message
    → length message < 2 ^ 32
    → compute_ripemd160 message ≡ ripemd160_standard message
unfolding compute_ripemd160 ripemd160_standard padded
compute_ripemd160-ripemd160_standard message h short =
    let n : ℕ = length message in
    let m : ℕ = n / 64 in
    let rest : List ℕ = drop (64 * m) message in
    let left : length rest ≡ n % 64 = omega (arith, length-drop (64 * m) message) in
    let pad : List ℕ = 0x80 ∷ replicate (zeros n) 0 ++ bytes_le64 (8 * n) in
    let k : ℕ = length (rest ++ pad) / 64 in
    let blocks : m + k ≡ length (message ++ pad) / 64 =
      omega (arith, length-append rest pad, length-append message pad) in
    rw (chunks-absorb m n md_init message h (omega arith) (omega arith) (omega arith)) (
      ap hash_code (
        md_finish-absorb (absorb step m md_init message) n rest short left
          (All-drop (64 * m) message h)
        ∙ sym (absorb-split step m k md_init message pad (omega arith))
        ∙ ap (λ (b : ℕ). absorb step b md_init (message ++ pad)) blocks))

pub length-compute_ripemd160 : (message : List ℕ) → length (compute_ripemd160 message) ≡ 20
unfolding compute_ripemd160 hash_code
length-compute_ripemd160 message = refl
