-- ===== src/Hash/Ripemd160/Pack.antt =====
-- How the code packs bytes into words, lowest byte first: BYTES_TO_DWORD, and the loop of MDfinish
-- that adds one byte at a time by an exclusive or.
use bitcoin_analysis.Common.{
  ℕ, zero, suc, ◌+◌, ◌*◌, ◌/◌, ◌%◌, ◌^◌, ◌≤◌, ◌<◌, ◌≡◌, refl, sym, ap, ap₂, ◌∙◌, List, [], ◌∷◌,
  ◌++◌, append-nil, append_assoc, arith, All, IsByte, bit_or, bit_xor, length, get_or, set, take,
  replicate, length-append, length-replicate, shl, le32, words_le,
}
use bitcoin_analysis.Common.Bits.{
  bit_or_eq, bit_xor_fields_eq, bit_xor_disjoint, bit_xor-zero, zero-bit_xor, bit_and_three,
}
use bitcoin_analysis.Hash.Ripemd160.{bytes_to_dword, put_bytes, load_block}

pub bytes_to_dword-le32 :
    (b0 b1 b2 b3 : ℕ)
    → b0 < 256
    → b1 < 256
    → b2 < 256
    → b3 < 256
    → bytes_to_dword b0 b1 b2 b3 ≡ le32 b0 b1 b2 b3
unfolding bytes_to_dword
bytes_to_dword-le32 b0 b1 b2 b3 h0 h1 h2 h3 =
    let top : bit_or (shl b3 24) (shl b2 16) ≡ b3 * 2 ^ 24 + b2 * 2 ^ 16 =
      bit_or_eq 24 b3 (b2 * 2 ^ 16) (shl b3 24) (shl b2 16) (omega arith) (omega arith)
        (omega arith) in
    let more : bit_or (bit_or (shl b3 24) (shl b2 16)) (shl b1 8)
        ≡ (b3 * 2 ^ 8 + b2) * 2 ^ 16 + b1 * 2 ^ 8 =
      bit_or_eq 16 (b3 * 2 ^ 8 + b2) (b1 * 2 ^ 8) _ (shl b1 8) (omega arith) (omega (arith, top))
        (omega arith) in
    omega (
      arith,
      bit_or_eq 8 (b3 * 2 ^ 16 + b2 * 2 ^ 8 + b1) b0
          (bit_or (bit_or (shl b3 24) (shl b2 16)) (shl b1 8)) b0 (omega arith)
          (omega (arith, more)) refl,
    )

pub load_block-words_le :
    (n : ℕ) (bs : List ℕ)
    → All IsByte bs
    → 4 * n ≤ length bs
    → load_block n bs ≡ words_le (take (4 * n) bs)
unfolding load_block
load_block-words_le zero bs h len = refl
load_block-words_le (suc n) (b0 ∷ b1 ∷ b2 ∷ b3 ∷ bs) (h0, (h1, (h2, (h3, hs)))) len =
    ap₂ ◌∷◌ (bytes_to_dword-le32 b0 b1 b2 b3 h0 h1 h2 h3)
      (load_block-words_le n bs hs (omega arith))
    ∙ ap (λ (k : ℕ). words_le (take k (b0 ∷ b1 ∷ b2 ∷ b3 ∷ bs))) {x = suc (suc (suc (suc (4 * n))))}
        (omega arith)
load_block-words_le (suc n) [] h len = absurd (omega arith)
load_block-words_le (suc n) (b0 ∷ []) h len = absurd (omega arith)
load_block-words_le (suc n) (b0 ∷ b1 ∷ []) h len = absurd (omega arith)
load_block-words_le (suc n) (b0 ∷ b1 ∷ b2 ∷ []) h len = absurd (omega arith)

-- An exclusive or into a byte that is zero stores the byte.
module _ (b0 b1 b2 b3 b : ℕ) (h0 : b0 < 256) (h1 : b1 < 256) (h2 : b2 < 256) (h3 : b3 < 256)
    (h : b < 256) where
  xor_byte0 : bit_xor (le32 0 b1 b2 b3) (shl b 0) ≡ le32 b b1 b2 b3
  xor_byte0 = omega (
    arith,
    bit_xor_fields_eq 8 (b1 + b2 * 2 ^ 8 + b3 * 2 ^ 16) 0 0 b (le32 0 b1 b2 b3) (shl b 0)
        (omega arith) h (omega arith) (omega arith),
    bit_xor-zero (b1 + b2 * 2 ^ 8 + b3 * 2 ^ 16),
    zero-bit_xor b,
  )

  xor_byte1 : bit_xor (le32 b0 0 b2 b3) (shl b 8) ≡ le32 b0 b b2 b3
  xor_byte1 = omega (
    arith,
    bit_xor_fields_eq 16 (b2 + b3 * 2 ^ 8) 0 b0 (b * 2 ^ 8) (le32 b0 0 b2 b3) (shl b 8)
        (omega arith) (omega arith) (omega arith) (omega arith),
    bit_xor-zero (b2 + b3 * 2 ^ 8),
    bit_xor_disjoint 8 b b0 h0,
  )

  xor_byte2 : bit_xor (le32 b0 b1 0 b3) (shl b 16) ≡ le32 b0 b1 b b3
  xor_byte2 = omega (
    arith,
    bit_xor_fields_eq 24 b3 0 (b0 + b1 * 2 ^ 8) (b * 2 ^ 16) (le32 b0 b1 0 b3) (shl b 16)
        (omega arith) (omega arith) (omega arith) (omega arith),
    bit_xor-zero b3,
    bit_xor_disjoint 16 b (b0 + b1 * 2 ^ 8) (omega arith),
  )

  xor_byte3 : bit_xor (le32 b0 b1 b2 0) (shl b 24) ≡ le32 b0 b1 b2 b
  xor_byte3 =
      ap₂ bit_xor {x = le32 b0 b1 b2 0} {y = b0 + b1 * 2 ^ 8 + b2 * 2 ^ 16} {u = shl b 24}
        {v = b * 2 ^ 24} (omega arith) (omega arith)
      ∙ bit_xor_disjoint 24 b (b0 + b1 * 2 ^ 8 + b2 * 2 ^ 16) (omega arith)
      ∙ omega arith

-- The array of words as bytes: a byte is put at index `i`, where a zero stood.
unfoldable pub xor_in : List ℕ → ℕ → ℕ → List ℕ
xor_in x i b = set x (i / 4) (bit_xor (get_or x (i / 4) 0) (shl b (8 * (i % 4))))

xor_in-words_le :
    (n : ℕ) (bs : List ℕ) (i b : ℕ)
    → length bs ≡ 4 * n
    → All IsByte bs
    → b < 256
    → i < 4 * n
    → get_or bs i 0 ≡ 0
    → xor_in (words_le bs) i b ≡ words_le (set bs i b)
unfolding xor_in
xor_in-words_le zero bs i b len h hb lt z = absurd (omega arith)
xor_in-words_le (suc n) (b0 ∷ b1 ∷ b2 ∷ b3 ∷ bs) zero b len (h0, (h1, (h2, (h3, hs)))) hb lt z =
    rw (z, xor_byte0 b0 b1 b2 b3 b h0 h1 h2 h3 hb)
xor_in-words_le (suc n) (b0 ∷ b1 ∷ b2 ∷ b3 ∷ bs) (suc zero) b len (h0, (h1, (h2, (h3, hs)))) hb lt
      z =
    rw (z, xor_byte1 b0 b1 b2 b3 b h0 h1 h2 h3 hb)
xor_in-words_le (suc n) (b0 ∷ b1 ∷ b2 ∷ b3 ∷ bs) (suc (suc zero)) b len (h0, (h1, (h2, (h3, hs))))
      hb lt z =
    rw (z, xor_byte2 b0 b1 b2 b3 b h0 h1 h2 h3 hb)
xor_in-words_le (suc n) (b0 ∷ b1 ∷ b2 ∷ b3 ∷ bs) (suc (suc (suc zero))) b len
      (h0, (h1, (h2, (h3, hs)))) hb lt z =
    rw (z, xor_byte3 b0 b1 b2 b3 b h0 h1 h2 h3 hb)
xor_in-words_le (suc n) (b0 ∷ b1 ∷ b2 ∷ b3 ∷ bs) (suc (suc (suc (suc i)))) b len
      (h0, (h1, (h2, (h3, hs)))) hb lt z =
    let q : suc (suc (suc (suc i))) / 4 ≡ suc (i / 4) = omega arith in
    let r : suc (suc (suc (suc i))) % 4 ≡ i % 4 = omega arith in
    rw (q, r, xor_in)
      (ap (λ t. le32 b0 b1 b2 b3 ∷ t)
        (xor_in-words_le n bs i b (omega arith) hs hb (omega arith) z))
xor_in-words_le (suc n) [] i b len h hb lt z = absurd (omega arith)
xor_in-words_le (suc n) (b0 ∷ []) i b len h hb lt z = absurd (omega arith)
xor_in-words_le (suc n) (b0 ∷ b1 ∷ []) i b len h hb lt z = absurd (omega arith)
xor_in-words_le (suc n) (b0 ∷ b1 ∷ b2 ∷ []) i b len h hb lt z = absurd (omega arith)

set-append_zero :
    (front : List ℕ) (k i b : ℕ)
    → length front ≡ i
    → (get_or (front ++ replicate (suc k) 0) i 0 ≡ 0)
      × (set (front ++ replicate (suc k) 0) i b ≡ (front ++ b ∷ []) ++ replicate k 0)
set-append_zero [] k zero b h = (refl, refl)
set-append_zero [] k (suc i) b h = absurd (omega arith)
set-append_zero (x ∷ front) k zero b h = absurd (omega arith)
set-append_zero (x ∷ front) k (suc i) b h =
    let r = set-append_zero front k i b (omega arith) in (r.0, ap (λ t. x ∷ t) r.1)

pub All-append : (xs ys : List ℕ) → All IsByte xs → All IsByte ys → All IsByte (xs ++ ys)
All-append [] ys h k = k
All-append (x ∷ xs) ys (h, hs) k = (h, All-append xs ys hs k)

pub All-zeros : (n : ℕ) → All IsByte (replicate n 0)
All-zeros zero = tt
All-zeros (suc n) = (omega arith, All-zeros n)

-- One more byte behind the bytes that are in place.
pub put_byte :
    (front : List ℕ) (k i b : ℕ)
    → length front ≡ i
    → i + suc k ≡ 64
    → All IsByte front
    → b < 256
    → xor_in (words_le (front ++ replicate (suc k) 0)) i b
      ≡ words_le ((front ++ b ∷ []) ++ replicate k 0)
put_byte front k i b len fits h hb =
    let r = set-append_zero front k i b len in
    xor_in-words_le 16 (front ++ replicate (suc k) 0) i b
      (omega (arith, length-append front (replicate (suc k) 0), length-replicate {A = ℕ} (suc k) 0))
      (All-append front (replicate (suc k) 0) h (All-zeros (suc k))) hb (omega arith) r.0
    ∙ ap words_le r.1

put_bytes-cons :
    (i b : ℕ) (bs x : List ℕ) → put_bytes i (b ∷ bs) x ≡ put_bytes (i + 1) bs (xor_in x i b)
unfolding put_bytes xor_in
put_bytes-cons i b bs x = rw bit_and_three

-- The loop of MDfinish leaves the bytes followed by zeros.
pub put_bytes-words_le :
    (bs front : List ℕ) (i k : ℕ)
    → length front ≡ i
    → i + length bs + k ≡ 64
    → All IsByte front
    → All IsByte bs
    → put_bytes i bs (words_le (front ++ replicate (length bs + k) 0))
      ≡ words_le ((front ++ bs) ++ replicate k 0)
unfolding put_bytes
put_bytes-words_le [] front i k len fits h hb =
    ap (λ (m : ℕ). words_le (front ++ replicate m 0)) {x = 0 + k} {y = k} (omega arith)
    ∙ ap (λ t. words_le (t ++ replicate k 0)) (sym (append-nil front))
put_bytes-words_le (b ∷ bs) front i k len fits h (hb, hbs) =
    put_bytes-cons i b bs _
    ∙ ap (put_bytes (i + 1) bs) (
        ap (λ (m : ℕ). xor_in (words_le (front ++ replicate m 0)) i b) {x = suc (length bs) + k}
          {y = suc (length bs + k)} (omega arith)
        ∙ put_byte front (length bs + k) i b len (omega arith) h hb)
    ∙ put_bytes-words_le bs (front ++ b ∷ []) (i + 1) k
        (omega (arith, length-append front (b ∷ []))) (omega arith)
        (All-append front (b ∷ []) h (hb, tt)) hbs
    ∙ ap (λ t. words_le (t ++ replicate k 0)) (append_assoc front (b ∷ []) bs)
