-- ===== src/Hash/Ripemd160/Finish.antt =====
-- MDfinish in terms of the bytes that its words hold: what it compresses is the rest of the message,
-- a bit, zeros and the length.
use bitcoin_analysis.Common.{
  ℕ, zero, suc, ◌+◌, ◌-◌, ◌*◌, ◌/◌, ◌%◌, ◌^◌, ◌≤◌, ◌<◌, ◌≡◌, refl, sym, ap, ap₂, ◌∙◌, List, [], ◌∷◌,
  ◌++◌, append_assoc, arith, true, false, ltb, lt→ltb, le→ltb, All, IsByte, le32, bit_and, bit_or,
  shl, shr, length, set, take, replicate, words_le, bytes_le64, length-append, length-replicate,
  take_all, replicate-add,
}
use bitcoin_analysis.Common.Bits.{bit_and_three, bit_and_fifteen, bit_and_sixty_three, bit_or-zero}
use native.Mathlib.Numerals.{towards_suc}
use bitcoin_analysis.Hash.Ripemd160.{Words5, compress, put_bytes, put_bit, put_length, md_finish}
use bitcoin_analysis.Hash.Ripemd160.Pack.{put_bytes-words_le, put_byte, xor_in}

shift_seven : (s : ℕ) → 2 ^ (s + 7) ≡ 128 * 2 ^ s
shift_seven s = simp towards_suc (omega arith)

put_bit-xor_in : (n r : ℕ) (x : List ℕ) → r ≡ n % 64 → put_bit n x ≡ xor_in x r 128
unfolding put_bit xor_in
put_bit-xor_in n r x e =
    let i : bit_and (shr n 2) 15 ≡ r / 4 = omega (arith, bit_and_fifteen (n / 4)) in
    let s : bit_and n 3 ≡ r % 4 = omega (arith, bit_and_three n) in
    let v : shl 1 (8 * (r % 4) + 7) ≡ shl 128 (8 * (r % 4)) =
      omega (arith, shift_seven (8 * (r % 4))) in
    rw (i, s, v)

-- X before the length is added.
bytes_in_place :
    (n : ℕ) (rest : List ℕ)
    → length rest ≡ n % 64
    → All IsByte rest
    → put_bit n (put_bytes 0 (take (bit_and n 63) rest) (replicate 16 0))
      ≡ words_le ((rest ++ 0x80 ∷ []) ++ replicate (63 - length rest) 0)
bytes_in_place n rest len h =
    let r : ℕ = length rest in
    let all : take (bit_and n 63) rest ≡ rest =
      take_all (bit_and n 63) rest (omega (arith, bit_and_sixty_three n)) in
    let x : put_bytes 0 rest (replicate 16 0) ≡ words_le (rest ++ replicate (suc (63 - r)) 0) =
      ap (λ (m : ℕ). put_bytes 0 rest (words_le (replicate m 0))) {x = 64} {y = r + suc (63 - r)}
        (omega arith)
      ∙ put_bytes-words_le rest [] 0 (suc (63 - r)) refl (omega arith) tt h in
    ap (λ t. put_bit n (put_bytes 0 t (replicate 16 0))) all
    ∙ ap (put_bit n) x
    ∙ put_bit-xor_in n r _ len
    ∙ put_byte rest (63 - r) r 128 refl (omega arith) h (omega arith)

words_le-append :
    (m : ℕ) (xs ys : List ℕ) → length xs ≡ 4 * m → words_le (xs ++ ys) ≡ words_le xs ++ words_le ys
words_le-append zero [] ys h = refl
words_le-append zero (x ∷ xs) ys h = absurd (omega arith)
words_le-append (suc m) (b0 ∷ b1 ∷ b2 ∷ b3 ∷ xs) ys h =
    ap (λ t. le32 b0 b1 b2 b3 ∷ t) (words_le-append m xs ys (omega arith))
words_le-append (suc m) [] ys h = absurd (omega arith)
words_le-append (suc m) (b0 ∷ []) ys h = absurd (omega arith)
words_le-append (suc m) (b0 ∷ b1 ∷ []) ys h = absurd (omega arith)
words_le-append (suc m) (b0 ∷ b1 ∷ b2 ∷ []) ys h = absurd (omega arith)

length-words_le : (m : ℕ) (xs : List ℕ) → length xs ≡ 4 * m → length (words_le xs) ≡ m
length-words_le zero [] h = refl
length-words_le zero (x ∷ xs) h = absurd (omega arith)
length-words_le (suc m) (b0 ∷ b1 ∷ b2 ∷ b3 ∷ xs) h = ap suc (length-words_le m xs (omega arith))
length-words_le (suc m) [] h = absurd (omega arith)
length-words_le (suc m) (b0 ∷ []) h = absurd (omega arith)
length-words_le (suc m) (b0 ∷ b1 ∷ []) h = absurd (omega arith)
length-words_le (suc m) (b0 ∷ b1 ∷ b2 ∷ []) h = absurd (omega arith)

set-append_end :
    (xs ys : List ℕ) (y v i : ℕ) → length xs ≡ i → set (xs ++ y ∷ ys) i v ≡ xs ++ v ∷ ys
set-append_end [] ys y v zero h = refl
set-append_end [] ys y v (suc i) h = absurd (omega arith)
set-append_end (x ∷ xs) ys y v zero h = absurd (omega arith)
set-append_end (x ∷ xs) ys y v (suc i) h =
    ap (λ t. x ∷ t) (set-append_end xs ys y v i (omega arith))

set-append_next :
    (xs : List ℕ) (y y' v i : ℕ)
    → length xs + 1 ≡ i
    → set (xs ++ y ∷ y' ∷ []) i v ≡ xs ++ y ∷ v ∷ []
set-append_next [] y y' v zero h = absurd (omega arith)
set-append_next [] y y' v (suc zero) h = refl
set-append_next [] y y' v (suc (suc i)) h = absurd (omega arith)
set-append_next (x ∷ xs) y y' v zero h = absurd (omega arith)
set-append_next (x ∷ xs) y y' v (suc i) h =
    ap (λ t. x ∷ t) (set-append_next xs y y' v i (omega arith))

-- The two words of the length take the place of eight zero bytes.
put_length-words_le :
    (n : ℕ) (bs : List ℕ)
    → n < 2 ^ 32
    → length bs ≡ 56
    → put_length n 0 (words_le (bs ++ replicate 8 0)) ≡ words_le (bs ++ bytes_le64 (8 * n))
unfolding put_length
put_length-words_le n bs short len =
    let high : bit_or (shr n 29) (shl 0 3) ≡ 8 * n / 2 ^ 32 =
      omega (arith, bit_or-zero (shr n 29)) in
    let sixteen : length (words_le bs) ≡ 14 = length-words_le 14 bs len in
    ap (λ x. set (set x 14 (shl n 3)) 15 (bit_or (shr n 29) (shl 0 3)))
      (words_le-append 14 bs (replicate 8 0) len)
    ∙ ap (λ x. set x 15 (bit_or (shr n 29) (shl 0 3)))
        (set-append_end (words_le bs) (0 ∷ []) 0 (shl n 3) 14 sixteen)
    ∙ set-append_next (words_le bs) (shl n 3) 0 (bit_or (shr n 29) (shl 0 3)) 15 (omega arith)
    ∙ ap₂ (λ (l h : ℕ). words_le bs ++ l ∷ h ∷ []) {x = shl n 3}
        {y = le32 (8 * n % 2 ^ 8) (8 * n / 2 ^ 8 % 2 ^ 8) (8 * n / 2 ^ 16 % 2 ^ 8)
          (8 * n / 2 ^ 24 % 2 ^ 8)}
        (omega arith) (high ∙ omega arith)
    ∙ sym (words_le-append 14 bs (bytes_le64 (8 * n)) len)

module _ (w : Words5) (n : ℕ) (rest : List ℕ) (short : n < 2 ^ 32) (len : length rest ≡ n % 64)
    (h : All IsByte rest) where
  -- The length fits behind the bytes.
  pub md_finish_one :
      length rest < 56
      → md_finish w rest n 0
        ≡ compress w (
            words_le
              (((rest ++ 0x80 ∷ []) ++ replicate (55 - length rest) 0) ++ bytes_le64 (8 * n)))
  unfolding md_finish
  md_finish_one lt =
      let small : ltb 55 (bit_and n 63) ≡ false =
        le→ltb 55 (bit_and n 63) (omega (arith, bit_and_sixty_three n)) in
      let front : List ℕ = (rest ++ 0x80 ∷ []) ++ replicate (55 - length rest) 0 in
      let size : length front ≡ 56 = omega (
        arith,
        length-append (rest ++ 0x80 ∷ []) (replicate (55 - length rest) 0),
        length-append rest (0x80 ∷ []),
        length-replicate {A = ℕ} (55 - length rest) 0,
      ) in
      let cut : replicate {A = ℕ} (63 - length rest) 0
          ≡ replicate (55 - length rest) 0 ++ replicate 8 0 =
        ap (λ (k : ℕ). replicate {A = ℕ} k 0) {x = 63 - length rest} (omega arith)
        ∙ replicate-add (55 - length rest) 8 0 in
      rw (small, md_finish)
        (ap (λ x. compress w (put_length n 0 x))
            (bytes_in_place n rest len h
              ∙ ap (λ t. words_le ((rest ++ 0x80 ∷ []) ++ t)) cut
              ∙ ap words_le (
                  sym (
                    append_assoc (rest ++ 0x80 ∷ []) (replicate (55 - length rest) 0)
                      (replicate 8 0))))
          ∙ ap (compress w) (put_length-words_le n front short size))

  -- It needs a block of its own.
  pub md_finish_two :
      56 ≤ length rest
      → md_finish w rest n 0
        ≡ compress
            (compress w (words_le ((rest ++ 0x80 ∷ []) ++ replicate (63 - length rest) 0)))
            (words_le (replicate 56 0 ++ bytes_le64 (8 * n)))
  unfolding md_finish
  md_finish_two ge =
      let large : ltb 55 (bit_and n 63) ≡ true =
        lt→ltb 55 (bit_and n 63) (omega (arith, bit_and_sixty_three n)) in
      rw (large, md_finish)
        (ap₂ (λ x y. compress (compress w x) y) (bytes_in_place n rest len h)
          (put_length-words_le n (replicate 56 0) short refl))
