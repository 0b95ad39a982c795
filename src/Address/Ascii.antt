-- ===== src/Address/Ascii.antt =====
-- An address of BitcoinAnalysis/hash.h as a string and read back.
use bitcoin_analysis.Common.{
  ℕ, ◌+◌, ◌<◌, ◌≤◌, ◌≡◌, refl, sym, ap, ◌∙◌, List, [], ◌∷◌, ◌++◌, true, false, ◌==◌, if◌then◌else◌,
  ◌⊎◌, some, All, IsByte, length, replicate, reverse, take, take_all, length-append,
  length-replicate, arith,
}
use mathlib.Core.Path.{subst}
use mathlib.Core.List.{reverse-append, reverse-reverse, reverse-cons}
use bitcoin_analysis.Block.Reader.{le_value}
use bitcoin_analysis.Base58.{decode_base58}
use bitcoin_analysis.Base58.Encoder.{text, encode_base58, cb_encode_base58}
use bitcoin_analysis.Base58.Trim.{Trim, Positive, Positive-cons}
use bitcoin_analysis.Base58.RoundTrip.{cb_encode_base58-decode_base58, reverse-replicate}
use bitcoin_analysis.Address.{
  decode_bytes, is_accepted, bitcoin_ascii_to_address, bitcoin_address_to_ascii,
}

length-reverse : (xs : List ℕ) → length (reverse xs) ≡ length xs
length-reverse [] = refl
length-reverse (x ∷ xs) =
    ap length (reverse-cons x xs)
    ∙ omega (arith, length-append (reverse xs) (x ∷ []), length-reverse xs)

All-join : (xs ys : List ℕ) → All IsByte xs → All IsByte ys → All IsByte (xs ++ ys)
All-join [] ys h k = k
All-join (x ∷ xs) ys h k = (h.0, All-join xs ys h.1 k)

All-reverse : (xs : List ℕ) → All IsByte xs → All IsByte (reverse xs)
All-reverse [] h = tt
All-reverse (x ∷ xs) h =
    subst (All IsByte) (sym (reverse-cons x xs))
      (All-join (reverse xs) (x ∷ []) (All-reverse xs h.1) (h.0, tt))

snoc-Positive : (xs : List ℕ) (c : ℕ) → 0 < c → Positive (xs ++ (c ∷ []))
unfolding Positive Trim
snoc-Positive [] c h = (h, omega (arith, h))
snoc-Positive (x ∷ xs) c h = Positive-cons x (xs ++ (c ∷ [])) (snoc-Positive xs c h)

-- The bytes that are read, where the decoded number is the address from its end.
decode_bytes-reverse :
    (str address : List ℕ)
    → decode_base58 [] str ≡ some (reverse address)
    → length address ≡ 25
    → decode_bytes str 25 true ≡ some address
unfolding decode_bytes
decode_bytes-reverse str address e l =
    rw (decode_bytes, e) (ap some (rw (length-reverse address, l) (reverse-reverse address)))

encode_base58-reverse :
    (address : List ℕ) (max : ℕ)
    → length address ≡ 25
    → encode_base58 address 25 true max ≡ cb_encode_base58 (reverse address) max
unfolding encode_base58
encode_base58-reverse address max l =
    ap (λ b. cb_encode_base58 (take 25 (reverse b)) max) (take_all 25 address (omega (arith, l)))
    ∙ ap (λ b. cb_encode_base58 b max)
        (take_all 25 (reverse address) (omega (arith, l, length-reverse address)))

module _ (garbage : List ℕ) (n c : ℕ) (rest : List ℕ) where
  -- The bytes from their end: the number without zeros on top, and the zeros.
  reverse-address : reverse (replicate n 0 ++ (c ∷ rest)) ≡ reverse (c ∷ rest) ++ replicate n 0
  reverse-address =
      reverse-append (replicate n 0) (c ∷ rest)
      ∙ ap (λ l. reverse (c ∷ rest) ++ l) (reverse-replicate n 0)

  -- An address of 25 bytes, with `n` zeros in front, becomes a string where there is room for 79
  -- characters, and that string is read as the same bytes, and accepted where they are. The number
  -- that the bytes stand for is at least 58 where there is a zero in front.
  pub bitcoin_address_to_ascii-bitcoin_ascii_to_address :
      (max_output_len : ℕ)
      → 0 < c
      → All IsByte (c ∷ rest)
      → n + length (c ∷ rest) ≡ 25
      → (58 ≤ le_value (reverse (c ∷ rest))) ⊎ (n ≡ 0)
      → 79 ≤ max_output_len
      → (str : List ℕ) × (bitcoin_address_to_ascii (replicate n 0 ++ (c ∷ rest)) max_output_len
          ≡ text str)
        × (bitcoin_ascii_to_address garbage str
            ≡ some (is_accepted garbage (replicate n 0 ++ (c ∷ rest)), replicate n 0 ++ (c ∷ rest)))
  unfolding bitcoin_address_to_ascii bitcoin_ascii_to_address
  bitcoin_address_to_ascii-bitcoin_ascii_to_address max p h l b m =
      let address = replicate n 0 ++ (c ∷ rest) in
      let core = reverse (c ∷ rest) in
      let len : length address ≡ 25 =
        omega (arith, l, length-append (replicate n 0) (c ∷ rest), length-replicate {A = ℕ} n 0) in
      let positive =
        subst Positive (sym (reverse-cons c rest)) (snoc-Positive (reverse rest) c p) in
      let (str, encoded, decoded) =
        cb_encode_base58-decode_base58 core n (All-reverse (c ∷ rest) h) positive max b
          (omega (arith, l, length-reverse (c ∷ rest)))
          (omega (arith, l, m, length-reverse (c ∷ rest))) in
      let read = decode_bytes-reverse str address (decoded ∙ ap some (sym reverse-address)) len in
      (
        str,
        encode_base58-reverse address max len
            ∙ ap (λ b. cb_encode_base58 b max) reverse-address
            ∙ encoded,
        rw (bitcoin_ascii_to_address, read)
            (ap (λ (k : ℕ). some (if k == 25 then is_accepted garbage address else false, address))
              len),
      )
