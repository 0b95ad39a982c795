-- ===== src/Base58/RoundTrip.antt =====
-- CBEncodeBase58 of BitcoinAnalysis/hash.h read back by CBDecodeBase58.
use bitcoin_analysis.Common.{
  ℕ, zero, suc, ◌+◌, ◌-◌, ◌*◌, ◌/◌, ◌^◌, ◌<◌, ◌≤◌, ◌≡◌, refl, sym, ap, ap₂, ◌∙◌, List, [], ◌∷◌,
  ◌++◌, false, ◌==◌, All, IsByte, some, u8, arith, inl, inr, length, ◌⊎◌, replicate, reverse,
  length-append, length-replicate, le→ltb, append-nil,
}
use mathlib.Core.Path.{subst}
use native.Mathlib.Nat.{pow-suc}
use mathlib.Core.List.{reverse-cons, reverse-append, reverse-reverse}
use bitcoin_analysis.Block.Reader.{le_value}
use bitcoin_analysis.Base58.{decode_step, decode_loop, leading_ones, decode_base58}
use bitcoin_analysis.Base58.Decode.{decode_loop-value, le_value-zeros, decode_base58-some}
use bitcoin_analysis.Base58.Encoder.{
  top_zeros, reversal_loop, Encoding, text, turn, encode_loop, cb_encode_base58,
}
use bitcoin_analysis.Base58.Trim.Decoded.{decode_loop-Trim, Trim-nil, Positive-Trim}
use bitcoin_analysis.Base58.Trim.{Trim, Positive, Trim-unique, Trim-positive}
use bitcoin_analysis.Base58.Encode.{Top, Digits, other-Digits, encode_loop-Digits}
use bitcoin_analysis.Base58.Reversal.{reversal_loop-reverse}

-- The ones at the end of what is read change nothing.
decode_loop-ones :
    (place : ℕ) (cs bi : List ℕ) (n : ℕ)
    → decode_loop place (cs ++ replicate n b'1') bi ≡ decode_loop place cs bi
unfolding decode_loop decode_step
decode_loop-ones place [] bi zero = refl
decode_loop-ones place [] bi (suc n) = decode_loop-ones (suc place) [] bi n
decode_loop-ones place (c ∷ cs) bi n = decode_loop-ones (suc place) cs (decode_step place c bi) n

Top-reverse :
    (ds : List ℕ)
    → Top ds
    → (c : ℕ) × (rest : List ℕ) × (reverse ds ≡ c ∷ rest) × ((c == 49) ≡ false)
unfolding Top
Top-reverse [] h = absurd h
Top-reverse (c ∷ []) h = (c, [], refl, h)
Top-reverse (c ∷ d ∷ ds) h =
    let (t, rest, e, k) = Top-reverse (d ∷ ds) h in
    (t, rest ++ (c ∷ []), reverse-cons c (d ∷ ds) ∙ ap (λ l. l ++ (c ∷ [])) e, k)

leading_ones-replicate :
    (n c : ℕ) (rest : List ℕ)
    → (c == 49) ≡ false
    → leading_ones (replicate n b'1' ++ (c ∷ rest)) ≡ n
unfolding leading_ones
leading_ones-replicate zero c rest h = rw h refl
leading_ones-replicate (suc n) c rest h = ap suc (leading_ones-replicate n c rest h)

replicate-snoc : (n c : ℕ) → replicate n c ++ (c ∷ []) ≡ c ∷ replicate n c
replicate-snoc zero c = refl
replicate-snoc (suc n) c = ap (λ l. c ∷ l) (replicate-snoc n c)

pub reverse-replicate : (n c : ℕ) → reverse (replicate n c) ≡ replicate n c
reverse-replicate zero c = refl
reverse-replicate (suc n) c =
    reverse-cons c (replicate n c)
    ∙ ap (λ l. l ++ (c ∷ [])) (reverse-replicate n c)
    ∙ replicate-snoc n c

top_zeros-replicate : (n : ℕ) → top_zeros (replicate n 0) ≡ n
unfolding top_zeros
top_zeros-replicate zero = refl
top_zeros-replicate (suc n) = ground (arith, top_zeros-replicate n, length-replicate {A = ℕ} n 0)

top_zeros-core : (core : List ℕ) (n : ℕ) → Positive core → top_zeros (core ++ replicate n 0) ≡ n
unfolding top_zeros Positive Trim
top_zeros-core [] n h = absurd (omega (arith, h.1))
top_zeros-core (d ∷ []) n h =
    ground (arith, top_zeros-replicate n, length-replicate {A = ℕ} n 0, h.0)
top_zeros-core (d ∷ e ∷ es) n h = ground (
  arith,
  top_zeros-core (e ∷ es) n (h.0, Trim-positive e es h.0),
  length-append es (replicate n 0),
  length-replicate {A = ℕ} n 0,
)

All-append : (core : List ℕ) → All IsByte core → (n : ℕ) → All IsByte (core ++ replicate n 0)
All-append [] h zero = tt
All-append [] h (suc n) = (omega arith, All-append [] h n)
All-append (c ∷ cs) h n = (h.0, All-append cs h.1 n)

below_power : (a : List ℕ) → All IsByte a → le_value a < 58 ^ (2 * length a)
below_power [] h = omega arith
below_power (d ∷ ds) h =
    let rest = below_power ds h.1 in
    let same : 58 ^ (2 * suc (length ds)) ≡ 58 ^ suc (suc (2 * length ds)) =
      ap (λ (n : ℕ). 58 ^ n) {x = 2 * suc (length ds)} (omega arith) in
    omega (arith, same, rest, h.0, pow-suc 58 (suc (2 * length ds)), pow-suc 58 (2 * length ds))

turn-text :
    (ones : ℕ) (digits : List ℕ)
    → turn ones (text digits) ≡ text (replicate ones b'1' ++ reverse digits)
unfolding turn
turn-text ones digits =
    let str : List ℕ = replicate ones b'1' ++ digits in
    ap text (
      ap (λ (n : ℕ). reversal_loop ((length str - n) / 2) 0 n (length str) str) {x = ones}
        {y = length (replicate {A = ℕ} ones b'1')} (sym (length-replicate ones b'1'))
      ∙ reversal_loop-reverse (replicate ones b'1') digits)

module _ (core : List ℕ) (n : ℕ) (h : All IsByte core) (p : Positive core) where
  -- Digits of the number, turned around behind as many ones, are read as the number.
  decode-digits :
      (e : Encoding) (most : ℕ) (d : Digits e (le_value core) most)
      → most + n ≤ 256
      → n < 256
      → decode_base58 [] (replicate n b'1' ++ reverse d.digits) ≡ some (core ++ replicate n 0)
  decode-digits e most d l small =
      let turned : reverse (replicate n b'1' ++ reverse d.digits) ≡ d.digits ++ replicate n b'1' =
        reverse-append (replicate n b'1') (reverse d.digits)
        ∙ ap₂ (λ (x : List ℕ) (y : List ℕ). x ++ y) (reverse-reverse d.digits)
            (reverse-replicate n b'1') in
      let (c, rest, f, k) = Top-reverse d.digits d.top in
      let read = decode_loop-Trim 0 d.digits [] d.bytes tt Trim-nil in
      let value = decode_loop-value 0 d.digits [] (omega (arith, d.short, l)) tt in
      let str : List ℕ = replicate n b'1' ++ reverse d.digits in
      let ones : leading_ones str ≡ n =
        ap (λ l. leading_ones (replicate n b'1' ++ l)) f ∙ leading_ones-replicate n c rest k in
      let size : length str ≡ n + suc (length rest) =
        ap (λ l. length (replicate n b'1' ++ l)) f
        ∙ omega
            (arith, length-append (replicate n b'1') (c ∷ rest), length-replicate {A = ℕ} n b'1') in
      decode_base58-some [] str (omega (arith, size)) (omega (arith, ones, small))
      ∙ ap₂ (λ (x : List ℕ) (y : ℕ). some (x ++ replicate (u8 y) 0))
          (ap (λ s. decode_loop 0 s []) turned
            ∙ decode_loop-ones 0 d.digits [] n
            ∙ Trim-unique (decode_loop 0 d.digits []) core read.1 h read.0 (Positive-Trim core p)
                (omega (arith, value, d.same_value)))
          ones
      ∙ ap (λ (k : ℕ). some (core ++ replicate k 0)) {x = u8 n} {y = n} (omega (arith, small))

  encodable :
      (58 ≤ le_value core) ⊎ (n ≡ 0)
      → Positive (core ++ replicate n 0) ⊎ (58 ≤ le_value (core ++ replicate n 0))
  encodable (inl big) = inr (omega (arith, big, le_value-zeros core n))
  encodable (inr none_on_top) = inl (
      subst Positive
        (sym (append-nil core)
          ∙ ap (λ (k : ℕ). core ++ replicate k 0) {x = 0} {y = n} (sym none_on_top))
        p)

  loop-Digits :
      (max : ℕ)
      → (58 ≤ le_value core) ⊎ (n ≡ 0)
      → 3 * (length core + n) + 4 ≤ max
      → Digits
          (encode_loop (suc (2 * length (core ++ replicate n 0))) max n (core ++ replicate n 0))
          (le_value core)
          (2 * (length core + n) + 1)
  loop-Digits max b m =
      let bi = core ++ replicate n 0 in
      let bytes = All-append core h n in
      let len : length bi ≡ length core + n =
        omega (arith, length-append core (replicate n 0), length-replicate {A = ℕ} n 0) in
      other-Digits refl (le_value-zeros core n) (
        subst (λ (k : ℕ). Digits (encode_loop (suc (2 * length bi)) max n bi) (le_value bi) k)
          {x = suc (2 * length bi)} (omega (arith, len))
          (encode_loop-Digits max n (2 * length bi) bi bytes (encodable b)
            (omega (arith, below_power bi bytes, pow-suc 58 (2 * length bi)))
            (omega (arith, len, m))))

  -- A number that is not 0, with `n` zeros on top, is encoded where the string has room, and what
  -- it is encoded to is decoded to the same bytes, the zeros on top included. A number with zeros
  -- on top has to be at least 58, and its length is at most 80.
  pub cb_encode_base58-decode_base58 :
      (max_str_len : ℕ)
      → (58 ≤ le_value core) ⊎ (n ≡ 0)
      → length core + n ≤ 80
      → 3 * (length core + n) + 4 ≤ max_str_len
      → (str : List ℕ) × (cb_encode_base58 (core ++ replicate n 0) max_str_len ≡ text str)
        × (decode_base58 [] str ≡ some (core ++ replicate n 0))
  unfolding cb_encode_base58
  cb_encode_base58-decode_base58 max b l m =
      let d = loop-Digits max b m in
      (
        replicate n b'1' ++ reverse d.digits,
        rw
            (
              le→ltb max (length (core ++ replicate n 0)) (
                  omega
                    (arith, m, length-append core (replicate n 0), length-replicate {A = ℕ} n 0)),
              top_zeros-core core n p,
              d.encoded,
            )
            (turn-text n d.digits),
        decode-digits _ _ d (omega (arith, l)) (omega (arith, l)),
      )
