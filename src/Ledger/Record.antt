-- ===== src/Ledger/Record.antt =====
-- The layout of a transaction's record in BitcoinAnalysis/TransactionProcess.h: an output is read
-- back from where it was written.
use bitcoin_analysis.Common.{
  ℕ, ◌+◌, ◌*◌, ◌<◌, ◌^◌, ◌≡◌, refl, sym, ap, ◌∙◌, List, [], ◌∷◌, ◌++◌, append_assoc, some, arith,
  length, All, u32, length-append,
}
use bitcoin_analysis.Block.Reader.{read_bytes}
use bitcoin_analysis.Block.Reader.RoundTrip.{
  le_bytes, length-le_bytes, le_value-four, Reads, Reads-read_bytes,
}
use bitcoin_analysis.Ledger.{Paid, copy_output, read_preout, bytes_read}

abbrev pub paid : Paid → List ℕ
paid o = o.address ++ le_bytes 8 o.val

unfoldable pub paid_bytes : List Paid → List ℕ
paid_bytes [] = []
paid_bytes (o ∷ outs) = paid o ++ paid_bytes outs

pub paid_bytes-append : (xs ys : List Paid) → paid_bytes (xs ++ ys) ≡ paid_bytes xs ++ paid_bytes ys
unfolding paid_bytes
paid_bytes-append [] ys = refl
paid_bytes-append (x ∷ xs) ys =
    ap (λ t. paid x ++ t) (paid_bytes-append xs ys)
    ∙ sym (append_assoc (paid x) (paid_bytes xs) (paid_bytes ys))

-- An address has 20 bytes, as the struct's field has.
abbrev pub IsPaid : Paid → Type 0
IsPaid o = length o.address ≡ 20

length-paid : (o : Paid) → IsPaid o → length (paid o) ≡ 28
length-paid o h =
    omega (arith, h, length-append o.address (le_bytes 8 o.val), length-le_bytes 8 o.val)

pub length-paid_bytes :
    (outs : List Paid) → All IsPaid outs → length (paid_bytes outs) ≡ 28 * length outs
unfolding paid_bytes
length-paid_bytes [] h = omega arith
length-paid_bytes (o ∷ outs) h =
    omega (
      arith,
      length-append (paid o) (paid_bytes outs),
      length-paid o h.0,
      length-paid_bytes outs h.1,
    )

module _ (start preouts : List ℕ) (n c : ℕ) (before after : List Paid) (o : Paid)
    (size : length start ≡ 16) (in_size : length preouts ≡ 28 * n) (h : All IsPaid before)
    (k : IsPaid o) (fits : 28 * n < 2 ^ 32) (fits_out : 28 * length before < 2 ^ 32) where
  abbrev stored : List ℕ
  stored =
      (start ++ (le_bytes 4 n ++ preouts)) ++ (le_bytes 4 c ++ paid_bytes (before ++ o ∷ after))

  counted : read_bytes 4 stored 16 ≡ some (le_bytes 4 n, 16 + length (le_bytes 4 n))
  unfolding Reads
  counted =
      let tail : List ℕ = le_bytes 4 c ++ paid_bytes (before ++ o ∷ after) in
      ap (λ t. read_bytes 4 t 16)
        (append_assoc start (le_bytes 4 n ++ preouts) tail
          ∙ ap (λ t. start ++ t) (append_assoc (le_bytes 4 n) preouts tail))
      ∙ Reads-read_bytes 4 (le_bytes 4 n) (length-le_bytes 4 n) start (preouts ++ tail) 16 size

  abbrev front : List ℕ
  front = (start ++ (le_bytes 4 n ++ preouts)) ++ (le_bytes 4 c ++ paid_bytes before)

  split : stored ≡ front ++ (paid o ++ paid_bytes after)
  unfolding paid_bytes
  split =
      let head : List ℕ = start ++ (le_bytes 4 n ++ preouts) in
      ap (λ t. head ++ (le_bytes 4 c ++ t)) (paid_bytes-append before (o ∷ after))
      ∙ ap (λ t. head ++ t)
          (sym (append_assoc (le_bytes 4 c) (paid_bytes before) (paid o ++ paid_bytes after)))
      ∙ sym (append_assoc head (le_bytes 4 c ++ paid_bytes before) (paid o ++ paid_bytes after))

  -- The offset that the code computes is where the output stands.
  offset : length front ≡ 20 + u32 (n * 28) + 4 + u32 (length before * 28)
  offset = omega (
    arith,
    size,
    in_size,
    length-append (start ++ (le_bytes 4 n ++ preouts)) (le_bytes 4 c ++ paid_bytes before),
    length-append start (le_bytes 4 n ++ preouts),
    length-append (le_bytes 4 n) preouts,
    length-append (le_bytes 4 c) (paid_bytes before),
    length-le_bytes 4 n,
    length-le_bytes 4 c,
    length-paid_bytes before h,
  )

  found :
      read_bytes 28 stored (20 + u32 (n * 28) + 4 + u32 (length before * 28))
      ≡ some (paid o, 20 + u32 (n * 28) + 4 + u32 (length before * 28) + length (paid o))
  unfolding Reads
  found =
      ap (λ t. read_bytes 28 t (20 + u32 (n * 28) + 4 + u32 (length before * 28))) split
      ∙ Reads-read_bytes 28 (paid o) (length-paid o k) front (paid_bytes after)
          (20 + u32 (n * 28) + 4 + u32 (length before * 28)) offset

  pub read_preout-paid : bytes_read (read_preout (length before) stored) ≡ some (paid o)
  unfolding read_preout copy_output
  read_preout-paid =
      ap (λ r. bytes_read (copy_output (length before) stored r)) counted
      ∙ ap
          (λ (m : ℕ).
            bytes_read (read_bytes 28 stored (20 + u32 (m * 28) + 4 + u32 (length before * 28))))
          (le_value-four n (omega arith))
      ∙ ap bytes_read found
