-- ===== src/Block/Script/Scan.antt =====
-- The scan of outAddress in BitcoinAnalysis/block.h for the pattern inside a script, and the
-- address's length on every branch.
use bitcoin_analysis.Common.{
  ℕ, zero, suc, ◌+◌, ◌-◌, ◌<◌, ◌≤◌, ◌≡◌, refl, sym, ap, ◌∙◌, List, [], ◌∷◌, Bool, true, false, ◌&&◌,
  ◌||◌, Option, none, some, leb, ltb, ◌==◌, length, take, drop, arith, and-leb, and-==, and_false,
  ltb-true, take_all, take-append_eq, if_elim, Bool-cases, length-take, length-drop, length-append,
  drop-drop, inl, inr,
}
use bitcoin_analysis.Hash.Ripemd160.{compute_ripemd160}
use bitcoin_analysis.Hash.Sha256.{compute_sha256}
use bitcoin_analysis.Hash.Ripemd160.Digest.{length-compute_ripemd160}
use bitcoin_analysis.Block.Script.Templates.{pay_to_key_hash}
use bitcoin_analysis.Block.Script.{
  at, pattern_here, scan_loop, scanned, op_dup, op_hash160, op_equalverify, op_checksig, op_1, op_2,
  op_3, op_return, op_nop2, op_drop, op_checkmultisig, bitcoin_public_key_to_address, key_address,
  out_address,
}

-- The address of the first window that holds the pattern, or none, where no window does.
pub First : ℕ → List ℕ → Option (List ℕ) → Type 0
First n script none = (i : ℕ) → i < n → pattern_here (drop i script) ≡ false
First n script (some address) =
    (i : ℕ) × (i < n)
    × (pattern_here (drop i script) ≡ true)
    × (address ≡ take 20 (drop (i + 3) script))
    × ((j : ℕ) → j < i → pattern_here (drop j script) ≡ false)

-- A window of the tail is the next window of the whole.
shift : (i : ℕ) (script : List ℕ) → drop i (drop 1 script) ≡ drop (suc i) script
shift i script =
    drop-drop 1 i script ∙ ap (λ (m : ℕ). drop m script) {x = 1 + i} {y = suc i} (omega arith)

no_window :
    (n : ℕ) (script : List ℕ)
    → pattern_here script ≡ false
    → ((i : ℕ) → i < n → pattern_here (drop i (drop 1 script)) ≡ false)
    → (i : ℕ) → i < suc n
    → pattern_here (drop i script) ≡ false
no_window n script h k zero l = h
no_window n script h k (suc i) l = ap pattern_here (sym (shift i script)) ∙ k i (omega arith)

First-suc :
    (n : ℕ) (script : List ℕ) (r : Option (List ℕ))
    → pattern_here script ≡ false
    → First n (drop 1 script) r
    → First (suc n) script r
unfolding First
First-suc n script none h k = no_window n script h k
First-suc n script (some address) h (i, l, found, taken, before) = (
  suc i,
  omega arith,
  ap pattern_here (sym (shift i script)) ∙ found,
  taken
      ∙ ap (take 20) (
          drop-drop 1 (i + 3) script
          ∙ ap (λ (m : ℕ). drop m script) {x = 1 + (i + 3)} {y = suc i + 3} (omega arith)),
  no_window i script h before,
)

-- The scan over `n` windows finds the first of them that holds the pattern, and nothing exactly
-- where none of them does.
pub scan_loop-First : (n : ℕ) (script : List ℕ) → First n script (scan_loop n script)
unfolding scan_loop First
scan_loop-First zero script = λ i l. absurd (omega arith)
scan_loop-First (suc n) script = elim (Bool-cases (pattern_here script)) [
  | inl found ↦ rw found (0, omega arith, found, refl, λ j l. absurd (omega arith))
  | inr missing ↦ rw missing (First-suc n script _ missing (scan_loop-First n (drop 1 script)))
]

-- A result whose address has 20 bytes.
record Gives20 (r : Bool × List ℕ) : Type 0 where
  twenty : length r.1 ≡ 20

gives : (b : Bool) (address : List ℕ) → length address ≡ 20 → Gives20 (b, address)
gives b address h = record { twenty = h }

module _ (garbage : List ℕ) where
  length-key_address : (key : List ℕ) → length (key_address garbage key) ≡ 20
  unfolding key_address bitcoin_public_key_to_address
  length-key_address key =
      if_elim (λ (r : Bool × List ℕ). length (take 20 (drop 1 r.1)) ≡ 20) (at key 0 == 4) _ _
        (λ _.
          ap length (
            take-append_eq (compute_ripemd160 (compute_sha256 garbage (take 65 key))) _ 20
              (length-compute_ripemd160 (compute_sha256 garbage (take 65 key))))
          ∙ length-compute_ripemd160 (compute_sha256 garbage (take 65 key)))
        (λ _. refl)

  cut : (k : ℕ) (script : List ℕ) → k + 20 ≤ length script → length (take 20 (drop k script)) ≡ 20
  cut k script h = omega (arith, length-take 20 (drop k script), length-drop k script)

  length-scanned :
      (n : ℕ) (script hash : List ℕ) (r : Option (List ℕ))
      → length hash ≡ 20
      → n + 25 ≤ length script
      → First n script r
      → length (scanned hash r).1 ≡ 20
  unfolding First
  length-scanned n script hash none e h f = e
  length-scanned n script hash (some address) e h f =
      ap length f.3 ∙ cut (f.0 + 3) script (omega (arith, f.1))

  out_address-Gives20 :
      (script : List ℕ) (n : ℕ) → length script ≡ n → Gives20 (out_address garbage script n)
  unfolding out_address
  out_address-Gives20 script n h =
      if_elim Gives20 (n == 67 && (at script 0 == 65 && at script 66 == op_checksig)) _ _
        (λ _. gives _ _ (length-key_address _))
        λ _.
          if_elim Gives20 (n == 66 && at script 65 == op_checksig) _ _
            (λ _. gives _ _ (length-key_address _))
            λ _.
              if_elim Gives20
                (leb 25 n
                  && (at script 0 == op_dup && (at script 1 == op_hash160 && at script 2 == 20)))
                _ _ (λ e. gives _ _ (cut 3 script (omega (arith, and-leb 25 n _ e))))
                λ _.
                  if_elim Gives20 (n == 23 && (at script 0 == op_hash160 && at script 1 == 20)) _ _
                    (λ e. gives _ _ (cut 2 script (omega (arith, and-== n 23 _ e))))
                    λ _.
                      if_elim Gives20
                        (n == 23
                          && (at script 0 == 20
                              && (at script 21 == op_nop2 && at script 22 == op_drop)))
                        _ _ (λ e. gives _ _ (cut 1 script (omega (arith, and-== n 23 _ e))))
                        λ _.
                          if_elim Gives20
                            (n == 35 && (at script 0 == 33 && at script 34 == op_checksig)) _ _
                            (λ _. gives _ _ (length-compute_ripemd160 _))
                            λ _.
                              if_elim Gives20 (n == 33 && at script 0 == 32) _ _
                                (λ _. gives _ _ (length-compute_ripemd160 _))
                                λ _.
                                  if_elim Gives20 (n == 37 && at script 0 == 36) _ _
                                    (λ _. gives _ _ (length-compute_ripemd160 _))
                                    λ _.
                                      if_elim Gives20
                                        (n == 22 && (at script 0 == op_return && at script 1 == 20))
                                        _ _
                                        (λ e.
                                          gives _ _ (cut 2 script (omega (arith, and-== n 22 _ e))))
                                        λ _.
                                          if_elim Gives20
                                            (ltb 35 n
                                              && ((at script 0 == op_1
                                                    || (at script 0 == op_2 || at script 0 == op_3))
                                                  && at script (n - 1) == op_checkmultisig))
                                            _ _ (λ _. gives _ _ (length-compute_ripemd160 _))
                                            λ _.
                                              if_elim Gives20 (ltb n 20) _ _ (λ _. gives _ _ refl)
                                                λ _.
                                                  if_elim
                                                    (λ r. Gives20 (
                                                      scanned (compute_ripemd160 (take n script))
                                                        r))
                                                    (ltb 25 n) _ _
                                                    (λ e. record {
                                                      twenty =
                                                          length-scanned (n - 25) script _ _
                                                            (length-compute_ripemd160 _)
                                                            (omega (arith, ltb-true 25 n e))
                                                            (scan_loop-First (n - 25) script);
                                                    })
                                                    (λ _. gives _ _ (length-compute_ripemd160 _))

  -- Every script gives an address of 20 bytes, whichever branch is taken.
  pub length-out_address :
      (script : List ℕ) (n : ℕ) → length script ≡ n → length (out_address garbage script n).1 ≡ 20
  unfolding out_address
  length-out_address script n h = (out_address-Gives20 script n h).twenty

  -- One byte in front of a script that pays to a key's hash, and its 26 bytes are not decoded: the
  -- scan stops short of the last window, where the pattern stands, and the address is the hash of
  -- the script.
  pub out_address-last_window :
      (b : ℕ) (hash : List ℕ)
      → length hash ≡ 20
      → out_address garbage (b ∷ pay_to_key_hash hash) 26
        ≡ (false, compute_ripemd160 (b ∷ pay_to_key_hash hash))
  unfolding out_address scan_loop pattern_here pay_to_key_hash
  out_address-last_window b hash h = rw (and_false (b == 0x76)) (
      ap (λ s. (false, compute_ripemd160 s))
        (take_all 26 (b ∷ pay_to_key_hash hash)
          (omega (arith, length-append hash (op_equalverify ∷ op_checksig ∷ [])))))
