-- ===== src/Hash/Sha256/View.antt =====
-- What a context stands for, and the parts of `sha256_update` behind its first: the loop over whole
-- blocks, and the bytes kept for the next call.
use bitcoin_analysis.Common.{
  ℕ, zero, suc, ◌+◌, ◌-◌, ◌*◌, ◌/◌, ◌^◌, ◌≤◌, ◌<◌, ◌≡◌, refl, ap, ap₂, ◌∙◌, List, [], ◌∷◌, ◌++◌,
  arith, lt→ltb, le→ltb, length, take, drop, copy_to, u64, length-drop, length-copy_to,
  take-copy_to, take_all, drop-drop,
}
use bitcoin_analysis.Hash.Blocks.{absorb}
use bitcoin_analysis.Hash.Sha256.{Words8, Ctx, sha256_guts, whole_blocks, keep_tail}

pub record View : Type 0 where
  pub total : ℕ
  pub hash : Words8
  pub pending : List ℕ

unfoldable pub view : Ctx → View
view sc = record {
  total = sc.total_length;
  hash = sc.hash;
  pending = take sc.buffer_length sc.buffer;
}

-- Append the bytes to the pending ones, and compress the blocks that are full.
unfoldable pub absorb_all : View → List ℕ → View
absorb_all v input =
    let s : List ℕ = v.pending ++ input in
    record {
      total = u64 (v.total + 8 * length input);
      hash = absorb sha256_guts (length s / 64) v.hash s;
      pending = drop (64 * (length s / 64)) s;
    }

pub record IsCtx (sc : Ctx) : Type 0 where
  pub partial_block : sc.buffer_length < 64
  pub block_buffer : length sc.buffer ≡ 64
  pub u64_total : sc.total_length < 2 ^ 64

abbrev done : Ctx → ℕ → Words8 → List ℕ → Ctx × List ℕ
done sc t hash rest = (record sc { total_length = t; hash = hash }, rest)

-- The loop over whole blocks takes as many blocks as there are.
pub whole_blocks_lem :
    (n fuel : ℕ) (sc : Ctx) (input : List ℕ)
    → 64 * n ≤ length input
    → length input < 64 * n + 64
    → n ≤ fuel
    → sc.total_length < 2 ^ 64
    → whole_blocks fuel sc input
      ≡ done sc
          (u64 (sc.total_length + 512 * n))
          (absorb sha256_guts n sc.hash input)
          (drop (64 * n) input)
unfolding whole_blocks absorb
whole_blocks_lem zero zero sc input lo hi h t =
    ap (λ x. done sc x sc.hash input) {x = sc.total_length} (omega arith)
whole_blocks_lem zero (suc fuel) sc input lo hi h t =
    rw (le→ltb 63 (length input) (omega arith), whole_blocks)
      (ap (λ x. done sc x sc.hash input) {x = sc.total_length} (omega arith))
whole_blocks_lem (suc n) zero sc input lo hi h t = absurd (omega arith)
whole_blocks_lem (suc n) (suc fuel) sc input lo hi h t =
    rw (lt→ltb 63 (length input) (omega arith), whole_blocks)
      (whole_blocks_lem n fuel
          (record sc {
            total_length = u64 (sc.total_length + 512);
            hash = sha256_guts sc.hash (take 64 input);
          })
          (drop 64 input) (omega (arith, length-drop 64 input))
          (omega (arith, length-drop 64 input)) (omega arith) (omega arith)
        ∙ ap₂
            (λ x r.
              done sc x (absorb sha256_guts n (sha256_guts sc.hash (take 64 input)) (drop 64 input))
                r)
            {x = u64 (u64 (sc.total_length + 512) + 512 * n)} (omega arith)
            (drop-drop 64 (64 * n) input
              ∙ ap (λ (k : ℕ). drop k input) {x = 64 + 64 * n} (omega arith)))

pub View_eq :
    (t t' : ℕ) (hash : Words8) (p p' : List ℕ)
    → t ≡ t'
    → p ≡ p'
    → let v : View = record { total = t; hash = hash; pending = p } in
      v ≡ record { total = t'; hash = hash; pending = p' }
View_eq t t' hash p p' et ep = λ i. record { total = et i; hash = hash; pending = ep i }

pub View_ext :
    (t t' : ℕ) (hash hash' : Words8) (p p' : List ℕ)
    → t ≡ t'
    → hash ≡ hash'
    → p ≡ p'
    → let v : View = record { total = t; hash = hash; pending = p } in
      v ≡ record { total = t'; hash = hash'; pending = p' }
View_ext t t' hash hash' p p' et eh ep = λ i. record { total = et i; hash = eh i; pending = ep i }

pub empty_front : (n : ℕ) (bs : List ℕ) → n ≡ 0 → take n bs ≡ []
empty_front n bs e = rw e

abbrev kept : Ctx → List ℕ → Ctx
kept sc input = record sc {
  total_length = u64 (sc.total_length + length input * 8);
  buffer_length = sc.buffer_length + length input;
  buffer = copy_to sc.buffer sc.buffer_length input (length input);
}

keep_tail_cons : (sc : Ctx) (x : ℕ) (xs : List ℕ) → keep_tail sc (x ∷ xs) ≡ kept sc (x ∷ xs)
unfolding keep_tail
keep_tail_cons sc x xs = ground arith

-- The bytes behind the whole blocks go into an empty buffer.
pub keep_tail_lem :
    (sc : Ctx) (input : List ℕ)
    → length input < 64
    → sc.buffer_length ≡ 0
    → length sc.buffer ≡ 64
    → sc.total_length < 2 ^ 64
    → (view (keep_tail sc input) ≡ record {
      total = u64 (sc.total_length + 8 * length input);
      hash = sc.hash;
      pending = input;
    })
      × IsCtx (keep_tail sc input)
unfolding view keep_tail
keep_tail_lem sc [] h e b t = (
  View_eq _ _ _ _ _ (omega arith) (empty_front _ _ e),
  record { partial_block = omega arith; block_buffer = b; u64_total = t },
)
keep_tail_lem sc (x ∷ xs) h e b t = rw (keep_tail_cons sc x xs) (
  View_eq _ _ _ _ _ (omega arith) (
      take-copy_to sc.buffer sc.buffer_length (x ∷ xs) (length (x ∷ xs)) (omega arith) (omega arith)
      ∙ ap₂ ◌++◌ (empty_front sc.buffer_length sc.buffer e)
          (take_all (length (x ∷ xs)) (x ∷ xs) (omega arith))),
  record {
    partial_block = omega arith;
    block_buffer =
        length-copy_to sc.buffer sc.buffer_length (x ∷ xs) (length (x ∷ xs)) (omega arith)
          (omega arith)
        ∙ b;
    u64_total = omega arith;
  },
)

-- With nothing pending.
pub update_empty :
    (sc : Ctx) (input : List ℕ)
    → sc.buffer_length ≡ 0
    → length sc.buffer ≡ 64
    → sc.total_length < 2 ^ 64
    → let r = whole_blocks (length input) sc input in
      (view (keep_tail r.0 r.1) ≡ record {
        total = u64 (sc.total_length + 8 * length input);
        hash = absorb sha256_guts (length input / 64) sc.hash input;
        pending = drop (64 * (length input / 64)) input;
      })
      × IsCtx (keep_tail r.0 r.1)
update_empty sc input e b t =
    let n : ℕ = length input / 64 in
    let rest : List ℕ = drop (64 * n) input in
    let sc' : Ctx = record sc {
      total_length = u64 (sc.total_length + 512 * n);
      hash = absorb sha256_guts n sc.hash input;
    } in
    let shorter : length rest ≡ length input - 64 * n = length-drop (64 * n) input in
    let kept = keep_tail_lem sc' rest (omega arith) e b (omega arith) in
    rw (whole_blocks_lem n (length input) sc input (omega arith) (omega arith) (omega arith) t)
      (kept.0 ∙ View_eq _ _ _ _ _ (omega arith) refl, kept.1)
