-- ===== src/Hash/Sha256/Stream.antt =====
-- `sha256_update` against a specification that knows no buffer: the context stands for the hash of
-- the whole blocks seen, the count of bits, and the bytes that do not fill a block yet.
use bitcoin_analysis.Common.{
  ℕ, suc, ◌+◌, ◌-◌, ◌*◌, ◌/◌, ◌≤◌, ◌<◌, ◌≡◌, refl, sym, ap, ap₂, ◌∙◌, List, [], ◌++◌, append-nil,
  inl, inr, arith, inl, inr, Bool-cases, ltb, ◌==◌, ==_iff, length, take, drop, copy_to, u64,
  length-append, length-take, length-drop, length-copy_to, take-copy_to, take-append_add,
  drop-append_add, take_all, drop_all, drop-drop,
}
use bitcoin_analysis.Hash.Blocks.{absorb}
use bitcoin_analysis.Hash.Sha256.{
  Ctx, sha256_guts, fill_buffer, whole_blocks, keep_tail, sha256_update,
}
use bitcoin_analysis.Hash.Sha256.View.{
  view, absorb_all, IsCtx, View_eq, View_ext, empty_front, update_empty,
}

-- What `fill_buffer` leaves when the data do not fill the buffer, and when they do.
abbrev part_filled : Ctx → List ℕ → ℕ → Ctx
part_filled sc input n = record sc {
  total_length = u64 (sc.total_length + n * 8);
  buffer_length = sc.buffer_length + n;
  buffer = copy_to sc.buffer sc.buffer_length input n;
}

abbrev filled : Ctx → List ℕ → ℕ → Ctx
filled sc input n = record sc {
  total_length = u64 (sc.total_length + n * 8);
  hash = sha256_guts sc.hash (copy_to sc.buffer sc.buffer_length input n);
  buffer_length = 0;
  buffer = copy_to sc.buffer sc.buffer_length input n;
}

fill_buffer_none :
    (sc : Ctx) (input : List ℕ) → sc.buffer_length ≡ 0 → fill_buffer sc input ≡ (sc, input)
unfolding fill_buffer
fill_buffer_none sc input e = rw ((==_iff sc.buffer_length 0).1 e, fill_buffer)

fill_buffer_part :
    (sc : Ctx) (input : List ℕ)
    → 0 < sc.buffer_length
    → sc.buffer_length + length input < 64
    → fill_buffer sc input ≡ (part_filled sc input (length input), drop (length input) input)
unfolding fill_buffer
fill_buffer_part sc input h lt = ground arith

fill_buffer_full :
    (sc : Ctx) (input : List ℕ)
    → 0 < sc.buffer_length
    → sc.buffer_length < 64
    → 64 ≤ sc.buffer_length + length input
    → fill_buffer sc input
      ≡ (filled sc input (64 - sc.buffer_length), drop (64 - sc.buffer_length) input)
unfolding fill_buffer
fill_buffer_full sc input h lt le = ground arith

-- Both halves of what the stream keeps, proved case by case.
abbrev Streams : Ctx → List ℕ → Type 0
Streams sc input =
    (view (sha256_update sc input) ≡ absorb_all (view sc) input) × IsCtx (sha256_update sc input)

update_none : (sc : Ctx) (input : List ℕ) → IsCtx sc → sc.buffer_length ≡ 0 → Streams sc input
unfolding sha256_update view absorb_all
update_none sc input v e =
    let r = update_empty sc input e v.block_buffer v.u64_total in
    let front : take sc.buffer_length sc.buffer ≡ [] = empty_front sc.buffer_length sc.buffer e in
    rw (fill_buffer_none sc input e, front) r

update_part :
    (sc : Ctx) (input : List ℕ)
    → IsCtx sc
    → 0 < sc.buffer_length
    → sc.buffer_length + length input < 64
    → Streams sc input
unfolding sha256_update whole_blocks keep_tail view absorb_all absorb
update_part sc input v h lt =
    let sc' : Ctx = part_filled sc input (length input) in
    let none_left : drop (length input) input ≡ [] = drop_all (length input) input (omega arith) in
    let total_bits : ℕ = length (take sc.buffer_length sc.buffer ++ input) in
    let count : total_bits ≡ sc.buffer_length + length input = omega (
      arith,
      length-append (take sc.buffer_length sc.buffer) input,
      length-take sc.buffer_length sc.buffer,
    ) in
    let no_block : total_bits / 64 ≡ 0 = omega arith in
    rw (fill_buffer_part sc input h lt, none_left, no_block)
      (
        View_eq _ _ _ _ _ (omega arith) (
            take-copy_to sc.buffer sc.buffer_length input (length input) (omega arith) (omega arith)
            ∙ ap (λ r. take sc.buffer_length sc.buffer ++ r)
                (take_all (length input) input (omega arith))),
        record {
          partial_block = omega arith;
          block_buffer =
              length-copy_to sc.buffer sc.buffer_length input (length input) (omega arith)
                (omega arith)
              ∙ v.block_buffer;
          u64_total = omega arith;
        },
      )

-- A block that is filled up from the pending bytes and the data.
module _ (p input : List ℕ) (m : ℕ) (fits : length p + m ≡ 64) (enough : m ≤ length input) where
  take-append_block : take 64 (p ++ input) ≡ p ++ take m input
  take-append_block = ap (λ (k : ℕ). take k (p ++ input)) (sym fits) ∙ take-append_add p input m

  drop-append_block : drop 64 (p ++ input) ≡ drop m input
  drop-append_block = ap (λ (k : ℕ). drop k (p ++ input)) (sym fits) ∙ drop-append_add p input m

update_full :
    (sc : Ctx) (input : List ℕ)
    → IsCtx sc
    → 0 < sc.buffer_length
    → 64 ≤ sc.buffer_length + length input
    → Streams sc input
unfolding sha256_update view absorb_all absorb
update_full sc input v h le =
    let p : List ℕ = take sc.buffer_length sc.buffer in
    let m : ℕ = 64 - sc.buffer_length in
    let rest : List ℕ = drop m input in
    let front : length p ≡ sc.buffer_length =
      omega (arith, length-take sc.buffer_length sc.buffer) in
    let fits : length p + m ≡ 64 = omega arith in
    let block : copy_to sc.buffer sc.buffer_length input m ≡ take 64 (p ++ input) =
      ap (λ r. p ++ (take m input ++ r)) (drop_all (sc.buffer_length + m) sc.buffer (omega arith))
      ∙ ap (λ r. p ++ r) (append-nil (take m input))
      ∙ sym (take-append_block p input m fits (omega arith)) in
    let left : drop 64 (p ++ input) ≡ rest = drop-append_block p input m fits (omega arith) in
    let count : length (p ++ input) / 64 ≡ suc (length rest / 64) =
      omega (arith, length-append p input, length-drop m input) in
    let r =
      update_empty (filled sc input m) rest refl
        (length-copy_to sc.buffer sc.buffer_length input m (omega arith) (omega arith)
          ∙ v.block_buffer)
        (omega arith) in
    let n : ℕ = length rest / 64 in
    let same_total : u64 (u64 (sc.total_length + m * 8) + 8 * length rest)
        ≡ u64 (sc.total_length + 8 * length input) =
      omega (arith, length-drop m input) in
    let same_hash : absorb sha256_guts n
          (sha256_guts sc.hash (copy_to sc.buffer sc.buffer_length input m)) rest
        ≡ absorb sha256_guts n (sha256_guts sc.hash (take 64 (p ++ input))) (drop 64 (p ++ input)) =
      ap₂ (λ b l. absorb sha256_guts n (sha256_guts sc.hash b) l) block (sym left) in
    let same_pending : drop (64 * n) rest ≡ drop (64 * suc n) (p ++ input) =
      ap (drop (64 * n)) (sym left)
      ∙ drop-drop 64 (64 * n) (p ++ input)
      ∙ ap (λ (k : ℕ). drop k (p ++ input)) {x = 64 + 64 * n} (omega arith) in
    rw (fill_buffer_full sc input h v.partial_block le, count)
      (r.0 ∙ View_ext _ _ _ _ _ _ same_total same_hash same_pending, r.1)

-- `sha256_update` keeps a context well formed and absorbs the bytes that it is given: the whole
-- blocks of the pending bytes and the data are compressed in order, the bits are counted modulo
-- 2^64, and the bytes that do not fill a block are pending.
pub view-sha256_update :
    (sc : Ctx) (input : List ℕ)
    → IsCtx sc
    → (view (sha256_update sc input) ≡ absorb_all (view sc) input) × IsCtx (sha256_update sc input)
view-sha256_update sc input v = elim (Bool-cases (sc.buffer_length == 0)) [
  | inl empty ↦ update_none sc input v ((==_iff _ 0).0 empty)
  | inr some_left ↦ elim (Bool-cases (ltb (sc.buffer_length + length input) 64)) [
    | inl part ↦ update_part sc input v (ground arith) (ground arith)
    | inr full ↦ update_full sc input v (ground arith) (ground arith)
  ]
]
