-- ===== src/Unzip/Whole.antt =====
-- The loop of BitcoinAnalysis/unzipBlocks.h over a whole file of blocks.
use bitcoin_analysis.Common.{
  ap₂, ◌-◌, ℕ, zero, suc, ◌+◌, ◌-◌, ◌<◌, ◌^◌, ◌≡◌, refl, sym, ap, ◌∙◌, List, [], ◌∷◌, ◌++◌,
  append_assoc, append-nil, Option, none, some, ltb, length, All, arith, length-append, le→ltb,
}
use mathlib.Core.Path.{subst}
use bitcoin_analysis.Database.{Database}
use bitcoin_analysis.Ledger.{KeyValue}
use bitcoin_analysis.Unzip.Placed.{block_step-block_bytes}
use bitcoin_analysis.Unzip.Wire.{
  WireBlock, IsWireBlock, file_bytes, process_blocks, file_outcome, block_bytes, process_block,
  went_on,
}
use bitcoin_analysis.Unzip.{
  failed, block_loop, Outcome, end_of_file, ends, goes, Step, is_good, next_pos, block_at,
  read_block, step_of, block_step, Head, head_of, Run,
}

module _ (garbage : List ℕ) (kv : KeyValue) (db : Database) (stop : ℕ) where
  abbrev pub loop_on : ℕ → List ℕ → Step garbage kv db → Outcome garbage kv db
  loop_on fuel file s = elim s [
    | ends o ↦ o
    | goes q next ↦ block_loop garbage kv db fuel file stop q next
  ]

  at_end :
      (file : List ℕ) (pos fuel : ℕ) (r : Run garbage kv db)
      → length file ≡ pos
      → 0 < fuel
      → block_loop garbage kv db fuel file stop pos r ≡ end_of_file pos r
  unfolding block_loop block_step step_of
  at_end file pos zero r e h = absurd (omega arith)
  at_end file pos (suc fuel) r e h =
      let head : Head = head_of (block_at file pos) in
      ap
        (λ b. loop_on fuel file (
          step_of garbage kv db b (ltb stop head.time_stamp)
            (read_block garbage kv db file pos head r) (is_good file pos head) (next_pos pos head)
            pos r))
        (le→ltb pos (length file) (omega (arith, e)))

  -- What follows the blocks, where they could be processed.
  abbrev pub go_on : ℕ → List ℕ → ℕ → Option (Run garbage kv db) → Outcome garbage kv db
  go_on fuel file q o = elim o [
    | none ↦ failed
    | some next ↦ block_loop garbage kv db fuel file stop q next
  ]

  -- A file's first block, and what is behind it.
  block_first :
      (b : WireBlock) (bs : List WireBlock) (front tail : List ℕ)
      → front ++ (file_bytes (b ∷ bs) ++ tail)
        ≡ front ++ (b.start ++ (block_bytes b.txs ++ (file_bytes bs ++ tail)))
  unfolding file_bytes
  block_first b bs front tail =
      ap (λ l. front ++ l)
        (append_assoc b.start (block_bytes b.txs ++ file_bytes bs) tail
          ∙ ap (λ l. b.start ++ l) (append_assoc (block_bytes b.txs) (file_bytes bs) tail))

  -- Where a block ends, its successor begins.
  block_behind :
      (b : WireBlock) (front rest : List ℕ)
      → front ++ (b.start ++ (block_bytes b.txs ++ rest))
        ≡ (front ++ (b.start ++ block_bytes b.txs)) ++ rest
  block_behind b front rest =
      ap (λ l. front ++ l) (sym (append_assoc b.start (block_bytes b.txs) rest))
      ∙ sym (append_assoc front (b.start ++ block_bytes b.txs) rest)

  length-behind :
      (b : WireBlock) (bs : List WireBlock) (front : List ℕ)
      → length ((front ++ (b.start ++ block_bytes b.txs)) ++ file_bytes bs)
        ≡ length (front ++ file_bytes (b ∷ bs))
  unfolding file_bytes
  length-behind b bs front = ap length (
      append_assoc front (b.start ++ block_bytes b.txs) (file_bytes bs)
      ∙ ap (λ l. front ++ l) (append_assoc b.start (block_bytes b.txs) (file_bytes bs)))

  length-block :
      (b : WireBlock) (front : List ℕ)
      → IsWireBlock stop b
      → length (front ++ (b.start ++ block_bytes b.txs))
        ≡ length front + (head_of b.start).block_size + 8
  length-block b front h = omega (
    arith,
    h.start_size,
    h.block_size,
    length-append front (b.start ++ block_bytes b.txs),
    length-append b.start (block_bytes b.txs),
  )

  after_block :
      (bs : List WireBlock) (fuel n : ℕ) (file : List ℕ) (q end : ℕ)
      (o : Option (Run garbage kv db))
      → ((next : Run garbage kv db)
          → block_loop garbage kv db n file stop q next
            ≡ go_on fuel file end (process_blocks garbage kv db bs next))
      → loop_on n file (went_on garbage kv db q o)
        ≡ go_on fuel file end
            (elim o [ none ↦ none | some next ↦ process_blocks garbage kv db bs next ])
  after_block bs fuel n file q end none ih = refl
  after_block bs fuel n file q end (some next) ih = ih next

  -- The loop over blocks that stand one behind the other, with whatever follows them.
  pub block_loop-blocks :
      (bs : List WireBlock) (front tail : List ℕ) (pos fuel : ℕ) (r : Run garbage kv db)
      → All (IsWireBlock stop) bs
      → length front ≡ pos
      → length (front ++ (file_bytes bs ++ tail)) < 2 ^ 31
      → block_loop garbage kv db (length bs + fuel) (front ++ (file_bytes bs ++ tail)) stop pos r
        ≡ go_on fuel
            (front ++ (file_bytes bs ++ tail))
            (length (front ++ file_bytes bs))
            (process_blocks garbage kv db bs r)
  unfolding block_loop file_bytes process_blocks
  block_loop-blocks [] front tail pos fuel r all e small =
      ap (λ (n : ℕ). block_loop garbage kv db n (front ++ tail) stop pos r) {x = 0 + fuel}
        {y = fuel} (omega arith)
      ∙ ap (λ p. block_loop garbage kv db fuel (front ++ tail) stop p r)
          (sym e ∙ ap length (sym (append-nil front)))
  block_loop-blocks (b ∷ bs) front tail pos fuel r all e small =
      let n : ℕ = length bs + fuel in
      let rest = file_bytes bs ++ tail in
      let first = block_first b bs front tail in
      let file : List ℕ = front ++ (b.start ++ (block_bytes b.txs ++ rest)) in
      let behind = block_behind b front rest in
      let end : ℕ = length (front ++ file_bytes (b ∷ bs)) in
      let q : ℕ = length front + (head_of b.start).block_size + 8 in
      let short : length file < 2 ^ 31 = subst (λ l. length l < 2 ^ 31) first small in
      ap (λ (m : ℕ). block_loop garbage kv db m (front ++ (file_bytes (b ∷ bs) ++ tail)) stop pos r)
        {x = suc (length bs) + fuel} {y = suc n} (omega arith)
      ∙ ap₂ (λ l p. block_loop garbage kv db (suc n) l stop p r) first (sym e)
      ∙ ap (loop_on n file) (
          block_step-block_bytes garbage kv db front b.start b.txs r all.0.start_size all.0.few
            all.0.all_fit rest stop all.0.block_size short all.0.in_time)
      ∙ after_block bs fuel n file q end (process_block garbage kv db b r) (λ next.
        ap (λ l. block_loop garbage kv db n l stop q next) behind
        ∙ block_loop-blocks bs (front ++ (b.start ++ block_bytes b.txs)) tail q fuel next all.1
            (length-block b front all.0) (subst (λ l. length l < 2 ^ 31) behind short)
        ∙ ap₂ (λ l m. go_on fuel l m (process_blocks garbage kv db bs next)) (sym behind)
            (length-behind b bs front))
      ∙ ap (λ l. go_on fuel l end (process_blocks garbage kv db (b ∷ bs) r)) (sym first)

  with_end :
      (file : List ℕ) (pos fuel : ℕ) (o : Option (Run garbage kv db))
      → length file ≡ pos
      → go_on (suc fuel) file pos o ≡ file_outcome garbage kv db pos o
  with_end file pos fuel none e = refl
  with_end file pos fuel (some next) e = at_end file pos (suc fuel) next e (omega arith)

  -- One round more than blocks, and the rounds that are left.
  pub rounds : (n fuel : ℕ) → n < fuel → (m : ℕ) × (fuel ≡ n + suc m)
  rounds n fuel h = (fuel - suc n, omega (arith, h))

  -- On a file of less than 2^31 bytes that holds one block behind the other from the position on,
  -- none of them behind the stop time, each with its size and with fewer than 2^16 transactions that fit the C++ structs,
  -- the loop, with more rounds than blocks, ends as `process_blocks` does on the list of blocks: it
  -- comes to the end of the file with each transaction, the two aside whose numbers are left out,
  -- processed under the hash and the length of its own bytes and the next number, and a block's row
  -- behind its transactions, or it fails where a transaction cannot be processed.
  pub block_loop-file_bytes :
      (bs : List WireBlock) (front : List ℕ) (pos fuel : ℕ) (r : Run garbage kv db)
      → All (IsWireBlock stop) bs
      → length front ≡ pos
      → length bs < fuel
      → length (front ++ file_bytes bs) < 2 ^ 31
      → block_loop garbage kv db fuel (front ++ file_bytes bs) stop pos r
        ≡ file_outcome garbage kv db
            (length (front ++ file_bytes bs))
            (process_blocks garbage kv db bs r)
  block_loop-file_bytes bs front pos fuel r all e h small =
      let (m, count) = rounds (length bs) fuel h in
      let file : List ℕ = front ++ file_bytes bs in
      let same = ap (λ l. front ++ l) (append-nil (file_bytes bs)) in
      ap₂ (λ (n : ℕ) l. block_loop garbage kv db n l stop pos r) count (sym same)
      ∙ block_loop-blocks bs front [] pos (suc m) r all e
          (subst (λ l. length l < 2 ^ 31) (sym same) small)
      ∙ ap (λ l. go_on (suc m) l (length file) (process_blocks garbage kv db bs r)) same
      ∙ with_end file (length file) m (process_blocks garbage kv db bs r) refl
