-- ===== src/Unzip/Placed.antt =====
-- A block of BitcoinAnalysis/unzipBlocks.h where it stands in its file.
use bitcoin_analysis.Common.{
  ◌==◌, ℕ, ◌+◌, ◌<◌, ◌≤◌, ◌^◌, ◌≡◌, refl, sym, ap, ◌∙◌, List, [], ◌++◌, append_assoc, append-nil,
  true, false, Option, none, some, ltb, if◌then◌else◌, length, take, drop, All, arith, take_all,
  false, Bool, [], take-append_eq, drop-append_eq, length-append, lt→ltb, le→ltb, ==_iff, replicate,
  ◌&&◌,
}
use bitcoin_analysis.Block.Transaction.{Transaction}
use bitcoin_analysis.Block.Transaction.Wire.{IsTransaction}
use bitcoin_analysis.Database.{Database}
use bitcoin_analysis.Ledger.{KeyValue}
use bitcoin_analysis.Unzip.Bodies.{one_block-block_bytes}
use bitcoin_analysis.Unzip.Fuel.{block_size-bounded}
use bitcoin_analysis.Unzip.Wire.{block_bytes, process_block, went_on}
use bitcoin_analysis.Unzip.{
  ends, end_of_file, stopped, failed, Step, counted, body_size, body_at, next_pos, is_good,
  block_at, read_block, step_of, block_step, Head, head_of, Run, one_block,
}

-- How a step ends at a block whose body is cut short.
module _ (garbage : List ℕ) (kv : KeyValue) (db : Database) where
  abbrev pub ended : ℕ → Option (Run garbage kv db) → Step garbage kv db
  ended q none = ends failed
  ended q (some next) = ends (end_of_file q next)

  -- A block behind the stop time ends the loop in front of it, whatever else it holds.
  pub block_step-late :
      (front late : List ℕ) (stop : ℕ) (r : Run garbage kv db)
      → 0 < length late
      → stop < (head_of (block_at late 0)).time_stamp
      → block_step garbage kv db (front ++ late) stop (length front) r
        ≡ ends (stopped (length front) (counted garbage kv db r))
  unfolding block_step step_of block_at
  block_step-late front late stop r some_byte time =
      let file : List ℕ = front ++ late in
      let pos : ℕ = length front in
      let head : Head = head_of (block_at file pos) in
      let result = read_block garbage kv db file pos head r in
      let same : head.time_stamp ≡ (head_of (block_at late 0)).time_stamp =
        ap (λ l. (head_of (take 88 (l ++ replicate 88 0))).time_stamp)
          (drop-append_eq front late pos refl) in
      ap
        (λ b.
          step_of garbage kv db b (ltb stop head.time_stamp) result (is_good file pos head)
            (next_pos pos head) pos r)
        (lt→ltb pos (length file) (omega (arith, some_byte, length-append front late)))
      ∙ ap
          (λ b.
            step_of garbage kv db true b result (is_good file pos head) (next_pos pos head) pos r)
          (lt→ltb stop head.time_stamp (omega (arith, time, same)))

  -- A block's header stands behind `front`, with the magic number and the size.
  module _ (front start rest : List ℕ) (r : Run garbage kv db) (h : length start ≡ 88)
      (small : length (front ++ (start ++ rest)) < 2 ^ 31) where
    abbrev file : List ℕ
    file = front ++ (start ++ rest)

    abbrev head : Head
    head = head_of start

    pub length-file : length file ≡ length front + (88 + length rest)
    length-file = omega (arith, h, length-append front (start ++ rest), length-append start rest)

    block_at-start : block_at file (length front) ≡ start
    unfolding block_at
    block_at-start =
        ap (λ l. take 88 (l ++ replicate 88 0))
          (drop-append_eq front (start ++ rest) (length front) refl)
        ∙ ap (take 88) (append_assoc start rest (replicate 88 0))
        ∙ take-append_eq start (rest ++ replicate 88 0) 88 h

    body_at-rest : body_at file (length front) head ≡ take (body_size head) rest
    unfolding body_at
    body_at-rest =
        ap (λ b. if b then take (body_size head) (drop (length front + 88) file) else [])
          (lt→ltb (length front + 88) (2 ^ 31) (omega (arith, small, length-file)))
        ∙ ap (λ l. take (body_size head) (drop (length front + 88) l))
            (sym (append_assoc front start rest))
        ∙ ap (take (body_size head)) (
            drop-append_eq (front ++ start) rest (length front + 88)
              (omega (arith, h, length-append front start)))

    -- The step at a block in time, whose body is what was read.
    block_step-placed :
        (stop : ℕ) (body : List ℕ)
        → head.time_stamp ≤ stop
        → take (body_size head) rest ≡ body
        → block_step garbage kv db file stop (length front) r
          ≡ step_of garbage kv db true false
              (one_block garbage kv db start head body r)
              (length body == body_size head && ltb (next_pos (length front) head) (2 ^ 31))
              (next_pos (length front) head)
              (length front)
              r
    unfolding block_step read_block is_good
    block_step-placed stop body time e =
        let p : ℕ = length front in
        ap
          (λ l.
            step_of garbage kv db (ltb p (length file)) (ltb stop (head_of l).time_stamp)
              (one_block garbage kv db l (head_of l) (body_at file p (head_of l)) r)
              (length (body_at file p (head_of l)) == body_size (head_of l)
                && ltb (next_pos p (head_of l)) (2 ^ 31))
              (next_pos p (head_of l)) p r)
          block_at-start
        ∙ ap
            (λ l.
              step_of garbage kv db (ltb p (length file)) (ltb stop head.time_stamp)
                (one_block garbage kv db start head l r)
                (length l == body_size head && ltb (next_pos p head) (2 ^ 31)) (next_pos p head) p
                r)
            (body_at-rest ∙ e)
        ∙ rw (lt→ltb p (length file) (omega (arith, length-file)), le→ltb stop head.time_stamp time)
            refl

  step_of-went_on :
      (good : Bool) (q p : ℕ) (r : Run garbage kv db) (result : Option (Run garbage kv db))
      → good ≡ true
      → step_of garbage kv db true false result good q p r ≡ went_on garbage kv db q result
  unfolding step_of
  step_of-went_on true q p r none e = refl
  step_of-went_on true q p r (some next) e = refl
  step_of-went_on false q p r result e = absurd (ground (arith, e))

  step_of-ended :
      (good : Bool) (q p : ℕ) (r : Run garbage kv db) (result : Option (Run garbage kv db))
      → good ≡ false
      → step_of garbage kv db true false result good q p r ≡ ended q result
  unfolding step_of
  step_of-ended false q p r none e = refl
  step_of-ended false q p r (some next) e = refl
  step_of-ended true q p r result e = absurd (ground (arith, e))

  module _ (front start : List ℕ) (txs : List Transaction) (r : Run garbage kv db)
      (h : length start ≡ 88) (few : length txs < 2 ^ 16) (all : All IsTransaction txs) where
    abbrev header : Head
    header = head_of start

    one_block-process_block :
        one_block garbage kv db start header (block_bytes txs) r
        ≡ process_block garbage kv db (record { start = start; txs = txs }) r
    unfolding process_block
    one_block-process_block =
        ap (λ l. one_block garbage kv db start header l r) (sym (append-nil (block_bytes txs)))
        ∙ one_block-block_bytes garbage kv db start header [] r txs few all

    -- The step at a block whose size is right goes on behind it, with the block's row and its
    -- transactions done.
    pub block_step-block_bytes :
        (behind : List ℕ) (stop : ℕ)
        → header.block_size ≡ 80 + length (block_bytes txs)
        → length (front ++ (start ++ (block_bytes txs ++ behind))) < 2 ^ 31
        → header.time_stamp ≤ stop
        → block_step garbage kv db
            (front ++ (start ++ (block_bytes txs ++ behind)))
            stop
            (length front)
            r
          ≡ went_on garbage kv db
              (length front + header.block_size + 8)
              (process_block garbage kv db (record { start = start; txs = txs }) r)
    unfolding body_size next_pos
    block_step-block_bytes behind stop size small time =
        let p : ℕ = length front in
        let rest = block_bytes txs ++ behind in
        let total = length-file front start rest r h small in
        let parts = length-append (block_bytes txs) behind in
        let whole : length (block_bytes txs) ≡ body_size header =
          omega (arith, size, small, total, parts) in
        let sum : next_pos p header ≡ p + header.block_size + 8 =
          omega (arith, size, small, total, parts) in
        block_step-placed front start rest r h small stop (block_bytes txs) time
          (take-append_eq (block_bytes txs) behind (body_size header) whole)
        ∙ step_of-went_on _ (next_pos p header) p r _ (
            rw
              (
                (==_iff (length (block_bytes txs)) (body_size header)).1 whole,
                lt→ltb (next_pos p header) (2 ^ 31) (omega (arith, sum, size, small, total, parts)),
              )
              refl)
        ∙ ap (went_on garbage kv db (next_pos p header)) one_block-process_block
        ∙ ap
            (λ q.
              went_on garbage kv db q
                (process_block garbage kv db (record { start = start; txs = txs }) r))
            sum

    -- The step at a last block whose size is more than the file has left.
    pub block_step-cut :
        (stop : ℕ)
        → 80 + length (block_bytes txs) < header.block_size
        → length (front ++ (start ++ block_bytes txs)) < 2 ^ 31
        → header.time_stamp ≤ stop
        → block_step garbage kv db (front ++ (start ++ block_bytes txs)) stop (length front) r
          ≡ ended
              (next_pos (length front) header)
              (process_block garbage kv db (record { start = start; txs = txs }) r)
    unfolding body_size
    block_step-cut stop size small time =
        let p : ℕ = length front in
        let bound = block_size-bounded start in
        let more : length (block_bytes txs) < body_size header = omega (arith, size, bound) in
        block_step-placed front start (block_bytes txs) r h small stop (block_bytes txs) time
          (take_all (body_size header) (block_bytes txs) (omega (arith, more)))
        ∙ step_of-ended _ (next_pos p header) p r _ (ground (arith, more))
        ∙ ap (ended (next_pos p header)) one_block-process_block
