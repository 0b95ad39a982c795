-- ===== src/Statistics/Stream.antt =====
-- The output of BitcoinAnalysis/Statistical.h: the stream `record`, its files, and the loops that
-- write the answers into it. An array is the list of its elements from an index on; the element
-- that a loop would read outside it is `none`, and so is the copy of a cell that is NULL.
use bitcoin_analysis.Common.{
  ℕ, zero, suc, List, [], ◌∷◌, ◌++◌, Bool, true, false, Option, none, some,
}
use bitcoin_analysis.Statistics.{Query}

pub data File : Type 0 where
  report_file tx_amount_2 tx_size_2 : File

-- What is written: the time and the range of the run, a heading with its numbers, the heading
-- without a number, the rule of `~`, an answer, and the end of a line.
pub data Item (V : Type 0) : Type 0 where
  run_time : Item V
  heading : ℕ → ℕ → Item V
  amounts_heading rule line_end : Item V
  answer : V → Item V

-- An ofstream, with what all the streams have written so far.
pub record Stream (V : Type 0) : Type 0 where
  pub current : Option File
  pub is_failed : Bool
  pub written : List (File × Item V)

-- What mysql_fetch_row gives, and its first cell.
pub data Answer (V : Type 0) : Type 0 where
  no_row null : Answer V
  cell : V → Answer V

-- A piece of the function, which runs on the stream or crashes.
abbrev pub Action : Type 0 → Type 0
Action V = Stream V → Option (Stream V)

abbrev pub slot : List Query → ℕ → Option Query
slot [] i = none
slot (q ∷ qs) zero = some q
slot (q ∷ qs) (suc i) = slot qs i

module _ {V : Type 0} where
  -- A stream that is open already is not opened again, and fails; a new file clears the failure.
  unfoldable pub open_from : Option File → File → Stream V → Stream V
  open_from none f s = record { current = some f; is_failed = false; written = s.written }
  open_from (some g) f s = record { current = some g; is_failed = true; written = s.written }

  unfoldable pub open_file : File → Action V
  open_file f s = some (open_from s.current f s)

  unfoldable pub close_from : Option File → Stream V → Stream V
  close_from none s = record { current = none; is_failed = true; written = s.written }
  close_from (some g) s = record { current = none; is_failed = s.is_failed; written = s.written }

  unfoldable pub close_file : Action V
  close_file s = some (close_from s.current s)

  -- A failed stream writes nothing.
  unfoldable pub put_to : Option File → Bool → Item V → Stream V → Stream V
  put_to c true x s = s
  put_to none false x s = record { current = none; is_failed = true; written = s.written }
  put_to (some f) false x s = record {
    current = some f;
    is_failed = false;
    written = s.written ++ ((f, x) ∷ []);
  }

  unfoldable pub put : Item V → Action V
  put x s = some (put_to s.current s.is_failed x s)

  abbrev pub go_on : Option (Stream V) → Action V → Option (Stream V)
  go_on none b = none
  go_on (some s) b = b s

  infixr 5 ◌⨟◌
  abbrev pub ◌⨟◌ : Action V → Action V → Action V
  (a ⨟ b) s = go_on (a s) b

  unfoldable pub put_answer : Answer V → Action V
  put_answer no_row s = some s
  put_answer null s = none
  put_answer (cell v) s = put (answer v) s

  module _ (ask : Query → Answer V) where
    unfoldable pub query_slot : (Query → Query) → Option Query → Action V
    query_slot add_time none s = none
    query_slot add_time (some q) s = put_answer (ask (add_time q)) s

    -- A loop over `n` elements of an array, each with its time appended.
    unfoldable pub query_loop : (Query → Query) → List Query → ℕ → ℕ → Action V
    query_loop add_time array i zero s = some s
    query_loop add_time array i (suc n) s =
        (query_slot add_time (slot array i) ⨟ query_loop add_time array (suc i) n) s

  unfoldable pub repeat : ℕ → Action V → Action V
  repeat zero a s = some s
  repeat (suc n) a s = (a ⨟ repeat n a) s
