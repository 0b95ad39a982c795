-- ===== src/Statistics/Printed.antt =====
-- What the pieces of `statistical` in BitcoinAnalysis/Statistical.h write, where the stream is open
-- and where it has failed.
use bitcoin_analysis.Common.{
  ℕ, zero, suc, ◌+◌, ◌≡◌, refl, sym, ap, ◌∙◌, ◌≢◌, List, [], ◌∷◌, ◌++◌, map, append_assoc,
  append-nil, Option, some, true, false, take, drop, length, ◌≤◌, ◌<◌, arith,
}
use mathlib.Core.Path.{subst}
use bitcoin_analysis.Statistics.{Query}
use bitcoin_analysis.Statistics.Stream.{
  File, Item, Stream, Answer, no_row, null, cell, answer, Action, go_on, put, put_to, put_answer,
  query_slot, query_loop, slot, repeat, ◌⨟◌,
}

-- A stream is open at a file, or it has failed there.
pub data Status : Type 0 where
  writing lost : File → Status

module _ {V : Type 0} where
  unfoldable pub stream_of : Status → List (File × Item V) → Stream V
  stream_of (writing f) w = record { current = some f; is_failed = false; written = w }
  stream_of (lost f) w = record { current = some f; is_failed = true; written = w }

  unfoldable pub emitted : Status → List (Item V) → List (File × Item V)
  emitted (writing f) xs = map (λ x. (f, x)) xs
  emitted (lost f) xs = []

  -- An action writes the items, whatever the status, and leaves the stream as it was otherwise.
  pub record Writes (xs : List (Item V)) (a : Action V) : Type 0 where
    pub runs :
        (st : Status) (w : List (File × Item V))
        → a (stream_of st w) ≡ some (stream_of st (w ++ emitted st xs))

  -- The items of a list of answers.
  unfoldable pub items_of : Answer V → List (Item V)
  items_of no_row = []
  items_of null = []
  items_of (cell v) = answer v ∷ []

  unfoldable pub answers : (Query → Answer V) → (Query → Query) → List Query → List (Item V)
  answers ask add_time [] = []
  answers ask add_time (q ∷ qs) = items_of (ask (add_time q)) ++ answers ask add_time qs

  unfoldable pub copies : ℕ → List (Item V) → List (Item V)
  copies zero xs = []
  copies (suc n) xs = xs ++ copies n xs

  emitted-nil : (st : Status) → emitted st [] ≡ []
  unfolding emitted
  emitted-nil (writing f) = refl
  emitted-nil (lost f) = refl

  emitted-append :
      (st : Status) (xs ys : List (Item V)) → emitted st (xs ++ ys) ≡ emitted st xs ++ emitted st ys
  unfolding emitted
  emitted-append (writing f) [] ys = refl
  emitted-append (writing f) (x ∷ xs) ys = ap (λ l. (f, x) ∷ l) (emitted-append (writing f) xs ys)
  emitted-append (lost f) xs ys = refl

  pub same-Writes : (a : Action V) → ((s : Stream V) → a s ≡ some s) → Writes [] a
  same-Writes a h = record {
    runs = λ st w.
        h (stream_of st w)
        ∙ ap (λ l. some (stream_of st l))
            (sym (append-nil w) ∙ ap (λ l. w ++ l) (sym (emitted-nil st)));
  }

  put-runs :
      (x : Item V) (st : Status) (w : List (File × Item V))
      → put x (stream_of st w) ≡ some (stream_of st (w ++ emitted st (x ∷ [])))
  unfolding put put_to stream_of emitted
  put-runs x (writing f) w = refl
  put-runs x (lost f) w =
      ap (λ l. some (record { current = some f; is_failed = true; written = l }))
        (sym (append-nil w))

  pub put-Writes : (x : Item V) → Writes (x ∷ []) (put x)
  put-Writes x = record { runs = put-runs x }

  pub then-Writes :
      {xs ys : List (Item V)} {a b : Action V}
      → Writes xs a
      → Writes ys b
      → Writes (xs ++ ys) (a ⨟ b)
  then-Writes {xs = xs} {ys = ys} {b = b} ha hb = record {
    runs = λ st w.
        ap (λ o. go_on o b) (ha.runs st w)
        ∙ hb.runs st (w ++ emitted st xs)
        ∙ ap (λ l. some (stream_of st l))
            (append_assoc w (emitted st xs) (emitted st ys)
              ∙ ap (λ l. w ++ l) (sym (emitted-append st xs ys)));
  }

  pub repeat-Writes :
      (n : ℕ) {xs : List (Item V)} {a : Action V} → Writes xs a → Writes (copies n xs) (repeat n a)
  unfolding repeat copies
  repeat-Writes zero {a = a} h = same-Writes _ (λ s. refl)
  repeat-Writes (suc n) h = then-Writes h (repeat-Writes n h)

  module _ (ask : Query → Answer V) (never_null : (q : Query) → ask q ≢ null) where
    put_answer-Writes : (r : Answer V) → r ≢ null → Writes (items_of r) (put_answer r)
    unfolding items_of put_answer
    put_answer-Writes no_row h = same-Writes _ (λ s. refl)
    put_answer-Writes null h = absurd (h refl)
    put_answer-Writes (cell v) h = put-Writes (answer v)

    -- The element at an index, in the two ways of looking for it.
    slot-drop :
        (qs : List Query) (i : ℕ)
        → i < length qs
        → (q : Query) × (slot qs i ≡ some q) × (drop i qs ≡ q ∷ drop (suc i) qs)
    slot-drop [] i h = absurd (omega (arith, h))
    slot-drop (q ∷ qs) zero h = (q, refl, refl)
    slot-drop (q ∷ qs) (suc i) h = slot-drop qs i (omega (arith, h))

    pub found-Writes :
        (add_time : Query → Query) (q : Query)
        → Writes (items_of (ask (add_time q))) (query_slot ask add_time (some q))
    unfolding query_slot
    found-Writes add_time q = put_answer-Writes (ask (add_time q)) (never_null (add_time q))

    pub query_slot-Writes :
        (add_time : Query → Query) (q : Query) (o : Option Query)
        → o ≡ some q
        → Writes (items_of (ask (add_time q))) (query_slot ask add_time o)
    query_slot-Writes add_time q o e =
        subst
          (λ (o : Option Query). Writes (items_of (ask (add_time q))) (query_slot ask add_time o))
          (sym e) (found-Writes add_time q)

    pub query_loop-Writes :
        (add_time : Query → Query) (array : List Query) (i n : ℕ)
        → i + n ≤ length array
        → Writes (answers ask add_time (take n (drop i array))) (query_loop ask add_time array i n)
    unfolding query_loop answers
    query_loop-Writes add_time array i zero h = same-Writes _ (λ s. refl)
    query_loop-Writes add_time array i (suc n) h =
        let (q, found, rest) = slot-drop array i (omega (arith, h)) in
        subst
          (λ (l : List Query).
            Writes (answers ask add_time (take (suc n) l))
              (query_loop ask add_time array i (suc n)))
          (sym rest)
          (then-Writes (query_slot-Writes add_time q (slot array i) found)
            (query_loop-Writes add_time array (suc i) n (omega (arith, h))))
