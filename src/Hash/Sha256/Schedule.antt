-- ===== src/Hash/Sha256/Schedule.antt =====
-- The message schedule of a block, as the standard gives it: sixteen big-endian words, then a
-- recurrence. The code keeps four pointers into the array that it is filling.
use bitcoin_analysis.Common.{
  ℕ, zero, suc, ◌+◌, ◌*◌, ◌≤◌, ◌<◌, ◌≡◌, refl, sym, ap, ◌∙◌, List, [], ◌∷◌, ◌++◌, map, arith, inl,
  inr, Bool-cases, ◌==◌, ==_iff, All, IsByte, length, get_or, u32, words_le, words_be,
  length-append, get_or-append_left, get_or-append_end,
}
use bitcoin_analysis.Hash.Sha256.{small_sigma0, small_sigma1, extend, schedule, byteswap}
use bitcoin_analysis.Hash.Sha256.Swap.{map-byteswap-words_le}

-- The value of W[t + 16].
abbrev pub next_word : List ℕ → ℕ → ℕ
next_word w t = u32 (
    small_sigma1 (get_or w (t + 14) 0)
    + get_or w (t + 9) 0
    + small_sigma0 (get_or w (t + 1) 0)
    + get_or w t 0)

pub record IsExtended (i left : ℕ) (buf out : List ℕ) : Type 0 where
  pub same_front : (j : ℕ) → j < i + 16 → get_or out j 0 ≡ get_or buf j 0
  pub grown : length out ≡ i + 16 + left
  pub recurrence : (t : ℕ) → i ≤ t → t < i + left → get_or out (t + 16) 0 ≡ next_word out t

next_word-front :
    (w w' : List ℕ) (t : ℕ)
    → ((j : ℕ) → j < t + 16 → get_or w j 0 ≡ get_or w' j 0)
    → next_word w t ≡ next_word w' t
next_word-front w w' t h =
    rw (
      h (t + 14) (omega arith),
      h (t + 9) (omega arith),
      h (t + 1) (omega arith),
      h t (omega arith),
    )

IsExtended-cons :
    (i left : ℕ) (buf out : List ℕ) (next : ℕ)
    → length buf ≡ i + 16
    → next ≡ next_word buf i
    → IsExtended (i + 1) left (buf ++ next ∷ []) out
    → IsExtended i (suc left) buf out
IsExtended-cons i left buf out next h e rest = record {
  same_front = front;
  grown = omega (arith, rest.grown);
  recurrence = λ t lo hi. elim (Bool-cases (t == i)) [
    | inl now ↦ rw ((==_iff t i).0 now) first
    | inr later ↦ rest.recurrence t (ground arith) (omega arith)
  ];
}
  where
    front : (j : ℕ) → j < i + 16 → get_or out j 0 ≡ get_or buf j 0
    front j lt =
        rest.same_front j (omega arith) ∙ get_or-append_left buf (next ∷ []) j 0 (omega arith)

    first : get_or out (i + 16) 0 ≡ next_word out i
    first =
        rest.same_front (i + 16) (omega arith)
        ∙ get_or-append_end buf [] next (i + 16) 0 (sym h)
        ∙ e
        ∙ sym (next_word-front out buf i front)

extend-IsExtended :
    (left i w15 w7 w2 : ℕ) (buf : List ℕ)
    → length buf ≡ i + 16
    → w15 ≡ i + 1
    → w7 ≡ i + 9
    → w2 ≡ i + 14
    → IsExtended i left buf (extend left i w15 w7 w2 buf)
unfolding extend
extend-IsExtended zero i w15 w7 w2 buf h e15 e7 e2 = record {
  same_front = λ j lt. refl;
  grown = omega arith;
  recurrence = λ t lo hi. absurd (omega arith);
}
extend-IsExtended (suc left) i w15 w7 w2 buf h e15 e7 e2 =
    IsExtended-cons i left buf _ _ h (rw (e15, e7, e2)) (
      extend-IsExtended left (i + 1) (w15 + 1) (w7 + 1) (w2 + 1) _
        (omega (arith, length-append buf (next ∷ []))) (omega arith) (omega arith) (omega arith))
  where
    next : ℕ
    next = u32 (
        small_sigma1 (get_or buf w2 0)
        + get_or buf w7 0
        + small_sigma0 (get_or buf w15 0)
        + get_or buf i 0)

words_be-length : (n : ℕ) (bs : List ℕ) → length bs ≡ 4 * n → length (words_be bs) ≡ n
words_be-length zero [] h = refl
words_be-length zero (b ∷ bs) h = absurd (omega arith)
words_be-length (suc n) (b0 ∷ b1 ∷ b2 ∷ b3 ∷ bs) h = ap suc (words_be-length n bs (omega arith))
words_be-length (suc n) [] h = absurd (omega arith)
words_be-length (suc n) (b0 ∷ []) h = absurd (omega arith)
words_be-length (suc n) (b0 ∷ b1 ∷ []) h = absurd (omega arith)
words_be-length (suc n) (b0 ∷ b1 ∷ b2 ∷ []) h = absurd (omega arith)

-- The schedule of a block of 64 bytes has 64 words. The first sixteen are the block's big-endian
-- words, and every later one is given by the standard's recurrence:
-- W[t] = sigma1(W[t-2]) + W[t-7] + sigma0(W[t-15]) + W[t-16] modulo 2^32.
pub schedule-standard :
    (block : List ℕ)
    → All IsByte block
    → length block ≡ 64
    → (length (schedule block) ≡ 64)
      × ((j : ℕ) → j < 16 → get_or (schedule block) j 0 ≡ get_or (words_be block) j 0)
      × ((t : ℕ) → t < 48 → get_or (schedule block) (t + 16) 0 ≡ next_word (schedule block) t)
unfolding schedule
schedule-standard block bytes h =
    let first : map byteswap (words_le block) ≡ words_be block =
      map-byteswap-words_le block bytes in
    let r =
      extend-IsExtended 48 0 1 9 14 (words_be block) (words_be-length 16 block h) refl refl refl in
    rw first (r.grown, r.same_front, λ t lt. r.recurrence t (omega arith) lt)
