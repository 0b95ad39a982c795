-- ===== src/Base58/Reversal.antt =====
-- The loop of CBEncodeBase58 of BitcoinAnalysis/hash.h that turns the digits around in place.
use bitcoin_analysis.Common.{
  ℕ, zero, suc, ◌+◌, ◌-◌, ◌/◌, ◌≡◌, refl, sym, ap, ap₂, ◌∙◌, List, [], ◌∷◌, ◌++◌, arith, length,
  get_or, set, reverse, append_assoc, length-append, append-nil,
}
use mathlib.Core.List.{reverse-cons, reverse-append}
use bitcoin_analysis.Base58.Encoder.{swap, reversal_loop}

get_or-append : (p : List ℕ) (a : ℕ) (q : List ℕ) → get_or (p ++ (a ∷ q)) (length p) 0 ≡ a
get_or-append [] a q = refl
get_or-append (x ∷ p) a q = get_or-append p a q

set-append :
    (p : List ℕ) (a : ℕ) (q : List ℕ) (v : ℕ) → set (p ++ (a ∷ q)) (length p) v ≡ p ++ (v ∷ q)
set-append [] a q v = refl
set-append (x ∷ p) a q v = ap (λ l. x ∷ l) (set-append p a q v)

-- A list of two or more has a first and a last element.
data Ends : List ℕ → Type 0 where
  none_left : Ends []
  one_left : (a : ℕ) → Ends (a ∷ [])
  both_ends : (a : ℕ) (m : List ℕ) (b : ℕ) → Ends (a ∷ (m ++ (b ∷ [])))

Ends-cons : (a : ℕ) (l : List ℕ) → Ends l → Ends (a ∷ l)
Ends-cons a _ none_left = one_left a
Ends-cons a _ (one_left b) = both_ends a [] b
Ends-cons a _ (both_ends b m c) = both_ends a (b ∷ m) c

all-Ends : (l : List ℕ) → Ends l
all-Ends [] = none_left
all-Ends (a ∷ l) = Ends-cons a l (all-Ends l)

swap-ends :
    (p : List ℕ) (a : ℕ) (m : List ℕ) (b : ℕ) (q : List ℕ)
    → swap (p ++ (a ∷ (m ++ (b ∷ q)))) (length p) (length (p ++ (a ∷ m)))
      ≡ p ++ (b ∷ (m ++ (a ∷ q)))
unfolding swap
swap-ends p a m b q =
    let upper = length (p ++ (a ∷ m)) in
    ap₂ (λ u v. set (set (p ++ (a ∷ (m ++ (b ∷ q)))) (length p) u) upper v)
      (ap (λ l. get_or l upper 0) (sym (append_assoc p (a ∷ m) (b ∷ q)))
        ∙ get_or-append (p ++ (a ∷ m)) b q)
      (get_or-append p a (m ++ (b ∷ q)))
    ∙ ap (λ l. set l upper a)
        (set-append p a (m ++ (b ∷ q)) b ∙ sym (append_assoc p (b ∷ m) (b ∷ q)))
    ∙ ap (λ (n : ℕ). set ((p ++ (b ∷ m)) ++ (b ∷ q)) n a) {x = upper} {y = length (p ++ (b ∷ m))}
        (omega (arith, length-append p (a ∷ m), length-append p (b ∷ m)))
    ∙ set-append (p ++ (b ∷ m)) b q a
    ∙ append_assoc p (b ∷ m) (a ∷ q)

reverse-ends :
    (a : ℕ) (m : List ℕ) (b : ℕ) → reverse (a ∷ (m ++ (b ∷ []))) ≡ b ∷ (reverse m ++ (a ∷ []))
reverse-ends a m b =
    reverse-cons a (m ++ (b ∷ [])) ∙ ap (λ l. l ++ (a ∷ [])) (reverse-append m (b ∷ []))

-- One round puts the two ends of what is left in their places.
round :
    (y ones x : ℕ) (p : List ℕ) (a : ℕ) (m : List ℕ) (b : ℕ) (q : List ℕ)
    → y ≡ length q
    → y + ones ≡ length p
    → x ≡ length p + (length (a ∷ (m ++ (b ∷ []))) + length q)
    → swap (p ++ ((a ∷ (m ++ (b ∷ []))) ++ q)) (y + ones) (x - y - 1)
      ≡ (p ++ (b ∷ [])) ++ (m ++ (a ∷ q))
round y ones x p a m b q e f g =
    ap (λ l. swap (p ++ (a ∷ l)) (y + ones) (x - y - 1)) (append_assoc m (b ∷ []) q)
    ∙ ap₂ (λ (i : ℕ) (j : ℕ). swap (p ++ (a ∷ (m ++ (b ∷ q)))) i j) f
        (omega (arith, e, g, length-append p (a ∷ m), length-append m (b ∷ [])))
    ∙ swap-ends p a m b q
    ∙ sym (append_assoc p (b ∷ []) (m ++ (a ∷ q)))

reversal :
    (n y ones x : ℕ) (p mid q : List ℕ)
    → Ends mid
    → n ≡ length mid / 2
    → y ≡ length q
    → y + ones ≡ length p
    → x ≡ length p + (length mid + length q)
    → reversal_loop n y ones x (p ++ (mid ++ q)) ≡ p ++ (reverse mid ++ q)
unfolding reversal_loop
reversal zero y ones x p _ q none_left h e f g = refl
reversal zero y ones x p _ q (one_left a) h e f g = refl
reversal zero y ones x p _ q (both_ends a m b) h e f g =
    absurd (omega (arith, h, length-append m (b ∷ [])))
reversal (suc n) y ones x p _ q none_left h e f g = absurd (omega (arith, h))
reversal (suc n) y ones x p _ q (one_left a) h e f g = absurd (omega (arith, h))
reversal (suc n) y ones x p _ q (both_ends a m b) h e f g =
    ap (reversal_loop n (suc y) ones x) (round y ones x p a m b q e f g)
    ∙ reversal n (suc y) ones x (p ++ (b ∷ [])) m (a ∷ q) (all-Ends m)
        (omega (arith, h, length-append m (b ∷ []))) (omega (arith, e))
        (omega (arith, f, length-append p (b ∷ [])))
        (omega (arith, g, length-append m (b ∷ []), length-append p (b ∷ [])))
    ∙ append_assoc p (b ∷ []) (reverse m ++ (a ∷ q))
    ∙ ap (λ l. p ++ (b ∷ l)) (sym (append_assoc (reverse m) (a ∷ []) q))
    ∙ ap (λ l. p ++ (l ++ q)) (sym (reverse-ends a m b))

-- The loop leaves the first characters and reverses the others.
pub reversal_loop-reverse :
    (p digits : List ℕ)
    → reversal_loop
        ((length (p ++ digits) - length p) / 2)
        0
        (length p)
        (length (p ++ digits))
        (p ++ digits)
      ≡ p ++ reverse digits
reversal_loop-reverse p digits =
    ap (reversal_loop ((length (p ++ digits) - length p) / 2) 0 (length p) (length (p ++ digits)))
      (ap (λ l. p ++ l) (sym (append-nil digits)))
    ∙ reversal ((length (p ++ digits) - length p) / 2) 0 (length p) (length (p ++ digits)) p digits
        [] (all-Ends digits) (ap (λ (n : ℕ). n / 2) (omega (arith, length-append p digits))) refl
        (omega arith) (omega (arith, length-append p digits))
    ∙ ap (λ l. p ++ l) (append-nil (reverse digits))
