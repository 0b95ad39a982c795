-- ===== src/Hash/Blocks.antt =====
-- What the two hash functions share: a message is consumed in blocks of 64 bytes, and padded by a
-- bit, zeros and eight bytes of length.
use bitcoin_analysis.Common.{
  ℕ, zero, suc, ◌+◌, ◌-◌, ◌*◌, ◌/◌, ◌%◌, ◌≤◌, ◌<◌, ◌≡◌, refl, ap, ap₂, ◌∙◌, List, ◌++◌, arith,
  length, take, drop, length-append, length-drop, take-append_le, drop-append_le, drop-drop,
  take_all, take-append_eq, drop-append_eq,
}

module _ {W : Type 0} (step : W → List ℕ → W) where
  -- Compress `n` blocks.
  unfoldable pub absorb : ℕ → W → List ℕ → W
  absorb zero hash bs = hash
  absorb (suc n) hash bs = absorb n (step hash (take 64 bs)) (drop 64 bs)

  pub absorb-add :
      (m n : ℕ) (hash : W) (bs : List ℕ)
      → absorb (m + n) hash bs ≡ absorb n (absorb m hash bs) (drop (64 * m) bs)
  unfolding absorb
  absorb-add zero n hash bs = ap (λ (k : ℕ). absorb k hash bs) {x = 0 + n} {y = n} (omega arith)
  absorb-add (suc m) n hash bs =
      ap (λ (k : ℕ). absorb k hash bs) {x = suc m + n} {y = suc (m + n)} (omega arith)
      ∙ absorb-add m n (step hash (take 64 bs)) (drop 64 bs)
      ∙ ap (absorb n (absorb (suc m) hash bs))
          (drop-drop 64 (64 * m) bs ∙ ap (λ (k : ℕ). drop k bs) {x = 64 + 64 * m} (omega arith))

  pub absorb-append :
      (m : ℕ) (hash : W) (s t : List ℕ)
      → 64 * m ≤ length s
      → absorb m hash (s ++ t) ≡ absorb m hash s
  unfolding absorb
  absorb-append zero hash s t h = refl
  absorb-append (suc m) hash s t h =
      rw (take-append_le 64 s t (omega arith), drop-append_le 64 s t (omega arith))
        (absorb-append m (step hash (take 64 s)) (drop 64 s) t (omega (arith, length-drop 64 s)))

  -- The blocks of an append: first those of its front, then those of what is left and its end.
  pub absorb-split :
      (m n : ℕ) (hash : W) (s t : List ℕ)
      → 64 * m ≤ length s
      → absorb (m + n) hash (s ++ t) ≡ absorb n (absorb m hash s) (drop (64 * m) s ++ t)
  absorb-split m n hash s t h =
      absorb-add m n hash (s ++ t)
      ∙ ap₂ (absorb n) (absorb-append m hash s t h) (drop-append_le (64 * m) s t h)

  -- One block and two blocks.
  pub absorb_one :
      (hash : W) (s : List ℕ) → length s ≡ 64 → absorb (length s / 64) hash s ≡ step hash s
  unfolding absorb
  absorb_one hash s h =
      ap (λ (n : ℕ). absorb n hash s) {x = length s / 64} {y = 1} (omega arith)
      ∙ ap (step hash) (take_all 64 s (omega arith))

  pub absorb_two :
      (hash : W) (s t : List ℕ)
      → length s ≡ 64
      → length t ≡ 64
      → absorb (length (s ++ t) / 64) hash (s ++ t) ≡ step (step hash s) t
  unfolding absorb
  absorb_two hash s t h k =
      ap (λ (n : ℕ). absorb n hash (s ++ t)) {x = length (s ++ t) / 64} {y = 2}
        (omega (arith, length-append s t))
      ∙ ap₂ (λ a b. step (step hash a) b) (take-append_eq s t 64 h)
          (ap (take 64) (drop-append_eq s t 64 h) ∙ take_all 64 t (omega arith))

-- The count of zero bytes that lead up to eight bytes before a block's end.
unfoldable pub zeros : ℕ → ℕ
zeros n = (119 - n % 64) % 64

pub zeros-lt : (n : ℕ) → zeros n < 64
unfolding zeros
zeros-lt n = omega arith

pub zeros-mod : (n : ℕ) → zeros (n % 64) ≡ zeros n
unfolding zeros
zeros-mod n = omega arith
