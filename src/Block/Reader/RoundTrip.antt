-- ===== src/Block/Reader/RoundTrip.antt =====
-- What the readers of BitcoinAnalysis/block.h return on bytes that were written for them, wherever
-- these stand in the buffer.
use bitcoin_analysis.Common.{
  ℕ, zero, suc, ◌+◌, ◌/◌, ◌%◌, ◌^◌, ◌≤◌, ◌<◌, ◌≡◌, refl, sym, ap, ◌∙◌, List, [], ◌∷◌, ◌++◌,
  append_assoc, append-nil, some, arith, length, leb, ltb, ◌==◌, if◌then◌else◌, ◌⊎◌, inl, inr,
  length-append, take-append_eq, drop-append_eq, le→leb, true, lt→ltb, le→ltb,
}
use mathlib.Core.Path.{subst}
use bitcoin_analysis.Block.Reader.{
  Reader, le_value, pure, go_on, ◌>>=◌, read_bytes, read_u8, read_u16, read_u32, read_u64,
  read_var_len,
}

-- `n` bytes that hold a value, the lowest first.
unfoldable pub le_bytes : ℕ → ℕ → List ℕ
le_bytes zero v = []
le_bytes (suc n) v = v % 256 ∷ le_bytes n (v / 256)

pub length-le_bytes : (n v : ℕ) → length (le_bytes n v) ≡ n
unfolding le_bytes
length-le_bytes zero v = refl
length-le_bytes (suc n) v = ap suc (length-le_bytes n (v / 256))

le_value-one : (v : ℕ) → v < 2 ^ 8 → le_value (le_bytes 1 v) ≡ v
unfolding le_bytes
le_value-one v h = omega arith

le_value-two : (v : ℕ) → v < 2 ^ 16 → le_value (le_bytes 2 v) ≡ v
unfolding le_bytes
le_value-two v h = omega arith

pub le_value-four : (v : ℕ) → v < 2 ^ 32 → le_value (le_bytes 4 v) ≡ v
unfolding le_bytes
le_value-four v h = omega arith

pub le_value-eight : (v : ℕ) → v < 2 ^ 64 → le_value (le_bytes 8 v) ≡ v
unfolding le_bytes
le_value-eight v h = omega arith

-- A reader that consumes exactly the given bytes, wherever they stand, and returns the value.
unfoldable pub Reads : {A : Type 0} → Reader A → List ℕ → A → Type 0
Reads m bytes a =
    (front rest : List ℕ) (pos : ℕ)
    → length front ≡ pos
    → m (front ++ (bytes ++ rest)) pos ≡ some (a, pos + length bytes)

pub Reads-pure : {A : Type 0} (a : A) → Reads (pure a) [] a
unfolding Reads
Reads-pure a front rest pos h = ap (λ (n : ℕ). some (a, n)) {y = pos + 0} (omega arith)

pub Reads->>= :
    {A B : Type 0} (m : Reader A) (f : A → Reader B) (xs ys : List ℕ) (a : A) (b : B)
    → Reads m xs a
    → Reads (f a) ys b
    → Reads (m >>= f) (xs ++ ys) b
unfolding Reads
Reads->>= m f xs ys a b h k front rest pos e =
    let whole : front ++ ((xs ++ ys) ++ rest) ≡ front ++ (xs ++ (ys ++ rest)) =
      ap (λ t. front ++ t) (append_assoc xs ys rest) in
    let moved : front ++ (xs ++ (ys ++ rest)) ≡ (front ++ xs) ++ (ys ++ rest) =
      sym (append_assoc front xs (ys ++ rest)) in
    ap (λ t. (m >>= f) t pos) whole
    ∙ ap (go_on f (front ++ (xs ++ (ys ++ rest)))) (h front (ys ++ rest) pos e)
    ∙ ap (λ t. f a t (pos + length xs)) moved
    ∙ k (front ++ xs) rest (pos + length xs) (omega (arith, length-append front xs))
    ∙ ap (λ (n : ℕ). some (b, n)) {x = pos + length xs + length ys} {y = pos + length (xs ++ ys)}
        (omega (arith, length-append xs ys))

pub Reads-read_bytes :
    (n : ℕ) (bytes : List ℕ) → length bytes ≡ n → Reads (read_bytes n) bytes bytes
unfolding Reads read_bytes
Reads-read_bytes n bytes h front rest pos e =
    let fits : leb (pos + n) (length (front ++ (bytes ++ rest))) ≡ true =
      le→leb _ _ (omega (arith, length-append front (bytes ++ rest), length-append bytes rest)) in
    rw (fits, drop-append_eq front (bytes ++ rest) pos e, take-append_eq bytes rest n h)
      (ap (λ (k : ℕ). some (bytes, k)) {x = pos + n} {y = pos + length bytes} (omega arith))

-- The same reader under another list of bytes, or another reader that agrees with it.
pub Reads-bytes :
    {A : Type 0} (m : Reader A) (xs ys : List ℕ) (a : A) → xs ≡ ys → Reads m xs a → Reads m ys a
Reads-bytes m xs ys a e h = subst (λ t. Reads m t a) e h

module _ (n v : ℕ) (h : le_value (le_bytes n v) ≡ v) where
  pub Reads-le : Reads (read_bytes n >>= λ bs. pure (le_value bs)) (le_bytes n v) v
  Reads-le =
      subst (λ t. Reads (read_bytes n >>= λ bs. pure (le_value bs)) t v) (append-nil (le_bytes n v))
        (Reads->>= (read_bytes n) (λ bs. pure (le_value bs)) (le_bytes n v) [] (le_bytes n v) v
          (Reads-read_bytes n (le_bytes n v) (length-le_bytes n v))
          (subst (λ w. Reads (pure (le_value (le_bytes n v))) [] w) h
            (Reads-pure (le_value (le_bytes n v)))))

pub Reads-read_u8 : (v : ℕ) → v < 2 ^ 8 → Reads read_u8 (le_bytes 1 v) v
unfolding read_u8
Reads-read_u8 v h = Reads-le 1 v (le_value-one v h)

pub Reads-read_u16 : (v : ℕ) → v < 2 ^ 16 → Reads read_u16 (le_bytes 2 v) v
unfolding read_u16
Reads-read_u16 v h = Reads-le 2 v (le_value-two v h)

pub Reads-read_u32 : (v : ℕ) → v < 2 ^ 32 → Reads read_u32 (le_bytes 4 v) v
unfolding read_u32
Reads-read_u32 v h = Reads-le 4 v (le_value-four v h)

pub Reads-read_u64 : (v : ℕ) → v < 2 ^ 64 → Reads read_u64 (le_bytes 8 v) v
unfolding read_u64
Reads-read_u64 v h = Reads-le 8 v (le_value-eight v h)

-- The protocol's variable length integer: a byte, or a marker and two or four bytes.
unfoldable pub compact_size : ℕ → List ℕ
compact_size v =
    if ltb v 0xfd
    then le_bytes 1 v
    else if ltb v (2 ^ 16)
    then 0xfd ∷ le_bytes 2 v
    else 0xfe ∷ le_bytes 4 v

-- What follows the marker.
abbrev var_len_rest : ℕ → Reader ℕ
var_len_rest v =
    if ltb v 0xfd
    then pure v
    else if v == 0xfd
    then read_u16
    else if v == 0xfe
    then read_u32
    else pure 0

var_len_marker :
    (marker v : ℕ) (xs : List ℕ)
    → marker < 2 ^ 8
    → Reads (var_len_rest marker) xs v
    → Reads read_var_len (le_bytes 1 marker ++ xs) v
unfolding read_var_len
var_len_marker marker v xs h k =
    Reads->>= read_u8 var_len_rest (le_bytes 1 marker) xs marker v (Reads-read_u8 marker h) k

compact_size-one : (v : ℕ) → v < 0xfd → Reads read_var_len (compact_size v) v
unfolding compact_size
compact_size-one v h = rw (lt→ltb v 0xfd h) (
    Reads-bytes read_var_len (le_bytes 1 v ++ []) (le_bytes 1 v) v (append-nil (le_bytes 1 v))
      (var_len_marker v v [] (omega arith) (rw (lt→ltb v 0xfd h) (Reads-pure v))))

compact_size-two : (v : ℕ) → 0xfd ≤ v → v < 2 ^ 16 → Reads read_var_len (compact_size v) v
unfolding compact_size le_bytes
compact_size-two v h k =
    rw (le→ltb v 0xfd h, lt→ltb v (2 ^ 16) k)
      (var_len_marker 0xfd v (le_bytes 2 v) (omega arith) (Reads-read_u16 v k))

compact_size-four : (v : ℕ) → 2 ^ 16 ≤ v → v < 2 ^ 32 → Reads read_var_len (compact_size v) v
unfolding compact_size le_bytes
compact_size-four v h k =
    rw (le→ltb v 0xfd (omega arith), le→ltb v (2 ^ 16) h)
      (var_len_marker 0xfe v (le_bytes 4 v) (omega arith) (Reads-read_u32 v k))

size_cases : (v : ℕ) → (v < 0xfd) ⊎ ((0xfd ≤ v) × (v < 2 ^ 16)) ⊎ (2 ^ 16 ≤ v)
size_cases v = omega arith

-- A count below 2^32, written in the protocol's variable length form, is read back, and the
-- position moves behind its bytes, wherever in the buffer they stand.
pub read_var_len-compact_size : (v : ℕ) → v < 2 ^ 32 → Reads read_var_len (compact_size v) v
read_var_len-compact_size v h = elim (size_cases v) [
  | inl small ↦ compact_size-one v small
  | inr (inl medium) ↦ compact_size-two v medium.0 medium.1
  | inr (inr large) ↦ compact_size-four v large h
]
