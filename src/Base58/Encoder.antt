-- ===== src/Base58/Encoder.antt =====
-- The comparisons, the subtractions and CBEncodeBase58 of BitcoinAnalysis/hash.h, and encodeBase58.
-- Numbers are as in Base58, and a string is the list of its characters without the final 0.
use bitcoin_analysis.Common.{
  ℕ, zero, suc, ◌+◌, ◌-◌, ◌*◌, ◌/◌, List, [], ◌∷◌, ◌++◌, Bool, true, false, ◌==◌, ltb, ◌&&◌,
  if◌then◌else◌, length, replicate, reverse, take, u8, u16, get_or, set,
}
use bitcoin_analysis.Base58.{normalise, modulo_with58, divide_by58, base58_characters}

pub data BigNumberCompare : Type 0 where
  more_than equal less_than : BigNumberCompare

unfoldable pub compare_bytes : ℕ → ℕ → BigNumberCompare
compare_bytes a b = if ltb a b then less_than else if ltb b a then more_than else equal

unfoldable pub compare_to58 : List ℕ → BigNumberCompare
compare_to58 a = if ltb 1 (length a) then more_than else compare_bytes (get_or a 0 0) 58

-- The highest byte that differs decides.
unfoldable pub compare_loop : List ℕ → List ℕ → BigNumberCompare
compare_loop [] ys = equal
compare_loop (x ∷ xs) [] = equal
compare_loop (x ∷ xs) (y ∷ ys) = elim (compare_loop xs ys) [
  | equal ↦ compare_bytes x y
  | more_than ↦ more_than
  | less_than ↦ less_than
]

unfoldable pub compare_to_big_int : List ℕ → List ℕ → BigNumberCompare
compare_to_big_int a b =
    if ltb (length b) (length a)
    then more_than
    else if ltb (length a) (length b)
    then less_than
    else compare_loop a b

unfoldable pub is_at_least : BigNumberCompare → Bool
is_at_least less_than = false
is_at_least _ = true

-- The bytes of `b` are taken away with a borrow, and a borrow that is left from the next byte.
-- Where a number is less than what is taken away, the code goes on above its length; here it ends.
unfoldable pub subtract_loop : List ℕ → List ℕ → ℕ → List ℕ
subtract_loop [] ys carry = []
subtract_loop (x ∷ xs) [] carry = if carry == 0 then x ∷ xs else u8 (x + 256 - 1) ∷ xs
subtract_loop (x ∷ xs) (y ∷ ys) carry =
    let tmp : ℕ = u16 (carry + y) in
    u8 (x + 256 - u8 tmp) ∷ subtract_loop xs ys (if ltb x tmp then 1 else 0)

unfoldable pub subtract : List ℕ → List ℕ → List ℕ
subtract a b = normalise (subtract_loop a b 0)

unfoldable pub subtract_byte_loop : ℕ → List ℕ → List ℕ
subtract_byte_loop carry [] = []
subtract_byte_loop carry (d ∷ ds) =
    let rest = subtract_byte_loop 1 ds in
    if ltb d carry then u8 (255 - carry + d + 1) ∷ rest else (d - carry) ∷ ds

unfoldable pub subtract_byte : List ℕ → ℕ → List ℕ
subtract_byte a b = normalise (subtract_byte_loop b a)

-- The zeros on top, looked at from the highest byte down.
unfoldable pub top_zeros : List ℕ → ℕ
top_zeros [] = 0
top_zeros (d ∷ ds) =
    let rest = top_zeros ds in if rest == length ds && d == 0 then suc rest else rest

-- What the encoder gives: false, or a string. `unfinished` is for a fuel that is too small.
pub data Encoding : Type 0 where
  refused unfinished : Encoding
  text : List ℕ → Encoding

unfoldable pub prepend : ℕ → Encoding → Encoding
prepend c refused = refused
prepend c unfinished = unfinished
prepend c (text cs) = text (c ∷ cs)

abbrev pub character : ℕ → ℕ
character i = get_or base58_characters i 0

-- The loop of digits, the lowest first, and the digit after it; `x` is the place in the string.
unfoldable pub encode_loop : ℕ → ℕ → ℕ → List ℕ → Encoding
encode_loop zero max_str_len x a = unfinished
encode_loop (suc fuel) max_str_len x a =
    let digit = modulo_with58 a in
    let rest = encode_loop fuel max_str_len (suc x) (divide_by58 (subtract_byte a digit)) in
    if is_at_least (compare_to58 a)
    then if ltb (length a) (x + 3) && ltb max_str_len (x + 3)
      then refused
      else prepend (character digit) rest
    else text (character (get_or a (length a - 1) 0) ∷ [])

-- Two characters change their places.
unfoldable pub swap : List ℕ → ℕ → ℕ → List ℕ
swap str i j = set (set str i (get_or str j 0)) j (get_or str i 0)

-- The loop that turns the digits around; its counter stays below 256.
unfoldable pub reversal_loop : ℕ → ℕ → ℕ → ℕ → List ℕ → List ℕ
reversal_loop zero y ones x str = str
reversal_loop (suc n) y ones x str =
    reversal_loop n (suc y) ones x (swap str (y + ones) (x - y - 1))

unfoldable pub turn : ℕ → Encoding → Encoding
turn ones refused = refused
turn ones unfinished = unfinished
turn ones (text digits) =
    let str : List ℕ = replicate ones b'1' ++ digits in
    text (reversal_loop ((length str - ones) / 2) 0 ones (length str) str)

-- Each byte gives two digits at most.
unfoldable pub cb_encode_base58 : List ℕ → ℕ → Encoding
cb_encode_base58 bi max_str_len =
    if ltb max_str_len (length bi)
    then refused
    else turn (top_zeros bi) (encode_loop (suc (2 * length bi)) max_str_len (top_zeros bi) bi)

-- The array holds 25 bytes, which is the length that all callers give.
unfoldable pub encode_base58 : List ℕ → ℕ → Bool → ℕ → Encoding
encode_base58 big_number len little_endian max_str_len =
    let bytes : List ℕ = take len big_number in
    cb_encode_base58 (if little_endian then take 25 (reverse bytes) else bytes) max_str_len
