-- ===== src/Base58.antt =====
-- BLOCKCHAIN_BASE58 of BitcoinAnalysis/hash.h: a BigNumber as the list of its `length` bytes, the
-- lowest first. The array's bytes above `length` are written before they are read, and a number
-- stays below the array's 256 bytes.
pub mod Arithmetic
pub mod Decode
pub mod Encoder
pub mod Trim
pub mod Encode
pub mod Reversal
pub mod Compare
pub mod RoundTrip
mod Runs
use bitcoin_analysis.Common.{
  ℕ, zero, suc, ◌+◌, ◌-◌, ◌*◌, ◌/◌, ◌%◌, ◌^◌, List, [], ◌∷◌, ◌++◌, Bool, true, false, ◌==◌, ◌||◌,
  ◌&&◌, ltb, leb, Option, none, some, if◌then◌else◌, length, replicate, reverse, u8, u16, bit_or,
  get_or,
}

-- BigNumberNormalise on what lies above the lowest byte.
unfoldable pub drop_zeros : List ℕ → List ℕ
drop_zeros [] = []
drop_zeros (d ∷ ds) = elim (drop_zeros ds) [
  | [] ↦ if d == 0 then [] else d ∷ []
  | e ∷ es ↦ d ∷ (e ∷ es)
]

unfoldable pub normalise : List ℕ → List ℕ
normalise [] = []
normalise (d ∷ ds) = d ∷ drop_zeros ds

-- The loop over bytes, and the byte that the last carry adds.
unfoldable pub multiply_loop : ℕ → ℕ → List ℕ → List ℕ
multiply_loop b carry [] = if carry == 0 then [] else u8 carry ∷ []
multiply_loop b carry (d ∷ ds) =
    let sum : ℕ = u16 (carry + d * b) in u8 sum ∷ multiply_loop b (sum / 2 ^ 8) ds

unfoldable pub is_zero : List ℕ → Bool
is_zero (d ∷ []) = d == 0
is_zero _ = false

unfoldable pub multiply : List ℕ → ℕ → List ℕ
multiply a b = if b == 0 then 0 ∷ [] else if is_zero a then a else multiply_loop b 0 a

unfoldable pub pow_loop : ℕ → ℕ → List ℕ → List ℕ
pow_loop a zero bi = bi
pow_loop a (suc n) bi = pow_loop a n (multiply bi a)

unfoldable pub from_pow : ℕ → ℕ → List ℕ
from_pow a b = pow_loop a b (1 ∷ [])

-- The overflow goes up as long as a byte turns to 0.
unfoldable pub propagate : List ℕ → ℕ → List ℕ
propagate [] overflow = if overflow == 0 then [] else 1 ∷ []
propagate (x ∷ xs) overflow =
    let next : ℕ = u8 (x + 1) in
    let rest = propagate xs (if next == 0 then 1 else 0) in
    if overflow == 0 then x ∷ xs else next ∷ rest

-- `a` is extended by zeros to the length of `b`.
unfoldable pub add_loop : List ℕ → List ℕ → ℕ → List ℕ
add_loop xs [] overflow = propagate xs overflow
add_loop [] (y ∷ ys) overflow =
    let sum : ℕ = u8 (0 + (y + overflow)) in
    sum ∷ add_loop [] ys (if ltb sum (y + overflow) then 1 else 0)
add_loop (x ∷ xs) (y ∷ ys) overflow =
    let sum : ℕ = u8 (x + (y + overflow)) in
    sum ∷ add_loop xs ys (if ltb sum (y + overflow) then 1 else 0)

unfoldable pub add : List ℕ → List ℕ → List ℕ
add a b = add_loop a b 0

-- The long division, from the highest byte down: the bytes of `ans` and the last `temp`.
unfoldable pub divide_loop : List ℕ → List ℕ × ℕ
divide_loop [] = ([], 0)
divide_loop (d ∷ ds) =
    let (ans, high) = divide_loop ds in
    let temp : ℕ = bit_or (u16 (high * 2 ^ 8)) d in
    let q : ℕ = u8 (temp / 58) in (q ∷ ans, temp - q * 58)

-- The last byte, if it is zero, is cut off.
unfoldable pub drop_last_zero : List ℕ → List ℕ
drop_last_zero [] = []
drop_last_zero (d ∷ []) = if d == 0 then [] else d ∷ []
drop_last_zero (d ∷ e ∷ es) = d ∷ drop_last_zero (e ∷ es)

unfoldable pub divide_by58 : List ℕ → List ℕ
divide_by58 a = if is_zero a then a else drop_last_zero (divide_loop a).0

unfoldable pub modulo_with58 : List ℕ → ℕ
modulo_with58 [] = 0
modulo_with58 (d ∷ ds) = (modulo_with58 ds * (256 % 58) % 58 + d % 58) % 58

abbrev pub base58_characters : List ℕ
base58_characters =
    b'1' ∷ b'2' ∷ b'3' ∷ b'4' ∷ b'5' ∷ b'6' ∷ b'7' ∷ b'8' ∷ b'9' ∷ b'A' ∷ b'B' ∷ b'C' ∷ b'D' ∷ b'E'
    ∷ b'F' ∷ b'G' ∷ b'H' ∷ b'J' ∷ b'K' ∷ b'L' ∷ b'M' ∷ b'N' ∷ b'P' ∷ b'Q' ∷ b'R' ∷ b'S' ∷ b'T'
    ∷ b'U' ∷ b'V' ∷ b'W' ∷ b'X' ∷ b'Y' ∷ b'Z' ∷ b'a' ∷ b'b' ∷ b'c' ∷ b'd' ∷ b'e' ∷ b'f' ∷ b'g'
    ∷ b'h' ∷ b'i' ∷ b'j' ∷ b'k' ∷ b'm' ∷ b'n' ∷ b'o' ∷ b'p' ∷ b'q' ∷ b'r' ∷ b's' ∷ b't' ∷ b'u'
    ∷ b'v' ∷ b'w' ∷ b'x' ∷ b'y' ∷ b'z' ∷ []

-- The index of a character; the subtractions wrap in eight bits. `char` is signed, so a character
-- from 128 on is below 58.
unfoldable pub alpha_index : ℕ → ℕ
alpha_index c =
    if ltb c 58 || leb 128 c
    then u8 (c + 256 - 49)
    else if ltb c 73
    then u8 (c + 256 - 56)
    else if ltb c 79
    then u8 (c + 256 - 57)
    else if ltb c 91
    then u8 (c + 256 - 58)
    else if ltb c 108
    then u8 (c + 256 - 64)
    else u8 (c + 256 - 65)

-- One character: the power of its place, counted in eight bits, times its index, is added.
unfoldable pub decode_step : ℕ → ℕ → List ℕ → List ℕ
decode_step place c bi =
    if c == 49 then bi else add bi (multiply (from_pow 58 (u8 place)) (alpha_index c))

-- The loop over the string from its end.
unfoldable pub decode_loop : ℕ → List ℕ → List ℕ → List ℕ
decode_loop place [] bi = bi
decode_loop place (c ∷ cs) bi = decode_loop (suc place) cs (decode_step place c bi)

unfoldable pub leading_ones : List ℕ → ℕ
leading_ones [] = 0
leading_ones (c ∷ cs) = let rest = leading_ones cs in if c == 49 then suc rest else 0

-- An empty string is read in front of its begin, and the loop over the leading 1s, whose counter
-- has eight bits, never ends where they are 256 or more.
unfoldable pub returns : List ℕ → Bool
returns str = ltb 0 (length str) && ltb (leading_ones str) 256

-- `none` where the function does not return. For each leading 1 a zero is put on the end.
unfoldable pub decode_base58 : List ℕ → List ℕ → Option (List ℕ)
decode_base58 bi str =
    if returns str
    then some (decode_loop 0 (reverse str) bi ++ replicate (u8 (leading_ones str)) 0)
    else none
