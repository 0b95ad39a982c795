-- ===== src/Base58/Runs.antt =====
-- The base 58 code on small numbers and strings.
use bitcoin_analysis.Common.{some, none, ◌+◌, ◌*◌, ◌<◌, ◌≡◌, refl, [], ◌∷◌, arith, reverse, get_or}
use bitcoin_analysis.Common.{List, ◌++◌, ℕ, inl, inr, replicate}
use bitcoin_analysis.Block.Reader.{le_value}
use bitcoin_analysis.Base58.Encoder.{
  text, cb_encode_base58, top_zeros, turn, encode_loop, reversal_loop, swap, prepend, subtract_byte,
  subtract_byte_loop, compare_to58, is_at_least, subtract, subtract_loop, compare_bytes,
  compare_to_big_int,
}
use bitcoin_analysis.Base58.Trim.{Trim, Positive}
use bitcoin_analysis.Base58.RoundTrip.{cb_encode_base58-decode_base58}
use bitcoin_analysis.Base58.Compare.{compare_to_big_int-le_value, le_value-subtract}
use bitcoin_analysis.Base58.{
  multiply, add, divide_by58, modulo_with58, decode_base58, returns, decode_loop, decode_step,
  from_pow, pow_loop, multiply_loop, is_zero, add_loop, propagate, alpha_index, leading_ones,
  normalise, divide_loop, drop_last_zero, drop_zeros, base58_characters,
}
use bitcoin_analysis.Base58.Arithmetic.{divide_by58-modulo_with58}
use bitcoin_analysis.Base58.Decode.{value58, le_value-decode_base58, alpha_index-characters}

-- The string 12z stands for 57 + 58, and its leading 1 for a zero on the end.
decoded : decode_base58 [] (b'1' ∷ b'2' ∷ b'z' ∷ []) ≡ some (115 ∷ 0 ∷ [])
unfolding decode_base58 returns decode_loop decode_step from_pow pow_loop multiply multiply_loop
    is_zero add add_loop propagate alpha_index leading_ones
decoded = refl

normalised : normalise (0 ∷ 7 ∷ 0 ∷ 0 ∷ []) ≡ 0 ∷ 7 ∷ []
unfolding normalise drop_zeros
normalised = refl

divide_by58-modulo_with58_example :
    (le_value (7 ∷ 200 ∷ [])
      ≡ 58 * le_value (divide_by58 (7 ∷ 200 ∷ [])) + modulo_with58 (7 ∷ 200 ∷ []))
    × (modulo_with58 (7 ∷ 200 ∷ []) < 58)
divide_by58-modulo_with58_example = divide_by58-modulo_with58 (7 ∷ 200 ∷ []) (omega arith)

le_value-decode_base58_example :
    (number : List ℕ) × (decode_base58 [] (b'1' ∷ b'2' ∷ b'z' ∷ []) ≡ some number)
    × (le_value number ≡ le_value [] + value58 (reverse (b'1' ∷ b'2' ∷ b'z' ∷ [])))
le_value-decode_base58_example =
    le_value-decode_base58 [] (b'1' ∷ b'2' ∷ b'z' ∷ []) (omega arith) (omega arith) tt

alpha_index-characters_example : alpha_index (get_or base58_characters 40 0) ≡ 40
alpha_index-characters_example = alpha_index-characters 40 (omega arith)

-- 256 leading 1s are counted for ever.
endless : decode_base58 [] (replicate 256 b'1') ≡ none
unfolding decode_base58 returns leading_ones
endless = refl

abbrev number : List ℕ
number = 7 ∷ 200 ∷ []

number-Trim : Trim number
unfolding Trim
number-Trim = omega arith

less-Trim : Trim (9 ∷ 100 ∷ [])
unfolding Trim
less-Trim = omega arith

number-Positive : Positive number
unfolding Positive Trim
number-Positive = (omega arith, omega arith)

cb_encode_base58-decode_base58_example :
    (str : List ℕ) × (cb_encode_base58 (number ++ replicate 1 0) 100 ≡ text str)
    × (decode_base58 [] str ≡ some (number ++ replicate 1 0))
cb_encode_base58-decode_base58_example =
    cb_encode_base58-decode_base58 number 1 (omega arith) number-Positive 100 (inl (omega arith))
      (omega arith) (omega arith)

-- 5 with a zero on top gets a digit 0 too many in front of its last digit.
small_number : cb_encode_base58 (5 ∷ 0 ∷ []) 40 ≡ text (b'1' ∷ b'1' ∷ b'6' ∷ [])
unfolding cb_encode_base58 top_zeros turn encode_loop reversal_loop swap prepend subtract_byte
    subtract_byte_loop compare_to58 compare_bytes is_at_least modulo_with58 divide_by58 divide_loop
    drop_last_zero is_zero normalise drop_zeros
small_number = refl

-- 65536 - 1, where the borrow of the second byte is not taken from the third.
lost_borrow : subtract (0 ∷ 0 ∷ 1 ∷ []) (1 ∷ []) ≡ 255 ∷ 255 ∷ 1 ∷ []
unfolding subtract subtract_loop normalise drop_zeros
lost_borrow = refl

le_value-subtract_example :
    le_value (subtract (0 ∷ 3 ∷ []) (1 ∷ [])) + le_value (1 ∷ []) ≡ le_value (0 ∷ 3 ∷ [])
le_value-subtract_example =
    le_value-subtract (0 ∷ 3 ∷ []) (1 ∷ []) (omega arith) (omega arith) (inr (omega arith))
      (omega arith)

compare_to_big_int-le_value_example :
    compare_to_big_int number (9 ∷ 100 ∷ [])
    ≡ compare_bytes (le_value number) (le_value (9 ∷ 100 ∷ []))
compare_to_big_int-le_value_example =
    compare_to_big_int-le_value number (9 ∷ 100 ∷ []) (omega arith) (omega arith) number-Trim
      less-Trim
