-- ===== src/Assembler/Parser/Constants.antt =====
-- Assembler/parser.cpp: the tests and the values of constants, over `std::stoi` and `std::stol` of
-- the standard library.
pub mod Decimal
pub mod Operands
use ecc_cpu.Base.{
  ℕ, zero, suc, ◌+◌, ◌-◌, ◌*◌, ◌^◌, ◌%◌, Bool, true, false, ◌&&◌, ◌||◌, ◌==◌, ltb, if◌then◌else◌,
  Option, none, some, [], ◌∷◌,
}
use ecc_cpu.Base.Int.{ℤ, pos, negsuc}
use ecc_cpu.Assembler.Text.{Text, is_digit, is_empty, is_alpha, skip_spaces}

-- What `std::stoi` throws, or the value with the text from `ix` on.
pub data Parsed : Type 0 where
  invalid_argument out_of_range : Parsed
  number : (value : ℤ) (rest : Text) → Parsed

unfoldable pub digits_from : ℕ → Text → ℕ × Text
digits_from value [] = (value, [])
digits_from value (c ∷ cs) = elim (is_digit c) [
  | true ↦ digits_from (value * 10 + (c - b'0')) cs
  | false ↦ (value, c ∷ cs)
]

abbrev pub negate : ℕ → ℤ
negate zero = pos 0
negate (suc n) = negsuc n

-- `-2 ^ (bits - 1) <= value && value < 2 ^ (bits - 1)`
abbrev pub fits_signed : ℕ → ℤ → Bool
fits_signed bits (pos n) = ltb n (2 ^ (bits - 1))
fits_signed bits (negsuc n) = ltb n (2 ^ (bits - 1))

abbrev pub in_range : ℕ → ℤ → Text → Parsed
in_range bits value rest = if fits_signed bits value then number value rest else out_of_range

unfoldable pub magnitude : ℕ → Bool → Text → Parsed
magnitude bits negative [] = invalid_argument
magnitude bits negative (c ∷ cs) =
    if is_digit c
    then (let (value, rest) = digits_from 0 (c ∷ cs) in
        in_range bits (if negative then negate value else pos value) rest)
    else invalid_argument

unfoldable pub signed_number : ℕ → Text → Parsed
signed_number bits [] = invalid_argument
signed_number bits (c ∷ cs) =
    if c == b'-'
    then magnitude bits true cs
    else if c == b'+'
    then magnitude bits false cs
    else magnitude bits false (c ∷ cs)

-- `std::stoi` for 32 bits, and `std::stol` for 64.
abbrev pub string_to : ℕ → Text → Parsed
string_to bits str = signed_number bits (skip_spaces str)

-- `isInt16Constant` and `isInt8Constant`: they catch `std::invalid_argument` only, so that the
-- other exception ends the program.
unfoldable pub is_int_constant : ℕ → Text → Option Bool
is_int_constant bits str = by (string_to 32 str)
  where
    by : Parsed → Option Bool
    by invalid_argument = some false
    by out_of_range = none
    by (number value rest) = some (is_empty rest && fits_signed bits value)

abbrev pub is_int16_constant : Text → Option Bool
is_int16_constant = is_int_constant 16

abbrev pub is_int8_constant : Text → Option Bool
is_int8_constant = is_int_constant 8

-- The cast of an `int` to a narrower signed type.
abbrev pub pattern_of : ℕ → ℤ → ℕ
pattern_of bits (pos n) = n % 2 ^ bits
pattern_of bits (negsuc n) = 2 ^ bits - 1 - n % 2 ^ bits

abbrev pub signed : ℕ → ℕ → ℤ
signed bits w = if ltb w (2 ^ (bits - 1)) then pos w else negsuc (2 ^ bits - 1 - w)

abbrev pub narrow : ℕ → ℤ → ℤ
narrow bits value = signed bits (pattern_of bits value)

-- `getInt16Constant` and `getInt8Constant`: no exception is caught.
unfoldable pub get_int_constant : ℕ → Text → Option ℤ
get_int_constant bits str = by (string_to 32 str)
  where
    by : Parsed → Option ℤ
    by invalid_argument = none
    by out_of_range = none
    by (number value rest) = some (narrow bits value)

abbrev pub get_int16_constant : Text → Option ℤ
get_int16_constant = get_int_constant 16

abbrev pub get_int8_constant : Text → Option ℤ
get_int8_constant = get_int_constant 8

-- `str[0]` of an empty text is a NUL.
unfoldable pub is_symbol : Text → Bool
is_symbol [] = false
is_symbol (c ∷ cs) = is_alpha c || c == b'_' || c == b'$'
