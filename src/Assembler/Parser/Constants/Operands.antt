-- ===== src/Assembler/Parser/Constants/Operands.antt =====
-- The constants of Assembler/parser.cpp as operands: decimal numbers in range, and words that are no
-- numbers.
use ecc_cpu.Base.{
  ℕ, zero, suc, ◌+◌, ◌/◌, ◌%◌, Bool-cases, inl, inr, true, false, ◌≡◌, refl, ltb, some, [], ◌∷◌,
  arith,
}
use ecc_cpu.Base.Int.{ℤ, pos, negsuc}
use ecc_cpu.Assembler.Text.{Text, is_empty, skip_spaces}
use ecc_cpu.Assembler.Parser.Tokens.{is_split_char}
use ecc_cpu.Assembler.Parser.Tokens.Layout.{IsWord}
use ecc_cpu.Assembler.Parser.Constants.{
  fits_signed, magnitude, signed_number, is_int_constant, narrow, is_int8_constant,
  is_int16_constant, get_int8_constant, get_int16_constant, is_symbol,
}
use ecc_cpu.Assembler.Parser.Constants.Decimal.{
  digits_before, decimal, is_int_constant-decimal, get_int_constant-decimal,
}

narrow8 : (value : ℤ) → fits_signed 8 value ≡ true → narrow 8 value ≡ value
narrow8 (pos n) h = ground arith
narrow8 (negsuc n) h = ground arith

narrow16 : (value : ℤ) → fits_signed 16 value ≡ true → narrow 16 value ≡ value
narrow16 (pos n) h = ground arith
narrow16 (negsuc n) h = ground arith

wider8 : (value : ℤ) → fits_signed 8 value ≡ true → fits_signed 32 value ≡ true
wider8 (pos n) h = ground arith
wider8 (negsuc n) h = ground arith

wider16 : (value : ℤ) → fits_signed 16 value ≡ true → fits_signed 32 value ≡ true
wider16 (pos n) h = ground arith
wider16 (negsuc n) h = ground arith

module _ (value : ℤ) (h : fits_signed 8 value ≡ true) where
  pub is_int8_constant-decimal : is_int8_constant (decimal value) ≡ some true
  is_int8_constant-decimal = is_int_constant-decimal 8 value (narrow8 value h) h (wider8 value h)

  pub get_int8_constant-decimal : get_int8_constant (decimal value) ≡ some value
  get_int8_constant-decimal = get_int_constant-decimal 8 value (narrow8 value h) h (wider8 value h)

module _ (value : ℤ) (h : fits_signed 16 value ≡ true) where
  pub is_int16_constant-decimal : is_int16_constant (decimal value) ≡ some true
  is_int16_constant-decimal =
      is_int_constant-decimal 16 value (narrow16 value h) h (wider16 value h)

  pub get_int16_constant-decimal : get_int16_constant (decimal value) ≡ some value
  get_int16_constant-decimal =
      get_int_constant-decimal 16 value (narrow16 value h) h (wider16 value h)

-- A text that starts with `%`, or as a symbol, is no constant.
pub is_int_constant-percent :
    (bits : ℕ) (name : Text) → is_int_constant bits (b'%' ∷ name) ≡ some false
unfolding is_int_constant signed_number skip_spaces magnitude
is_int_constant-percent bits name = refl

pub is_int_constant-symbol :
    (bits : ℕ) (name : Text) → is_symbol name ≡ true → is_int_constant bits name ≡ some false
unfolding is_symbol is_int_constant signed_number skip_spaces magnitude
is_int_constant-symbol bits [] h = cc
is_int_constant-symbol bits (c ∷ cs) h = ground arith

-- A decimal number has none of the other characters.
digits_before-IsWord :
    (fuel n : ℕ) (rest : Text)
    → IsWord (b'(' ∷ b')' ∷ []) rest
    → IsWord (b'(' ∷ b')' ∷ []) (digits_before fuel n rest)
unfolding digits_before is_split_char
digits_before-IsWord zero n rest h = ground arith
digits_before-IsWord (suc fuel) n rest h = elim (Bool-cases (ltb n 10)) [
  | inl small ↦ rw small (ground arith)
  | inr big ↦ rw big (digits_before-IsWord fuel (n / 10) ((b'0' + n % 10) ∷ rest) (ground arith))
]

pub decimal-IsWord : (value : ℤ) → IsWord (b'(' ∷ b')' ∷ []) (decimal value)
unfolding is_split_char
decimal-IsWord (pos n) = digits_before-IsWord 9 n [] tt
decimal-IsWord (negsuc n) = (refl, refl, digits_before-IsWord 9 (suc n) [] tt)

digits_before-full : (fuel n : ℕ) (rest : Text) → is_empty (digits_before fuel n rest) ≡ false
unfolding digits_before
digits_before-full zero n rest = refl
digits_before-full (suc fuel) n rest =
    ground (arith, digits_before-full fuel (n / 10) ((b'0' + n % 10) ∷ rest))

pub decimal-full : (value : ℤ) → is_empty (decimal value) ≡ false
decimal-full (pos n) = digits_before-full 9 n []
decimal-full (negsuc n) = refl
