-- ===== src/Assembler/Parser/Constants/Decimal.antt =====
-- Decimal numbers as text, and what the constants of Assembler/parser.cpp read from them.
use ecc_cpu.Base.{
  ℕ, zero, suc, ◌+◌, ◌*◌, ◌/◌, ◌%◌, ◌^◌, ◌<◌, ◌≤◌, Bool, true, false, ◌≡◌, ◌∙◌, refl, ltb, some, [],
  ◌∷◌, arith, if◌then◌else◌, ap, Bool-cases, inl, inr,
}
use ecc_cpu.Base.Int.{ℤ, pos, negsuc}
use ecc_cpu.Assembler.Text.{Text, is_digit, skip_spaces}
use ecc_cpu.Assembler.Parser.Constants.{
  number, digits_from, negate, fits_signed, in_range, magnitude, signed_number, string_to,
  is_int_constant, get_int_constant, narrow,
}

-- The digits of a number below `10 ^ (fuel + 1)`, before a text.
unfoldable pub digits_before : ℕ → ℕ → Text → Text
digits_before zero n rest = (b'0' + n % 10) ∷ rest
digits_before (suc fuel) n rest =
    let more = digits_before fuel (n / 10) ((b'0' + n % 10) ∷ rest) in
    if ltb n 10 then (b'0' + n) ∷ rest else more

-- Ten digits are enough below 2 ^ 31.
abbrev pub digits : ℕ → Text
digits n = digits_before 9 n []

abbrev pub decimal : ℤ → Text
decimal (pos n) = digits n
decimal (negsuc n) = b'-' ∷ digits (suc n)

digits_from-digit :
    (value d : ℕ) (rest : Text)
    → d < 10
    → digits_from value ((b'0' + d) ∷ rest) ≡ digits_from (value * 10 + d) rest
unfolding digits_from
digits_from-digit value d rest h = ground arith

power_suc : (fuel : ℕ) → 10 ^ suc (suc fuel) ≡ 10 * 10 ^ suc fuel
power_suc fuel = omega arith

digits_from-digits_before :
    (fuel n : ℕ) (rest : Text)
    → n < 10 ^ suc fuel
    → digits_from 0 (digits_before fuel n rest) ≡ digits_from n rest
unfolding digits_before
digits_from-digits_before zero n rest h =
    digits_from-digit 0 (n % 10) rest (omega arith)
    ∙ ap (λ (v : ℕ). digits_from v rest) (omega arith)
digits_from-digits_before (suc fuel) n rest h = elim (Bool-cases (ltb n 10)) [
  | inl small ↦
      rw small (
        digits_from-digit 0 n rest (ground arith)
        ∙ ap (λ (v : ℕ). digits_from v rest) (omega arith))
  | inr big ↦ rw big (
      digits_from-digits_before fuel (n / 10) ((b'0' + n % 10) ∷ rest)
        (omega (arith, power_suc fuel))
      ∙ digits_from-digit (n / 10) (n % 10) rest (omega arith)
      ∙ ap (λ (v : ℕ). digits_from v rest) (omega arith))
]

-- The first byte of a number is a digit.
abbrev StartsWithDigit : Text → Type 0
StartsWithDigit [] = ⊥
StartsWithDigit (c ∷ cs) = (48 ≤ c) × (c < 58)

digits_before-StartsWithDigit :
    (fuel n : ℕ) (rest : Text) → StartsWithDigit (digits_before fuel n rest)
unfolding digits_before
digits_before-StartsWithDigit zero n rest = omega arith
digits_before-StartsWithDigit (suc fuel) n rest =
    ground (arith, digits_before-StartsWithDigit fuel (n / 10) ((b'0' + n % 10) ∷ rest))

magnitude_lem :
    (negative : Bool) (text : Text) {n : ℕ}
    → StartsWithDigit text
    → digits_from 0 text ≡ (n, [])
    → magnitude 32 negative text ≡ in_range 32 (if negative then negate n else pos n) []
unfolding magnitude
magnitude_lem negative [] d e = absurd d
magnitude_lem negative (c ∷ cs) d e = let digit : is_digit c ≡ true = ground arith in rw (digit, e)

signed_number_lem :
    (text : Text) → StartsWithDigit text → string_to 32 text ≡ magnitude 32 false text
unfolding signed_number skip_spaces
signed_number_lem [] d = absurd d
signed_number_lem (c ∷ cs) d = ground arith

digits-read : (n : ℕ) → n < 10 ^ 10 → digits_from 0 (digits n) ≡ (n, [])
unfolding digits_from
digits-read n h = digits_from-digits_before 9 n [] h

pub string_to-decimal :
    (value : ℤ) → fits_signed 32 value ≡ true → string_to 32 (decimal value) ≡ number value []
unfolding signed_number skip_spaces
string_to-decimal (pos n) h =
    signed_number_lem (digits n) (digits_before-StartsWithDigit 9 n [])
    ∙ magnitude_lem false (digits n) (digits_before-StartsWithDigit 9 n [])
        (digits-read n (ground arith))
    ∙ rw h
string_to-decimal (negsuc n) h =
    magnitude_lem true (digits (suc n)) (digits_before-StartsWithDigit 9 (suc n) [])
      (digits-read (suc n) (ground arith))
    ∙ rw h

module _ (bits : ℕ) (value : ℤ) (narrows : narrow bits value ≡ value)
    (fits : fits_signed bits value ≡ true) (int : fits_signed 32 value ≡ true) where
  pub is_int_constant-decimal : is_int_constant bits (decimal value) ≡ some true
  unfolding is_int_constant
  is_int_constant-decimal = simp (string_to-decimal value int, fits) refl

  pub get_int_constant-decimal : get_int_constant bits (decimal value) ≡ some value
  unfolding get_int_constant
  get_int_constant-decimal = simp (string_to-decimal value int) (rw narrows)
