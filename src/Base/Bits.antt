-- ===== src/Base/Bits.antt =====
-- What `|`, `&` and `~` do to the digits of a number.
use Prim.Native.Nat.{
  ℕ, zero, suc, ◌+◌, ◌-◌, ◌*◌, ◌/◌, ◌%◌, ◌^◌, ◌≤◌, ◌<◌, min, max, digits, bit_and, bit_or,
  bit_and-bitwise, bit_or-bitwise,
}
use mathlib.Core.Path.{◌≡◌, refl, ap, ◌∙◌}
use native.Mathlib.Nat.{pow-suc, one-le-pow}
use native.Mathlib.Omega.{arith}

module _ (z : ℕ → ℕ) (f : ℕ → ℕ → ℕ) where
  -- More fuel than the first number's value changes nothing.
  digits_enough : (n m a b : ℕ) → a ≤ n → a ≤ m → digits z f n a b ≡ digits z f m a b
  digits_enough zero zero a b p q = refl
  digits_enough (suc n) zero zero b p q = refl
  digits_enough (suc n) zero (suc a) b p q = absurd (omega arith)
  digits_enough zero (suc m) zero b p q = refl
  digits_enough zero (suc m) (suc a) b p q = absurd (omega arith)
  digits_enough (suc n) (suc m) zero b p q = refl
  digits_enough (suc n) (suc m) (suc a) b p q =
      omega (arith, digits_enough n m (suc a / 2) (b / 2) (omega arith) (omega arith))

pub bit_and-halves : (a b : ℕ) → bit_and a b ≡ bit_and (a / 2) (b / 2) * 2 + min (a % 2) (b % 2)
bit_and-halves zero b = omega (arith, bit_and-bitwise 0 b, bit_and-bitwise 0 (b / 2))
bit_and-halves (suc a) b = omega (
  arith,
  bit_and-bitwise (suc a) b,
  bit_and-bitwise (suc a / 2) (b / 2),
  digits_enough (λ _. 0) min a (suc a / 2) (suc a / 2) (b / 2) (omega arith) (omega arith),
)

pub bit_or-halves : (a b : ℕ) → bit_or a b ≡ bit_or (a / 2) (b / 2) * 2 + max (a % 2) (b % 2)
bit_or-halves zero b = omega (arith, bit_or-bitwise 0 b, bit_or-bitwise 0 (b / 2))
bit_or-halves (suc a) b = omega (
  arith,
  bit_or-bitwise (suc a) b,
  bit_or-bitwise (suc a / 2) (b / 2),
  digits_enough (λ n. n) max a (suc a / 2) (suc a / 2) (b / 2) (omega arith) (omega arith),
)

double_shift : (q k : ℕ) → q * 2 ^ suc k ≡ 2 * (q * 2 ^ k)
double_shift q k = omega (arith, ap (λ (t : ℕ). q * t) (pow-suc 2 k))

-- Of a number below `2 ^ k` and a multiple of `2 ^ k`, `|` is the sum.
pub bit_or-add : (k r q : ℕ) → r < 2 ^ k → bit_or r (q * 2 ^ k) ≡ r + q * 2 ^ k
bit_or-add zero zero q h = omega (arith, bit_or-bitwise 0 (q * 1))
bit_or-add zero (suc r) q h = absurd (omega arith)
bit_or-add (suc k) r q h = omega (
  arith,
  bit_or-halves r (q * 2 ^ suc k),
  double_shift q k,
  pow-suc 2 k,
  ap (λ (t : ℕ). bit_or (r / 2) t)
      (let e : q * 2 ^ suc k / 2 ≡ q * 2 ^ k = omega (arith, double_shift q k) in e),
  bit_or-add k (r / 2) q (omega (arith, pow-suc 2 k)),
)

-- The digit of weight `2 ^ i`.
abbrev pub digit : ℕ → ℕ → ℕ
digit x zero = x % 2
digit x (suc i) = digit (x / 2) i

pub digit-bit_and : (a b i : ℕ) → digit (bit_and a b) i ≡ min (digit a i) (digit b i)
digit-bit_and a b zero = omega (arith, bit_and-halves a b)
digit-bit_and a b (suc i) =
    ap (λ t. digit t i)
      (let e : bit_and a b / 2 ≡ bit_and (a / 2) (b / 2) = omega (arith, bit_and-halves a b) in e)
    ∙ digit-bit_and (a / 2) (b / 2) i

-- Complement at `w` bits.
pub digit-complement : (w x i : ℕ) → x < 2 ^ w → i < w → digit (2 ^ w - 1 - x) i ≡ 1 - digit x i
digit-complement zero x i hx hi = absurd (omega arith)
digit-complement (suc w) x zero hx hi = omega (arith, pow-suc 2 w, one-le-pow w 2)
digit-complement (suc w) x (suc i) hx hi =
    ap (λ t. digit t i)
      (let e : (2 ^ suc w - 1 - x) / 2 ≡ 2 ^ w - 1 - x / 2 =
          omega (arith, pow-suc 2 w, one-le-pow w 2) in
        e)
    ∙ digit-complement w (x / 2) i (omega (arith, pow-suc 2 w)) (omega arith)

pub digit-le : (x i : ℕ) → digit x i ≤ 1
digit-le x zero = omega arith
digit-le x (suc i) = digit-le (x / 2) i

pub bit_and-le : (n a b : ℕ) → a ≤ n → bit_and a b ≤ a
bit_and-le n zero b h = omega (arith, bit_and-bitwise 0 b)
bit_and-le zero (suc a) b h = absurd (omega arith)
bit_and-le (suc n) (suc a) b h =
    omega (arith, bit_and-halves (suc a) b, bit_and-le n (suc a / 2) (b / 2) (omega arith))

pub digit-zero : (i : ℕ) → digit 0 i ≡ 0
digit-zero zero = refl
digit-zero (suc i) = digit-zero i

-- The digits of a number below `2 ^ w` end at `w`.
pub digit-above : (w x i : ℕ) → x < 2 ^ w → w ≤ i → digit x i ≡ 0
digit-above zero x i h p = ap (λ t. digit t i) (let e : x ≡ 0 = omega arith in e) ∙ digit-zero i
digit-above (suc w) x zero h p = absurd (omega arith)
digit-above (suc w) x (suc i) h p =
    digit-above w (x / 2) i (omega (arith, pow-suc 2 w)) (omega arith)

-- Numbers with the same digits are equal.
pub digit_ext :
    (w a b : ℕ) → a < 2 ^ w → b < 2 ^ w → ((i : ℕ) → i < w → digit a i ≡ digit b i) → a ≡ b
digit_ext zero a b ha hb e = omega arith
digit_ext (suc w) a b ha hb e = omega (
  arith,
  e 0 (omega arith),
  digit_ext w (a / 2) (b / 2) (omega (arith, pow-suc 2 w)) (omega (arith, pow-suc 2 w))
      (λ i h. e (suc i) (omega arith)),
)

bit_and_zero : (n a : ℕ) → a ≤ n → bit_and a 0 ≡ 0
bit_and_zero n zero h = bit_and-bitwise 0 0
bit_and_zero zero (suc a) h = absurd (omega arith)
bit_and_zero (suc n) (suc a) h =
    omega (arith, bit_and-halves (suc a) 0, bit_and_zero n (suc a / 2) (omega arith))

mod_double : (m a : ℕ) → 0 < m → a % (2 * m) ≡ a / 2 % m * 2 + a % 2
mod_double m a h = grind arith

-- `&` with a mask of `k` ones is the remainder by `2 ^ k`.
pub bit_and-mask : (k a : ℕ) → bit_and a (2 ^ k - 1) ≡ a % 2 ^ k
bit_and-mask zero a = omega (arith, bit_and_zero a a (omega arith))
bit_and-mask (suc k) a = omega (
  arith,
  bit_and-halves a (2 ^ suc k - 1),
  pow-suc 2 k,
  one-le-pow k 2,
  ap (λ (t : ℕ). bit_and (a / 2) t)
      (let e : (2 ^ suc k - 1) / 2 ≡ 2 ^ k - 1 = omega (arith, pow-suc 2 k, one-le-pow k 2) in e),
  bit_and-mask k (a / 2),
  mod_double (2 ^ k) a (one-le-pow k 2 (omega arith)),
  ap (λ (t : ℕ). a % t) (pow-suc 2 k),
  ap (λ (t : ℕ). a % t) (let e : 2 ^ k * 2 ≡ 2 * 2 ^ k = omega arith in e),
)
