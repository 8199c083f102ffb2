-- ===== src/Base/Words.antt =====
-- Machine integers as native numbers: a cast or a wrap is a remainder, a shift a product or a
-- quotient. A signed integer is its two's complement bit pattern.
use Prim.Native.Nat.{ℕ, ◌+◌, ◌-◌, ◌*◌, ◌/◌, ◌%◌, ◌^◌}
use mathlib.Core.Bool.{Bool, true, false}
use ecc_cpu.Base.Tests.{ltb, if◌then◌else◌}

abbrev pub u8 : ℕ → ℕ
u8 n = n % 2 ^ 8

abbrev pub u16 : ℕ → ℕ
u16 n = n % 2 ^ 16

abbrev pub u32 : ℕ → ℕ
u32 n = n % 2 ^ 32

abbrev pub u64 : ℕ → ℕ
u64 n = n % 2 ^ 64

-- `x << k` before its wrap, and `x >> k` of an unsigned `x`
infixl 75 ◌<<<◌ ◌>>>◌
abbrev pub ◌<<<◌ : ℕ → ℕ → ℕ
x <<< k = x * 2 ^ k

abbrev pub ◌>>>◌ : ℕ → ℕ → ℕ
x >>> k = x / 2 ^ k

-- The `int64_t` that an `int8_t`, `int16_t` or `int32_t` of these low bits is converted to.
abbrev pub int8 : ℕ → ℕ
int8 n = if ltb (u8 n) (2 ^ 7) then u8 n else u8 n + (2 ^ 64 - 2 ^ 8)

abbrev pub int16 : ℕ → ℕ
int16 n = if ltb (u16 n) (2 ^ 15) then u16 n else u16 n + (2 ^ 64 - 2 ^ 16)

abbrev pub int32 : ℕ → ℕ
int32 n = if ltb (u32 n) (2 ^ 31) then u32 n else u32 n + (2 ^ 64 - 2 ^ 32)

-- `~x` at 64 bits
abbrev pub bit_not : ℕ → ℕ
bit_not x = 2 ^ 64 - 1 - x

abbrev pub bool_bit : Bool → ℕ
bool_bit true = 1
bool_bit false = 0
