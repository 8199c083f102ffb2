-- ===== src/Assembler/Words.antt =====
-- The byte fields of an instruction word, as the decode stage takes it apart again.
use ecc_cpu.Base.{
  ℕ, ◌+◌, ◌*◌, ◌%◌, ◌^◌, ◌<◌, ◌≡◌, ◌∙◌, ap, arith, bit_or, bit_or-add, ◌<<<◌, ◌>>>◌, u8, u16, u32,
}
use ecc_cpu.Assembler.Insns.{word1, word2, word3}

pub word1-add : (op x : ℕ) → op < 256 → word1 op x ≡ op + x % 2 ^ 24 * 2 ^ 8
word1-add op x h =
    ap (bit_or op) (let e : u32 (x <<< 8) ≡ x % 2 ^ 24 * 2 ^ 8 = omega arith in e)
    ∙ bit_or-add 8 op (x % 2 ^ 24) h

pub word2-add :
    (op x y : ℕ) → op < 256 → x < 256 → word2 op x y ≡ op + x * 2 ^ 8 + y % 2 ^ 16 * 2 ^ 16
word2-add op x y h hx =
    ap₂' (word1-add op x h ∙ small)
      (let e : u32 (y <<< 16) ≡ y % 2 ^ 16 * 2 ^ 16 = omega arith in e)
    ∙ bit_or-add 16 (op + x * 2 ^ 8) (y % 2 ^ 16) (omega arith)
  where
    small : op + x % 2 ^ 24 * 2 ^ 8 ≡ op + x * 2 ^ 8
    small = omega arith

    ap₂' : {a b c d : ℕ} → a ≡ b → c ≡ d → bit_or a c ≡ bit_or b d
    ap₂' p q = cc

pub word3-add :
    (op x y z : ℕ)
    → op < 256
    → x < 256
    → y < 256
    → word3 op x y z ≡ op + x * 2 ^ 8 + y * 2 ^ 16 + z % 2 ^ 8 * 2 ^ 24
word3-add op x y z h hx hy =
    rest (word2-add op x y h hx ∙ small)
      (let e : u32 (z <<< 24) ≡ z % 2 ^ 8 * 2 ^ 24 = omega arith in e)
    ∙ bit_or-add 24 (op + x * 2 ^ 8 + y * 2 ^ 16) (z % 2 ^ 8) (omega arith)
  where
    small : op + x * 2 ^ 8 + y % 2 ^ 16 * 2 ^ 16 ≡ op + x * 2 ^ 8 + y * 2 ^ 16
    small = omega arith

    rest : {a b c d : ℕ} → a ≡ b → c ≡ d → bit_or a c ≡ bit_or b d
    rest p q = cc

-- What the decode stage reads from the three layouts.
pub word1_fields : (op x : ℕ) → op < 256 → (u8 (word1 op x) ≡ op) × (word1 op x >>> 8 ≡ x % 2 ^ 24)
word1_fields op x h = omega (arith, word1-add op x h)

pub word2_fields :
    (op x y : ℕ)
    → op < 256
    → x < 256
    → (u8 (word2 op x y) ≡ op)
      × (u8 (word2 op x y >>> 8) ≡ x)
      × (u8 (word2 op x y >>> 16) ≡ y % 2 ^ 8)
      × (u16 (word2 op x y >>> 16) ≡ y % 2 ^ 16)
word2_fields op x y h hx = omega (arith, word2-add op x y h hx)

pub word3_fields :
    (op x y z : ℕ)
    → op < 256
    → x < 256
    → y < 256
    → (u8 (word3 op x y z) ≡ op)
      × (u8 (word3 op x y z >>> 8) ≡ x)
      × (u8 (word3 op x y z >>> 16) ≡ y)
      × (word3 op x y z >>> 24 ≡ z % 2 ^ 8)
word3_fields op x y z h hx hy = omega (arith, word3-add op x y z h hx hy)
