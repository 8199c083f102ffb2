-- ===== src/Assembler/Parser/Bounds.antt =====
-- The bounds of what Assembler/parser.cpp makes of the operands of an instruction.
use ecc_cpu.Base.{ℕ, ◌<◌, ◌≡◌, refl, true, ◌⊎◌, inl, inr, Option-cases, none, some, [], ◌∷◌, arith}
use ecc_cpu.Base.Int.{ℤ, pos, negsuc}
use ecc_cpu.Defines.{RegisterId, max_reg_id}
use ecc_cpu.Assembler.Insns.{
  Insn, add_reg_reg_const, add_reg_reg_reg, cmp_reg_reg, halt_insn, jump, load_addr, load_register,
  move_reg_block_index, move_reg_const, move_reg_reg, move_reg_symbol, restore_pc,
  shl_reg_reg_const, store_register,
}
use ecc_cpu.Assembler.Linker.{Dict, find}
use ecc_cpu.Assembler.Text.{Text}
use ecc_cpu.Assembler.Parser.Constants.{
  Parsed, number, invalid_argument, out_of_range, fits_signed, narrow, string_to, get_int_constant,
}
use ecc_cpu.Assembler.Parser.Registers.{get_register_id}

abbrev pub IsRegister : RegisterId → Type 0
IsRegister id = id < max_reg_id

abbrev pub Fits : ℕ → ℤ → Type 0
Fits bits value = fits_signed bits value ≡ true

-- The names that the parser knows stand for registers.
abbrev pub NamesRegisters : Dict → Type 0
NamesRegisters [] = Unit
NamesRegisters ((name, id) ∷ names) = IsRegister id × NamesRegisters names

-- The operands are registers of the machine and constants of the width of their fields in the
-- source's classes, and what the linker sets is still 0.
abbrev pub IsInBounds : Insn → Type 0
IsInBounds (add_reg_reg_const d s c) = IsRegister d × IsRegister s × Fits 8 c
IsInBounds (add_reg_reg_reg d s t) = IsRegister d × IsRegister s × IsRegister t
IsInBounds (cmp_reg_reg d s) = IsRegister d × IsRegister s
IsInBounds halt_insn = Unit
IsInBounds (jump label dest m) = dest ≡ pos 0
IsInBounds (load_addr part name address) = address ≡ 0
IsInBounds (load_register d b c) = IsRegister d × IsRegister b × Fits 16 c
IsInBounds (move_reg_block_index d s) = IsRegister d × IsRegister s
IsInBounds (move_reg_const d c) = IsRegister d × Fits 16 c
IsInBounds (move_reg_reg d s) = IsRegister d × IsRegister s
IsInBounds (move_reg_symbol d symbol c) = IsRegister d × (c ≡ pos 0)
IsInBounds (restore_pc r c) = IsRegister r × Fits 16 c
IsInBounds (shl_reg_reg_const d s c) = IsRegister d × IsRegister s × Fits 8 c
IsInBounds (store_register b c s) = IsRegister b × Fits 16 c × IsRegister s

find-IsRegister :
    (names : Dict) (name : Text) (id : RegisterId)
    → find names name ≡ some id
    → NamesRegisters names
    → IsRegister id
unfolding find
find-IsRegister [] name id e h = cc
find-IsRegister ((key, k) ∷ names) name id e h = ground (arith, find-IsRegister names name id)

pub get_register_id-IsRegister :
    (names : Dict) (name : Text)
    → NamesRegisters names
    → NamesRegisters (get_register_id names name).0 × IsRegister (get_register_id names name).1
unfolding get_register_id find
get_register_id-IsRegister names name h = elim (Option-cases (find names name)) [
  | inl missing ↦ rw missing ((omega arith, h), omega arith)
  | inr (id, found) ↦ rw found (h, find-IsRegister names name id found h)
]

pub narrow-fits8 : (value : ℤ) → Fits 8 (narrow 8 value)
narrow-fits8 (pos n) = ground arith
narrow-fits8 (negsuc n) = ground arith

pub narrow-fits16 : (value : ℤ) → Fits 16 (narrow 16 value)
narrow-fits16 (pos n) = ground arith
narrow-fits16 (negsuc n) = ground arith

pub get_int_constant-cases :
    (bits : ℕ) (t : Text)
    → (get_int_constant bits t ≡ none)
      ⊎ ((v : ℤ) × (get_int_constant bits t ≡ some (narrow bits v)))
unfolding get_int_constant
get_int_constant-cases bits t = by (string_to 32 t) refl
  where
    by :
        (r : Parsed)
        → string_to 32 t ≡ r
        → (get_int_constant bits t ≡ none)
          ⊎ ((v : ℤ) × (get_int_constant bits t ≡ some (narrow bits v)))
    by invalid_argument e = inl (rw e)
    by out_of_range e = inl (rw e)
    by (number v rest) e = inr (v, rw e)
