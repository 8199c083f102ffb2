-- ===== src/Assembler/Parser/Spells.antt =====
-- The assembly language: the words of each instruction, independently of Assembler/parser.cpp, and
-- what `parseCodeLine` makes of them.
pub mod Reads
use ecc_cpu.Base.{◌==◌, ◌≡◌, true, false, Option, none, some, List, [], ◌∷◌}
use ecc_cpu.Base.Int.{ℤ, pos}
use ecc_cpu.Defines.{RegisterId, reg_block_index}
use ecc_cpu.Assembler.Insns.{
  Mnemonic, AddressPart, lo, mid, hi, Insn, add_reg_reg_const, add_reg_reg_reg, cmp_reg_reg,
  halt_insn, jump, load_addr, load_register, move_reg_block_index, move_reg_const, move_reg_reg,
  move_reg_symbol, restore_pc, shl_reg_reg_const, store_register,
}
use ecc_cpu.Assembler.Linker.{Dict, find}
use ecc_cpu.Assembler.Text.{Text, codes}
use ecc_cpu.Assembler.Parser.Tokens.Layout.{IsWord, layout}
use ecc_cpu.Assembler.Parser.Constants.{is_symbol, fits_signed}
use ecc_cpu.Assembler.Parser.Constants.Decimal.{decimal}

abbrev pub jump_name : Mnemonic → Option Text
jump_name Mnemonic.jmp = some (codes "jmp")
jump_name Mnemonic.je = some (codes "je")
jump_name Mnemonic.jne = some (codes "jne")
jump_name Mnemonic.jg = some (codes "jg")
jump_name Mnemonic.jge = some (codes "jge")
jump_name Mnemonic.jl = some (codes "jl")
jump_name Mnemonic.jle = some (codes "jle")
jump_name _ = none

abbrev pub part_name : AddressPart → Text
part_name lo = codes "loadaddress_lo"
part_name mid = codes "loadaddress_mid"
part_name hi = codes "loadaddress_hi"

abbrev pub parens : Text
parens = b'(' ∷ b')' ∷ []

-- A register operand is a percent sign with a name.
abbrev pub register : Text → Text
register name = b'%' ∷ name

-- `offset(%name)`
abbrev pub memory : ℤ → Text → Text
memory offset name = layout ((decimal offset, b'(' ∷ []) ∷ (register name, b')' ∷ []) ∷ [])

-- `names` gives the numbers of the registers.
pub data Spells (names : Dict) : List Text → Insn → Type 0 where
  spells_halt : Spells names (codes "halt" ∷ []) halt_insn
  spells_jump :
      (op label : Text) (m : Mnemonic)
      → jump_name m ≡ some op
      → Spells names (op ∷ label ∷ []) (jump label (pos 0) m)
  spells_load_addr :
      (dest symbol : Text) (part : AddressPart)
      → Spells names (part_name part ∷ dest ∷ symbol ∷ []) (load_addr part symbol 0)
  spells_cmp :
      (a b : Text) (d s : RegisterId)
      → find names (register a) ≡ some d
      → find names (register b) ≡ some s
      → Spells names (codes "cmp" ∷ register a ∷ register b ∷ []) (cmp_reg_reg d s)
  spells_shl :
      (a b : Text) (d s : RegisterId) (c : ℤ)
      → find names (register a) ≡ some d
      → find names (register b) ≡ some s
      → fits_signed 8 c ≡ true
      → Spells names
          (codes "shl" ∷ register a ∷ register b ∷ decimal c ∷ [])
          (shl_reg_reg_const d s c)
  spells_mov_const :
      (a : Text) (d : RegisterId) (c : ℤ)
      → find names (register a) ≡ some d
      → fits_signed 16 c ≡ true
      → Spells names (codes "mov" ∷ register a ∷ decimal c ∷ []) (move_reg_const d c)
  spells_mov_reg :
      (a b : Text) (d s : RegisterId)
      → find names (register a) ≡ some d
      → find names (register b) ≡ some s
      → (s == reg_block_index) ≡ false
      → Spells names (codes "mov" ∷ register a ∷ register b ∷ []) (move_reg_reg d s)
  spells_mov_block_index :
      (a b : Text) (d s : RegisterId)
      → find names (register a) ≡ some d
      → find names (register b) ≡ some s
      → (s == reg_block_index) ≡ true
      → Spells names (codes "mov" ∷ register a ∷ register b ∷ []) (move_reg_block_index d s)
  spells_mov_symbol :
      (a symbol : Text) (d : RegisterId)
      → find names (register a) ≡ some d
      → is_symbol symbol ≡ true
      → find names symbol ≡ none
      → Spells names (codes "mov" ∷ register a ∷ symbol ∷ []) (move_reg_symbol d symbol (pos 0))
  spells_store :
      (a b : Text) (base s : RegisterId) (offset : ℤ)
      → fits_signed 16 offset ≡ true
      → find names (register a) ≡ some base
      → IsWord parens a
      → find names (register b) ≡ some s
      → Spells names
          (codes "store" ∷ memory offset a ∷ register b ∷ [])
          (store_register base offset s)
  spells_load :
      (a b : Text) (base d : RegisterId) (offset : ℤ)
      → fits_signed 16 offset ≡ true
      → find names (register a) ≡ some base
      → IsWord parens a
      → find names (register b) ≡ some d
      → Spells names
          (codes "load" ∷ register b ∷ memory offset a ∷ [])
          (load_register d base offset)
  spells_restore_pc :
      (a : Text) (base : RegisterId) (offset : ℤ)
      → fits_signed 16 offset ≡ true
      → find names (register a) ≡ some base
      → IsWord parens a
      → Spells names (codes "restorepc" ∷ memory offset a ∷ []) (restore_pc base offset)
  spells_add_const :
      (a b : Text) (d s : RegisterId) (c : ℤ)
      → find names (register a) ≡ some d
      → find names (register b) ≡ some s
      → fits_signed 8 c ≡ true
      → Spells names
          (codes "add" ∷ register a ∷ register b ∷ decimal c ∷ [])
          (add_reg_reg_const d s c)
  spells_add_reg :
      (a b e : Text) (d s t : RegisterId)
      → find names (register a) ≡ some d
      → find names (register b) ≡ some s
      → find names (register e) ≡ some t
      → Spells names
          (codes "add" ∷ register a ∷ register b ∷ register e ∷ [])
          (add_reg_reg_reg d s t)
