-- ===== src/Assembler/Parser/CodeLine.antt =====
-- Assembler/parser.cpp: `Program::Add` and `Program::parseCodeLine`; the class `Program` of
-- Assembler/include/Assembler.h.
use ecc_cpu.Base.{
  ℕ, ◌-◌, Bool, true, false, ◌==◌, if◌then◌else◌, Option, none, some, ◌>>=◌, List, [], ◌∷◌, ◌++◌,
  length, take, get_elem?,
}
use ecc_cpu.Base.Int.{ℤ, pos}
use ecc_cpu.Defines.{RegisterId, reg_block_index}
use ecc_cpu.Assembler.Insns.{
  Mnemonic, AddressPart, lo, mid, hi, Insn, add_reg_reg_const, add_reg_reg_reg, cmp_reg_reg,
  halt_insn, jump, load_addr, load_register, move_reg_block_index, move_reg_const, move_reg_reg,
  move_reg_symbol, restore_pc, shl_reg_reg_const, store_register,
}
use ecc_cpu.Assembler.Linker.{Instruction, DataObject, Dict}
use ecc_cpu.Assembler.Text.{Text, codes, ends_with}
use ecc_cpu.Assembler.Parser.Tokens.{tokenize, code_line_split_chars}
use ecc_cpu.Assembler.Parser.Constants.{
  is_int16_constant, is_int8_constant, get_int16_constant, get_int8_constant, is_symbol,
}
use ecc_cpu.Assembler.Parser.Registers.{is_register, get_register_id}
use ecc_cpu.Assembler.Parser.Opcodes.{string_to_opcode}

-- With the global `regnames`, and the lines for which `pos.error` was called, the last first.
pub record Program : Type 0 where
  pub objects : List DataObject
  pub insns : List Instruction
  pub last_seen_label : Text
  pub regnames : Dict
  pub errors : List ℕ

-- `Program::Add` of the instruction that a constructor makes.
abbrev pub add_insn : Insn → Program → Program
add_insn insn p = record p {
  insns = p.insns ++ (record { label = p.last_seen_label; address = 0; insn = insn }) ∷ [];
  last_seen_label = [];
}

abbrev pub error : ℕ → Program → Program
error line p = record p { errors = line ∷ p.errors }

-- `toks[i]`, which is undefined out of range.
abbrev pub token : List Text → ℕ → Option Text
token = get_elem?

-- `isRegister(toks[i])`, and its `&&` with a test that is not evaluated after a false one.
abbrev pub register_at : Program → List Text → ℕ → Option Bool
register_at p toks i = token toks i >>= λ t. some (is_register p.regnames t)

abbrev pub and_then : Option Bool → Option Bool → Option Bool
and_then none b = none
and_then (some true) b = b
and_then (some false) b = some false

abbrev pub constant_at : (Text → Option Bool) → List Text → ℕ → Option Bool
constant_at is_constant toks i = token toks i >>= is_constant

-- `getRegisterID(toks[i])`, with the names that the map then has.
abbrev pub take_register : List Text → ℕ → Program → Option (Program × RegisterId)
take_register toks i p = do
  t ← token toks i
  let (names, id) = get_register_id p.regnames t
  some (record p { regnames = names }, id)

-- The result of `parse_memory_access`: the register with the offset.
abbrev pub parse_memory_access : Text → Program → Option (Program × RegisterId × ℤ)
parse_memory_access t1 p = do
  let s = tokenize t1 (b'(' ∷ b')' ∷ [])
  s0 ← token s 0
  off ← get_int16_constant s0
  (p', reg) ← take_register s 1 p
  some (p', reg, off)

abbrev pub parse_load_addr : AddressPart → List Text → Program → Option Program
parse_load_addr type toks p = do name ← token toks 2; some (add_insn (load_addr type name 0) p)

abbrev pub parse_jump : Mnemonic → List Text → Program → Option Program
parse_jump op toks p = do l ← token toks 1; some (add_insn (jump l (pos 0) op) p)

-- The two operands of an instruction on registers.
abbrev pub add_reg_reg : (RegisterId → RegisterId → Insn) → List Text → Program → Option Program
add_reg_reg insn toks p = do
  (p1, a) ← take_register toks 1 p
  (p2, b) ← take_register toks 2 p1
  some (add_insn (insn a b) p2)

abbrev pub add_reg_reg_int8 :
    (RegisterId → RegisterId → ℤ → Insn) → List Text → Program → Option Program
add_reg_reg_int8 insn toks p = do
  (p1, a) ← take_register toks 1 p
  (p2, b) ← take_register toks 2 p1
  t ← token toks 3
  c ← get_int8_constant t
  some (add_insn (insn a b c) p2)

unfoldable pub parse_cmp : List Text → ℕ → Program → Option Program
parse_cmp toks line p = do
  ok ← and_then (register_at p toks 1) (register_at p toks 2)
  if ok then add_reg_reg cmp_reg_reg toks p else some (error line p)

unfoldable pub parse_shl : List Text → ℕ → Program → Option Program
parse_shl toks line p = do
  ok ←
      and_then (register_at p toks 1)
        (and_then (register_at p toks 2) (constant_at is_int8_constant toks 3))
  if ok then add_reg_reg_int8 shl_reg_reg_const toks p else some (error line p)

abbrev pub add_move_const : List Text → Program → Option Program
add_move_const toks p = do
  (p1, dst) ← take_register toks 1 p
  t ← token toks 2
  c ← get_int16_constant t
  some (add_insn (move_reg_const dst c) p1)

abbrev pub add_move_reg : List Text → Program → Option Program
add_move_reg toks p = do
  (p1, src) ← take_register toks 2 p
  if src == reg_block_index
      then add_reg_reg move_reg_block_index toks p1
      else add_reg_reg move_reg_reg toks p1

abbrev pub add_move_symbol : List Text → Program → Option Program
add_move_symbol toks p = do
  (p1, dst) ← take_register toks 1 p
  symbol ← token toks 2
  some (add_insn (move_reg_symbol dst symbol (pos 0)) p1)

abbrev pub symbol_at : List Text → ℕ → Option Bool
symbol_at toks i = token toks i >>= λ t. some (is_symbol t)

unfoldable pub parse_mov : List Text → ℕ → Program → Option Program
parse_mov toks line p = do
  to_const ← and_then (register_at p toks 1) (constant_at is_int16_constant toks 2)
  to_reg ← and_then (register_at p toks 1) (register_at p toks 2)
  to_symbol ← and_then (register_at p toks 1) (symbol_at toks 2)
  if to_const
      then add_move_const toks p
      else if to_reg
      then add_move_reg toks p
      else if to_symbol
      then add_move_symbol toks p
      else some (error line p)

unfoldable pub parse_store : List Text → Program → Option Program
parse_store toks p = do
  t ← token toks 1
  (p1, base_reg, offset) ← parse_memory_access t p
  (p2, src_reg) ← take_register toks 2 p1
  some (add_insn (store_register base_reg offset src_reg) p2)

unfoldable pub parse_load : List Text → Program → Option Program
parse_load toks p = do
  (p1, dest_reg) ← take_register toks 1 p
  t ← token toks 2
  (p2, base_reg, offset) ← parse_memory_access t p1
  some (add_insn (load_register dest_reg base_reg offset) p2)

unfoldable pub parse_restore_pc : List Text → Program → Option Program
parse_restore_pc toks p = do
  t ← token toks 1
  (p1, base_reg, offset) ← parse_memory_access t p
  some (add_insn (restore_pc base_reg offset) p1)

abbrev pub add_three_regs : List Text → Program → Option Program
add_three_regs toks p = do
  (p1, a) ← take_register toks 1 p
  (p2, b) ← take_register toks 2 p1
  (p3, c) ← take_register toks 3 p2
  some (add_insn (add_reg_reg_reg a b c) p3)

-- The registers of the first test are tested again by the second.
unfoldable pub parse_add : List Text → ℕ → Program → Option Program
parse_add toks line p =
    if length toks == 4
    then (do
      with_const ←
          and_then (register_at p toks 1)
            (and_then (register_at p toks 2) (constant_at is_int8_constant toks 3))
      with_reg ←
          and_then (register_at p toks 1) (and_then (register_at p toks 2) (register_at p toks 3))
      if with_const
          then add_reg_reg_int8 add_reg_reg_const toks p
          else if with_reg
          then add_three_regs toks p
          else some (error line p))
    else some (error line p)

-- The switch of `parseCodeLine`; `NOP` falls to its default case.
unfoldable pub parse_insn : Mnemonic → List Text → ℕ → Program → Option Program
parse_insn Mnemonic.halt toks line p = some (add_insn halt_insn p)
parse_insn Mnemonic.load_addr_lo toks line p = parse_load_addr lo toks p
parse_insn Mnemonic.load_addr_mid toks line p = parse_load_addr mid toks p
parse_insn Mnemonic.load_addr_hi toks line p = parse_load_addr hi toks p
parse_insn Mnemonic.jmp toks line p = parse_jump Mnemonic.jmp toks p
parse_insn Mnemonic.je toks line p = parse_jump Mnemonic.je toks p
parse_insn Mnemonic.jne toks line p = parse_jump Mnemonic.jne toks p
parse_insn Mnemonic.jg toks line p = parse_jump Mnemonic.jg toks p
parse_insn Mnemonic.jge toks line p = parse_jump Mnemonic.jge toks p
parse_insn Mnemonic.jl toks line p = parse_jump Mnemonic.jl toks p
parse_insn Mnemonic.jle toks line p = parse_jump Mnemonic.jle toks p
parse_insn Mnemonic.cmp toks line p = parse_cmp toks line p
parse_insn Mnemonic.shl toks line p = parse_shl toks line p
parse_insn Mnemonic.mov toks line p = parse_mov toks line p
parse_insn Mnemonic.store toks line p = parse_store toks p
parse_insn Mnemonic.load toks line p = parse_load toks p
parse_insn Mnemonic.load_restore_pc toks line p = parse_restore_pc toks p
parse_insn Mnemonic.add toks line p = parse_add toks line p
parse_insn Mnemonic.nop toks line p = some (error line p)

-- `stringToOpcode` reports an unknown name, and the switch then `NOP`.
abbrev pub parse_opcode : Option Mnemonic → List Text → ℕ → Program → Option Program
parse_opcode none toks line p = parse_insn Mnemonic.nop toks line (error line p)
parse_opcode (some op) toks line p = parse_insn op toks line p

-- `line.data.substr(0, line.data.size() - 1)`
abbrev pub label_of : Text → Text
label_of data' = take (length data' - 1) data'

unfoldable pub parse_code_line : Text → ℕ → Program → Option Program
parse_code_line data' line p =
    if ends_with data' (codes ":")
    then some (record p { last_seen_label = label_of data' })
    else (do
      let toks = tokenize data' code_line_split_chars
      t0 ← token toks 0
      parse_opcode (string_to_opcode t0) toks line p)
