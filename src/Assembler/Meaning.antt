-- ===== src/Assembler/Meaning.antt =====
-- What each instruction of the assembler asks of the execute stage, in terms of its operands and
-- not of the instruction word: the specification of encoder and decoder together.
use ecc_cpu.Base.{ℕ, ◌+◌, ◌/◌, ◌%◌, ◌^◌, ◌<◌, u64, Option, none, some, ◌>>=◌}
use ecc_cpu.Base.Int.{ℤ, pos, negsuc, to_u64}
use ecc_cpu.Defines.{RegisterId, reg_r0, Opcode, ExecuteStageOpcode}
use ecc_cpu.VectorValue.{create_vec_int64, create_vec_incrementing_values}
use ecc_cpu.RegisterFile.{RegisterFile, get}
use ecc_cpu.Bus.DecodeToExecuteBus.{
  DecodeToExecuteBus, send_req0, send_req1, send_req2_reg, send_req2_vec, send_req3_reg,
  send_req3_vec,
}
use ecc_cpu.Stage.Decode.{Outcome, finish, wait_for, wait_for2, get_expected_cond_jump_flags_mask}
use ecc_cpu.Assembler.Insns.{
  Mnemonic, Insn, lo, mid, hi, add_reg_reg_const, add_reg_reg_reg, cmp_reg_reg, halt_insn, jump,
  load_addr, load_register, move_reg_block_index, move_reg_const, move_reg_reg, move_reg_symbol,
  restore_pc, shl_reg_reg_const, store_register,
}

-- The integer fits a signed field of `w + 1` bits.
abbrev pub FitsSigned : ℕ → ℤ → Type 0
FitsSigned w (pos n) = n < 2 ^ w
FitsSigned w (negsuc n) = n < 2 ^ w

-- The integer fits an unsigned field of `w` bits.
abbrev pub FitsUnsigned : ℕ → ℤ → Type 0
FitsUnsigned w (pos n) = n < 2 ^ w
FitsUnsigned w (negsuc n) = ⊥

abbrev pub IsJump : Mnemonic → Type 0
IsJump Mnemonic.jmp = Unit {0}
IsJump Mnemonic.je = Unit {0}
IsJump Mnemonic.jne = Unit {0}
IsJump Mnemonic.jl = Unit {0}
IsJump Mnemonic.jle = Unit {0}
IsJump Mnemonic.jg = Unit {0}
IsJump Mnemonic.jge = Unit {0}
IsJump _ = ⊥

-- The operands fit the fields of the word. The fields of a load's and a store's offset and of the
-- two distances are read back as unsigned.
abbrev pub IsEncodable : Insn → Type 0
IsEncodable (add_reg_reg_const dst src1 src2) = (dst < 256) × (src1 < 256) × FitsSigned 7 src2
IsEncodable (add_reg_reg_reg dst src1 src2) = (dst < 256) × (src1 < 256) × (src2 < 256)
IsEncodable (cmp_reg_reg dst src) = (dst < 256) × (src < 256)
IsEncodable halt_insn = Unit {0}
IsEncodable (jump label dest mnemonic) = FitsUnsigned 24 dest × IsJump mnemonic
IsEncodable (load_addr type name address) = address < 2 ^ 64
IsEncodable (load_register dest base offset) = (dest < 256) × (base < 256) × FitsUnsigned 8 offset
IsEncodable (move_reg_block_index dst src) = (dst < 256) × (src < 256)
IsEncodable (move_reg_const dst src) = (dst < 256) × FitsSigned 15 src
IsEncodable (move_reg_reg dst src) = (dst < 256) × (src < 256)
IsEncodable (move_reg_symbol dest symbol src) = (dest < 256) × FitsUnsigned 16 src
IsEncodable (restore_pc reg offset) = (reg < 256) × FitsSigned 15 offset
IsEncodable (shl_reg_reg_const dst src bits) = (dst < 256) × (src < 256) × FitsSigned 7 bits
IsEncodable (store_register base_reg offset src_reg) =
    (base_reg < 256) × (src_reg < 256) × FitsUnsigned 8 offset

-- The conditional jump that a mnemonic names.
abbrev pub jump_condition : Mnemonic → Option Opcode
jump_condition Mnemonic.je = some Opcode.jmp_equal
jump_condition Mnemonic.jne = some Opcode.jmp_not_equal
jump_condition Mnemonic.jl = some Opcode.jmp_lower
jump_condition Mnemonic.jle = some Opcode.jmp_lower_equal
jump_condition Mnemonic.jg = some Opcode.jmp_greater
jump_condition Mnemonic.jge = some Opcode.jmp_greater_equal
jump_condition _ = none

module _ (mask pc : ℕ) (bus : DecodeToExecuteBus) (regs : RegisterFile) where
  abbrev pub jump_meaning : ℤ → Option Opcode → Option Outcome
  jump_meaning dest none =
      finish (send_req1 bus mask pc ExecuteStageOpcode.jmp (create_vec_int64 (to_u64 dest)))
  jump_meaning dest (some op) = get_expected_cond_jump_flags_mask op >>= λ expected. finish (
      send_req2_vec bus mask pc ExecuteStageOpcode.cond_jmp (create_vec_int64 (to_u64 dest))
        (create_vec_int64 expected))

  -- r0 with the part of the address joined to it.
  abbrev pub join_r0 : ExecuteStageOpcode → ℕ → Option Outcome
  join_r0 op part = wait_for regs reg_r0 do
    r0 ← get regs reg_r0
    finish (send_req3_reg bus mask pc op reg_r0 (create_vec_int64 part) r0)

  abbrev pub with_const : ExecuteStageOpcode → RegisterId → RegisterId → ℤ → Option Outcome
  with_const op dst src c =
      wait_for regs src do
        a ← get regs src
        finish (send_req3_reg bus mask pc op dst a (create_vec_int64 (to_u64 c)))

  abbrev pub meaning : Insn → Option Outcome
  meaning (add_reg_reg_const dst src1 src2) =
      with_const ExecuteStageOpcode.add_reg_value_value dst src1 src2
  meaning (add_reg_reg_reg dst src1 src2) = wait_for2 regs src1 src2 do
    a ← get regs src1
    b ← get regs src2
    finish (send_req3_reg bus mask pc ExecuteStageOpcode.add_reg_value_value dst a b)
  meaning (cmp_reg_reg dst src) = wait_for2 regs dst src do
    a ← get regs dst
    b ← get regs src
    finish (send_req2_vec bus mask pc ExecuteStageOpcode.cmp a b)
  meaning halt_insn = finish (send_req0 bus mask pc ExecuteStageOpcode.halt)
  meaning (jump label dest mnemonic) = jump_meaning dest (jump_condition mnemonic)
  meaning (load_addr lo name address) = finish (
      send_req2_reg bus mask pc ExecuteStageOpcode.move_reg_value reg_r0
        (create_vec_int64 (address % 2 ^ 24)))
  meaning (load_addr mid name address) =
      join_r0 ExecuteStageOpcode.orb_reg_value (address / 2 ^ 24 % 2 ^ 24)
  meaning (load_addr hi name address) = join_r0 ExecuteStageOpcode.orc_reg_value (address / 2 ^ 48)
  meaning (load_register dest base offset) = wait_for regs base do
    b ← get regs base
    finish (
        send_req3_reg bus mask pc ExecuteStageOpcode.load_reg dest
          (create_vec_int64 (to_u64 offset)) b)
  meaning (move_reg_block_index dst src) = finish (
      send_req2_reg bus mask pc ExecuteStageOpcode.move_reg_value dst
        create_vec_incrementing_values)
  meaning (move_reg_const dst src) = finish (
      send_req2_reg bus mask pc ExecuteStageOpcode.move_reg_value dst
        (create_vec_int64 (to_u64 src)))
  meaning (move_reg_reg dst src) = wait_for regs src do
    a ← get regs src
    finish (send_req2_reg bus mask pc ExecuteStageOpcode.move_reg_value dst a)
  meaning (move_reg_symbol dest symbol src) = finish (
      send_req2_reg bus mask pc ExecuteStageOpcode.move_reg_value dest
        (create_vec_int64 (u64 (to_u64 src + pc))))
  meaning (restore_pc reg offset) = wait_for regs reg do
    base ← get regs reg
    finish (
        send_req2_vec bus mask pc ExecuteStageOpcode.load_restore_pc
          (create_vec_int64 (to_u64 offset)) base)
  meaning (shl_reg_reg_const dst src bits) =
      with_const ExecuteStageOpcode.shl_reg_value_value dst src bits
  meaning (store_register base_reg offset src_reg) = wait_for2 regs src_reg base_reg do
    v ← get regs src_reg
    b ← get regs base_reg
    finish (
        send_req3_vec bus mask pc ExecuteStageOpcode.store_addr_value v
          (create_vec_int64 (to_u64 offset)) b)
