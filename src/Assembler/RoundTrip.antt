-- ===== src/Assembler/RoundTrip.antt =====
-- The encoding of the instructions of Assembler/include followed by the decoding of
-- CoreLib/DecodeStage.cpp.
mod Survival
mod Registers
mod Wide
pub use Survival.{Survives}
use ecc_cpu.Base.{ℕ}
use ecc_cpu.RegisterFile.{RegisterFile}
use ecc_cpu.Bus.DecodeToExecuteBus.{DecodeToExecuteBus}
use ecc_cpu.Assembler.Insns.{
  Insn, add_reg_reg_const, add_reg_reg_reg, cmp_reg_reg, halt_insn, jump, load_addr, load_register,
  move_reg_block_index, move_reg_const, move_reg_reg, move_reg_symbol, restore_pc,
  shl_reg_reg_const, store_register,
}
use ecc_cpu.Assembler.Meaning.{IsEncodable}
use Registers.{
  Survives-add_reg_reg_const, Survives-shl_reg_reg_const, Survives-add_reg_reg_reg,
  Survives-cmp_reg_reg, Survives-move_reg_reg, Survives-move_reg_block_index,
  Survives-move_reg_const, Survives-restore_pc, Survives-load_register, Survives-store_register,
}
use Wide.{Survives-halt_insn, Survives-move_reg_symbol, Survives-jump, Survives-load_addr}

-- An instruction whose operands fit its fields is encoded, and the decode stage asks of the execute
-- stage what the instruction means, whatever the mask, the address, the bus and the registers.
pub decode-encode :
    (insn : Insn) (mask pc : ℕ) (bus : DecodeToExecuteBus) (regs : RegisterFile)
    → IsEncodable insn
    → Survives mask pc bus regs insn
decode-encode (add_reg_reg_const d s c) mask pc bus regs h =
    Survives-add_reg_reg_const mask pc bus regs d s c h
decode-encode (add_reg_reg_reg d s t) mask pc bus regs h =
    Survives-add_reg_reg_reg mask pc bus regs d s t h
decode-encode (cmp_reg_reg d s) mask pc bus regs h = Survives-cmp_reg_reg mask pc bus regs d s h
decode-encode halt_insn mask pc bus regs h = Survives-halt_insn mask pc bus regs
decode-encode (jump label dest m) mask pc bus regs h = Survives-jump mask pc bus regs label dest m h
decode-encode (load_addr part name address) mask pc bus regs h =
    Survives-load_addr mask pc bus regs part name address h
decode-encode (load_register d b c) mask pc bus regs h =
    Survives-load_register mask pc bus regs d b c h
decode-encode (move_reg_block_index d s) mask pc bus regs h =
    Survives-move_reg_block_index mask pc bus regs d s h
decode-encode (move_reg_const d c) mask pc bus regs h =
    Survives-move_reg_const mask pc bus regs d c h
decode-encode (move_reg_reg d s) mask pc bus regs h = Survives-move_reg_reg mask pc bus regs d s h
decode-encode (move_reg_symbol d symbol c) mask pc bus regs h =
    Survives-move_reg_symbol mask pc bus regs d symbol c h
decode-encode (restore_pc r c) mask pc bus regs h = Survives-restore_pc mask pc bus regs r c h
decode-encode (shl_reg_reg_const d s c) mask pc bus regs h =
    Survives-shl_reg_reg_const mask pc bus regs d s c h
decode-encode (store_register b c s) mask pc bus regs h =
    Survives-store_register mask pc bus regs b s c h
