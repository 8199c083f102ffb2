-- ===== src/Assembler/RoundTrip/Registers.antt =====
-- The instructions of Assembler/include with up to three registers and a small constant.
use ecc_cpu.Base.{ℕ, ◌>>>◌, refl, arith}
use ecc_cpu.Base.Int.{ℤ, to_u32}
use ecc_cpu.Defines.{RegisterId, Opcode, ExecuteStageOpcode}
use ecc_cpu.RegisterFile.{RegisterFile}
use ecc_cpu.Bus.DecodeToExecuteBus.{DecodeToExecuteBus}
use ecc_cpu.Stage.Decode.{decode_op}
use ecc_cpu.Assembler.Insns.{
  get_encoded_instruction, word2, word3, add_reg_reg_const, add_reg_reg_reg, cmp_reg_reg,
  load_register, move_reg_block_index, move_reg_const, move_reg_reg, restore_pc, shl_reg_reg_const,
  store_register,
}
use ecc_cpu.Assembler.Words.{word2_fields, word3_fields}
use ecc_cpu.Assembler.Meaning.{IsEncodable}
use ecc_cpu.Assembler.Encoding.{
  decode_const8-with_const, decode_load-meaning, decode_store-meaning, decode_restore_pc-meaning,
  decode_move-meaning, decode_add-meaning, decode_cmp-meaning, int16-to_u64,
}
use ecc_cpu.Assembler.RoundTrip.Survival.{Survives, survives}

module _ (mask pc : ℕ) (bus : DecodeToExecuteBus) (regs : RegisterFile) where
  pub Survives-add_reg_reg_const :
      (d s : RegisterId) (c : ℤ)
      → IsEncodable (add_reg_reg_const d s c)
      → Survives mask pc bus regs (add_reg_reg_const d s c)
  unfolding get_encoded_instruction decode_op
  Survives-add_reg_reg_const d s c h =
      let w : ℕ = word3 14 d s (to_u32 c) in
      let f = word3_fields 14 d s (to_u32 c) (omega arith) h.0 h.1 in
      survives mask pc bus regs (add_reg_reg_const d s c) (add_reg_reg_const d s c) w
        Opcode.add_reg_reg_const refl f.0 refl
        (decode_const8-with_const mask pc w bus regs d s c ExecuteStageOpcode.add_reg_value_value
          f.1 f.2 f.3 h.2)

  pub Survives-shl_reg_reg_const :
      (d s : RegisterId) (c : ℤ)
      → IsEncodable (shl_reg_reg_const d s c)
      → Survives mask pc bus regs (shl_reg_reg_const d s c)
  unfolding get_encoded_instruction decode_op
  Survives-shl_reg_reg_const d s c h =
      let w : ℕ = word3 18 d s (to_u32 c) in
      let f = word3_fields 18 d s (to_u32 c) (omega arith) h.0 h.1 in
      survives mask pc bus regs (shl_reg_reg_const d s c) (shl_reg_reg_const d s c) w
        Opcode.l_sshift_reg_reg_const refl f.0 refl
        (decode_const8-with_const mask pc w bus regs d s c ExecuteStageOpcode.shl_reg_value_value
          f.1 f.2 f.3 h.2)

  pub Survives-add_reg_reg_reg :
      (d s t : RegisterId)
      → IsEncodable (add_reg_reg_reg d s t)
      → Survives mask pc bus regs (add_reg_reg_reg d s t)
  unfolding get_encoded_instruction decode_op
  Survives-add_reg_reg_reg d s t h =
      let w : ℕ = word3 13 d s t in
      let f = word3_fields 13 d s t (omega arith) h.0 h.1 in
      survives mask pc bus regs (add_reg_reg_reg d s t) (add_reg_reg_reg d s t) w
        Opcode.add_reg_reg_reg refl f.0 refl
        (decode_add-meaning mask pc w bus regs d s t f.1 f.2 (omega arith))

  pub Survives-cmp_reg_reg :
      (d s : RegisterId)
      → IsEncodable (cmp_reg_reg d s)
      → Survives mask pc bus regs (cmp_reg_reg d s)
  unfolding get_encoded_instruction decode_op
  Survives-cmp_reg_reg d s h =
      let w : ℕ = word2 12 d s in
      let f = word2_fields 12 d s (omega arith) h.0 in
      survives mask pc bus regs (cmp_reg_reg d s) (cmp_reg_reg d s) w Opcode.cmp_reg_reg refl f.0
        refl (decode_cmp-meaning mask pc w bus regs d s f.1 (omega arith))

  pub Survives-move_reg_reg :
      (d s : RegisterId)
      → IsEncodable (move_reg_reg d s)
      → Survives mask pc bus regs (move_reg_reg d s)
  unfolding get_encoded_instruction decode_op
  Survives-move_reg_reg d s h =
      let w : ℕ = word2 3 d s in
      let f = word2_fields 3 d s (omega arith) h.0 in
      survives mask pc bus regs (move_reg_reg d s) (move_reg_reg d s) w Opcode.move_reg_reg refl f.0
        refl (decode_move-meaning mask pc w bus regs d s f.1 (omega arith))

  pub Survives-move_reg_block_index :
      (d s : RegisterId)
      → IsEncodable (move_reg_block_index d s)
      → Survives mask pc bus regs (move_reg_block_index d s)
  unfolding get_encoded_instruction decode_op
  Survives-move_reg_block_index d s h =
      let w : ℕ = word2 2 d s in
      let f = word2_fields 2 d s (omega arith) h.0 in
      survives mask pc bus regs (move_reg_block_index d s) (move_reg_block_index d s) w
        Opcode.move_reg_block_index refl f.0 refl (rw f.1)

  pub Survives-move_reg_const :
      (d : RegisterId) (c : ℤ)
      → IsEncodable (move_reg_const d c)
      → Survives mask pc bus regs (move_reg_const d c)
  unfolding get_encoded_instruction decode_op
  Survives-move_reg_const d c h =
      let w : ℕ = word2 6 d (to_u32 c) in
      let f = word2_fields 6 d (to_u32 c) (omega arith) h.0 in
      survives mask pc bus regs (move_reg_const d c) (move_reg_const d c) w Opcode.move_reg_const16
        refl f.0 refl (rw (f.1, int16-to_u64 (w >>> 16) c f.3 h.1))

  pub Survives-restore_pc :
      (r : RegisterId) (c : ℤ)
      → IsEncodable (restore_pc r c)
      → Survives mask pc bus regs (restore_pc r c)
  unfolding get_encoded_instruction decode_op
  Survives-restore_pc r c h =
      let w : ℕ = word2 32 r (to_u32 c) in
      let f = word2_fields 32 r (to_u32 c) (omega arith) h.0 in
      survives mask pc bus regs (restore_pc r c) (restore_pc r c) w Opcode.load_restore_pc refl f.0
        refl (decode_restore_pc-meaning mask pc w bus regs r c f.1 f.3 h.1)

  pub Survives-load_register :
      (d b : RegisterId) (c : ℤ)
      → IsEncodable (load_register d b c)
      → Survives mask pc bus regs (load_register d b c)
  unfolding get_encoded_instruction decode_op
  Survives-load_register d b c h =
      let w : ℕ = word3 10 d b (to_u32 c) in
      let f = word3_fields 10 d b (to_u32 c) (omega arith) h.0 h.1 in
      survives mask pc bus regs (load_register d b c) (load_register d b c) w
        Opcode.load_reg_const_reg refl f.0 refl
        (decode_load-meaning mask pc w bus regs d b c f.1 f.2 f.3 h.2)

  pub Survives-store_register :
      (b s : RegisterId) (c : ℤ)
      → IsEncodable (store_register b c s)
      → Survives mask pc bus regs (store_register b c s)
  unfolding get_encoded_instruction decode_op
  Survives-store_register b s c h =
      let w : ℕ = word3 11 s b (to_u32 c) in
      let f = word3_fields 11 s b (to_u32 c) (omega arith) h.1 h.0 in
      survives mask pc bus regs (store_register b c s) (store_register b c s) w
        Opcode.store_reg_const_reg refl f.0 refl
        (decode_store-meaning mask pc w bus regs b s c f.1 f.2 f.3 h.2)
