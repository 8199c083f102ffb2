-- ===== src/Assembler/Encoding.antt =====
-- The cases of CoreLib/DecodeStage.cpp in terms of the fields of the word.
use ecc_cpu.Base.{ℕ, ◌%◌, ◌^◌, ◌<◌, ◌>>>◌, u8, u16, int8, int16, int32, ◌≡◌, ap, arith, ◌>>=◌}
use ecc_cpu.Base.Int.{ℤ, pos, negsuc, to_u32, to_u64}
use ecc_cpu.Defines.{RegisterId, Opcode, get_opcode, ExecuteStageOpcode}
use ecc_cpu.VectorValue.{create_vec_int64}
use ecc_cpu.RegisterFile.{RegisterFile}
use ecc_cpu.Packets.{create_fetch_decode_packet}
use ecc_cpu.Bus.DecodeToExecuteBus.{DecodeToExecuteBus, send_req2_vec}
use ecc_cpu.Stage.Decode.{
  finish, decode_insn, decode_op, decode_const8, decode_load, decode_store, decode_restore_pc,
  decode_move, decode_add, decode_cmp, decode_cond_jump, decode_or_r0,
  get_expected_cond_jump_flags_mask,
}
use ecc_cpu.Assembler.Insns.{
  load_register, store_register, restore_pc, move_reg_reg, add_reg_reg_reg, cmp_reg_reg,
}
use ecc_cpu.Assembler.Meaning.{FitsSigned, FitsUnsigned, with_const, join_r0, meaning}

pub int8-to_u64 : (x : ℕ) (c : ℤ) → u8 x ≡ to_u32 c % 2 ^ 8 → FitsSigned 7 c → int8 x ≡ to_u64 c
int8-to_u64 x (pos n) e h = ground arith
int8-to_u64 x (negsuc n) e h = ground arith

pub int16-to_u64 :
    (x : ℕ) (c : ℤ) → u16 x ≡ to_u32 c % 2 ^ 16 → FitsSigned 15 c → int16 x ≡ to_u64 c
int16-to_u64 x (pos n) e h = ground arith
int16-to_u64 x (negsuc n) e h = ground arith

u64-small : (n : ℕ) → n < 2 ^ 24 → n % 2 ^ 64 ≡ n
u64-small n h = omega arith

module _ (mask pc w : ℕ) (bus : DecodeToExecuteBus) (regs : RegisterFile) where
  pub decode_insn-op :
      (op : Opcode)
      → get_opcode w ≡ op
      → decode_insn (create_fetch_decode_packet mask pc w) bus regs
        ≡ decode_op mask pc w bus regs op
  unfolding decode_insn
  decode_insn-op op e = ap (decode_op mask pc w bus regs) e

  pub decode_const8-with_const :
      (d s : RegisterId) (c : ℤ) (op : ExecuteStageOpcode)
      → u8 (w >>> 8) ≡ d
      → u8 (w >>> 16) ≡ s
      → w >>> 24 ≡ to_u32 c % 2 ^ 8
      → FitsSigned 7 c
      → decode_const8 mask pc w bus regs op ≡ with_const mask pc bus regs op d s c
  unfolding decode_const8
  decode_const8-with_const d s c op e1 e2 e3 h =
      rw (e1, e2, int8-to_u64 (w >>> 24) c (omega arith) h)

  pub decode_load-meaning :
      (d b : RegisterId) (c : ℤ)
      → u8 (w >>> 8) ≡ d
      → u8 (w >>> 16) ≡ b
      → w >>> 24 ≡ to_u32 c % 2 ^ 8
      → FitsUnsigned 8 c
      → decode_load mask pc w bus regs ≡ meaning mask pc bus regs (load_register d b c)
  unfolding decode_load
  decode_load-meaning d b (pos n) e1 e2 e3 h =
      rw (e1, e2, let e : int16 (w >>> 24) ≡ n = ground arith in e, u64-small n (omega arith))
  decode_load-meaning d b (negsuc n) e1 e2 e3 h = absurd h

  pub decode_store-meaning :
      (b s : RegisterId) (c : ℤ)
      → u8 (w >>> 8) ≡ s
      → u8 (w >>> 16) ≡ b
      → w >>> 24 ≡ to_u32 c % 2 ^ 8
      → FitsUnsigned 8 c
      → decode_store mask pc w bus regs ≡ meaning mask pc bus regs (store_register b c s)
  unfolding decode_store
  decode_store-meaning b s (pos n) e1 e2 e3 h =
      rw (e1, e2, let e : int16 (u8 (w >>> 24)) ≡ n = ground arith in e, u64-small n (omega arith))
  decode_store-meaning b s (negsuc n) e1 e2 e3 h = absurd h

  pub decode_restore_pc-meaning :
      (r : RegisterId) (c : ℤ)
      → u8 (w >>> 8) ≡ r
      → u16 (w >>> 16) ≡ to_u32 c % 2 ^ 16
      → FitsSigned 15 c
      → decode_restore_pc mask pc w bus regs ≡ meaning mask pc bus regs (restore_pc r c)
  unfolding decode_restore_pc
  decode_restore_pc-meaning r c e1 e2 h = rw (e1, int16-to_u64 (w >>> 16) c e2 h)

  pub decode_move-meaning :
      (d s : RegisterId)
      → u8 (w >>> 8) ≡ d
      → u8 (w >>> 16) ≡ s
      → decode_move mask pc w bus regs ≡ meaning mask pc bus regs (move_reg_reg d s)
  unfolding decode_move
  decode_move-meaning d s e1 e2 = rw (e1, e2)

  pub decode_add-meaning :
      (d s t : RegisterId)
      → u8 (w >>> 8) ≡ d
      → u8 (w >>> 16) ≡ s
      → u8 (w >>> 24) ≡ t
      → decode_add mask pc w bus regs ≡ meaning mask pc bus regs (add_reg_reg_reg d s t)
  unfolding decode_add
  decode_add-meaning d s t e1 e2 e3 = rw (e1, e2, e3)

  pub decode_cmp-meaning :
      (d s : RegisterId)
      → u8 (w >>> 8) ≡ d
      → u8 (w >>> 16) ≡ s
      → decode_cmp mask pc w bus regs ≡ meaning mask pc bus regs (cmp_reg_reg d s)
  unfolding decode_cmp
  decode_cmp-meaning d s e1 e2 = rw (e1, e2)

  -- A 24-bit field is below 2 ^ 31, so its sign extension changes nothing.
  pub int32-field : (n : ℕ) → n < 2 ^ 24 → w >>> 8 ≡ n → int32 (w >>> 8) ≡ n
  int32-field n h e = ground arith

  pub decode_cond_jump-meaning :
      (op : Opcode) (n : ℕ)
      → n < 2 ^ 24
      → w >>> 8 ≡ n
      → decode_cond_jump mask pc w bus regs op ≡ (
          get_expected_cond_jump_flags_mask op >>= λ expected. finish (
            send_req2_vec bus mask pc ExecuteStageOpcode.cond_jmp
              (create_vec_int64 n)
              (create_vec_int64 expected)))
  unfolding decode_cond_jump
  decode_cond_jump-meaning op n h e = rw (int32-field n h e)

  pub decode_or_r0-join_r0 :
      (op : ExecuteStageOpcode) (n : ℕ)
      → n < 2 ^ 24
      → w >>> 8 ≡ n
      → decode_or_r0 mask pc w bus regs op ≡ join_r0 mask pc bus regs op n
  unfolding decode_or_r0
  decode_or_r0-join_r0 op n h e = rw (int32-field n h e)
