-- ===== src/Stage/Decode.antt =====
-- CoreLib/DecodeStage.cpp: an instruction word becomes a request to the execute stage.
pub mod Receives
use ecc_cpu.Base.{
  ℕ, ◌+◌, bit_or, ◌>>>◌, u8, u16, u64, not, ◌||◌, if◌then◌else◌, Option, none, some, ◌>>=◌,
}
use ecc_cpu.Defines.{
  RegisterId, reg_r0, Opcode, get_opcode, flags_mask_eq, flags_mask_gt, flags_mask_lt,
  ExecuteStageOpcode,
}
use ecc_cpu.VectorValue.{
  VectorValue, create_vec_incrementing_values, create_vec_int64, create_vec_int8, create_vec_int16,
  create_vec_int32,
}
use ecc_cpu.RegisterFile.{RegisterFile, is_valid, get}
use ecc_cpu.Packets.{FetchToDecodeBusPacket}
use ecc_cpu.Bus.FetchToDecodeBus
use ecc_cpu.Bus.FetchToDecodeBus.{FetchToDecodeBus}
use ecc_cpu.Bus.DecodeToExecuteBus.{
  DecodeToExecuteBus, send_req0, send_req1, send_req2_reg, send_req2_vec, send_req3_reg,
  send_req3_vec,
}

unfoldable pub get_expected_cond_jump_flags_mask : Opcode → Option ℕ
get_expected_cond_jump_flags_mask Opcode.jmp_equal = some flags_mask_eq
get_expected_cond_jump_flags_mask Opcode.jmp_not_equal = some (bit_or flags_mask_lt flags_mask_gt)
get_expected_cond_jump_flags_mask Opcode.jmp_greater = some flags_mask_gt
get_expected_cond_jump_flags_mask Opcode.jmp_lower = some flags_mask_lt
get_expected_cond_jump_flags_mask Opcode.jmp_greater_equal =
    some (bit_or flags_mask_gt flags_mask_eq)
get_expected_cond_jump_flags_mask Opcode.jmp_lower_equal = some (bit_or flags_mask_lt flags_mask_eq)
get_expected_cond_jump_flags_mask _ = none

-- The switch either waits for a register or has left the execute bus in this state.
pub data Outcome : Type 0 where
  stall : Outcome
  done : DecodeToExecuteBus → Outcome

abbrev pub finish : Option DecodeToExecuteBus → Option Outcome
finish sent = sent >>= λ b. some (done b)

-- `while (! regs.is_valid(id)) CONTEXT_SWITCH();`
abbrev pub wait_for : RegisterFile → RegisterId → Option Outcome → Option Outcome
wait_for regs id next = is_valid regs id >>= λ valid. if valid then next else some stall

-- `while ((! regs.is_valid(a)) | (! regs.is_valid(b))) CONTEXT_SWITCH();`
abbrev pub wait_for2 : RegisterFile → RegisterId → RegisterId → Option Outcome → Option Outcome
wait_for2 regs a b next = is_valid regs a >>= λ valid_a.
    is_valid regs b >>= λ valid_b. if not valid_a || not valid_b then some stall else next

-- The casts of `insn >> 8`, `insn >> 16` and `insn >> 24` to a register number.
abbrev pub reg8 : ℕ → RegisterId
reg8 insn = u8 (insn >>> 8)

abbrev pub reg16 : ℕ → RegisterId
reg16 insn = u8 (insn >>> 16)

abbrev pub reg24 : ℕ → RegisterId
reg24 insn = u8 (insn >>> 24)

module _ (mask pc insn : ℕ) (bus : DecodeToExecuteBus) (regs : RegisterFile) where
  -- The case of the six conditional jumps.
  unfoldable pub decode_cond_jump : Opcode → Option Outcome
  decode_cond_jump op = do
    expected ← get_expected_cond_jump_flags_mask op
    finish (
        send_req2_vec bus mask pc ExecuteStageOpcode.cond_jmp (create_vec_int32 (insn >>> 8))
          (create_vec_int64 expected))

  -- The cases of the two instructions that extend the constant in r0.
  unfoldable pub decode_or_r0 : ExecuteStageOpcode → Option Outcome
  decode_or_r0 op = wait_for regs reg_r0 do
    r0 ← get regs reg_r0
    finish (send_req3_reg bus mask pc op reg_r0 (create_vec_int32 (insn >>> 8)) r0)

  unfoldable pub decode_store : Option Outcome
  decode_store = wait_for2 regs (reg8 insn) (reg16 insn) do
    src ← get regs (reg8 insn)
    base ← get regs (reg16 insn)
    finish (
        send_req3_vec bus mask pc ExecuteStageOpcode.store_addr_value src
          (create_vec_int16 (u8 (insn >>> 24))) base)

  unfoldable pub decode_cmp : Option Outcome
  decode_cmp = wait_for2 regs (reg8 insn) (reg16 insn) do
    a ← get regs (reg8 insn)
    b ← get regs (reg16 insn)
    finish (send_req2_vec bus mask pc ExecuteStageOpcode.cmp a b)

  unfoldable pub decode_add : Option Outcome
  decode_add = wait_for2 regs (reg16 insn) (reg24 insn) do
    a ← get regs (reg16 insn)
    b ← get regs (reg24 insn)
    finish (send_req3_reg bus mask pc ExecuteStageOpcode.add_reg_value_value (reg8 insn) a b)

  -- The cases `rX = rY op const` with an `int8_t` constant.
  unfoldable pub decode_const8 : ExecuteStageOpcode → Option Outcome
  decode_const8 op = wait_for regs (reg16 insn) do
    a ← get regs (reg16 insn)
    finish (send_req3_reg bus mask pc op (reg8 insn) a (create_vec_int8 (insn >>> 24)))

  unfoldable pub decode_load : Option Outcome
  decode_load = wait_for regs (reg16 insn) do
    base ← get regs (reg16 insn)
    finish (
        send_req3_reg bus mask pc ExecuteStageOpcode.load_reg (reg8 insn)
          (create_vec_int16 (insn >>> 24)) base)

  unfoldable pub decode_restore_pc : Option Outcome
  decode_restore_pc = wait_for regs (reg8 insn) do
    base ← get regs (reg8 insn)
    finish (
        send_req2_vec bus mask pc ExecuteStageOpcode.load_restore_pc
          (create_vec_int16 (insn >>> 16)) base)

  unfoldable pub decode_move : Option Outcome
  decode_move = wait_for regs (reg16 insn) do
    a ← get regs (reg16 insn)
    finish (send_req2_reg bus mask pc ExecuteStageOpcode.move_reg_value (reg8 insn) a)

  -- `rX = v` for a value that the instruction word alone gives.
  abbrev pub decode_move_const : RegisterId → VectorValue → Option Outcome
  decode_move_const id v = finish (send_req2_reg bus mask pc ExecuteStageOpcode.move_reg_value id v)

  -- `switch (getOpcode(pkt.insn))`; `none` is the assertion of the default case.
  unfoldable pub decode_op : Opcode → Option Outcome
  decode_op Opcode.nop = some (done bus)
  decode_op Opcode.halt = finish (send_req0 bus mask pc ExecuteStageOpcode.halt)
  decode_op Opcode.move_pcrel_reg_const16 =
      decode_move_const (reg8 insn) (create_vec_int64 (u64 (u16 (insn >>> 16) + pc)))
  decode_op Opcode.store_reg_const_reg = decode_store
  decode_op Opcode.move_reg_block_index =
      decode_move_const (reg8 insn) create_vec_incrementing_values
  decode_op Opcode.move_reg_const16 = decode_move_const (reg8 insn) (create_vec_int16 (insn >>> 16))
  decode_op Opcode.move_reg_reg = decode_move
  decode_op Opcode.l_sshift_reg_reg_const = decode_const8 ExecuteStageOpcode.shl_reg_value_value
  decode_op Opcode.add_reg_reg_reg = decode_add
  decode_op Opcode.add_reg_reg_const = decode_const8 ExecuteStageOpcode.add_reg_value_value
  decode_op Opcode.jmp_always =
      finish (send_req1 bus mask pc ExecuteStageOpcode.jmp (create_vec_int32 (insn >>> 8)))
  decode_op Opcode.cmp_reg_reg = decode_cmp
  decode_op Opcode.jmp_lower = decode_cond_jump Opcode.jmp_lower
  decode_op Opcode.jmp_lower_equal = decode_cond_jump Opcode.jmp_lower_equal
  decode_op Opcode.jmp_equal = decode_cond_jump Opcode.jmp_equal
  decode_op Opcode.jmp_not_equal = decode_cond_jump Opcode.jmp_not_equal
  decode_op Opcode.jmp_greater = decode_cond_jump Opcode.jmp_greater
  decode_op Opcode.jmp_greater_equal = decode_cond_jump Opcode.jmp_greater_equal
  decode_op Opcode.load_restore_pc = decode_restore_pc
  decode_op Opcode.load_reg_const_reg = decode_load
  decode_op Opcode.move_r0_const24a = decode_move_const reg_r0 (create_vec_int32 (insn >>> 8))
  decode_op Opcode.move_r0_const24b = decode_or_r0 ExecuteStageOpcode.orb_reg_value
  decode_op Opcode.move_r0_const24c = decode_or_r0 ExecuteStageOpcode.orc_reg_value
  decode_op _ = none

-- What the stage does with a packet once it has it.
unfoldable pub decode_insn :
    FetchToDecodeBusPacket → DecodeToExecuteBus → RegisterFile → Option Outcome
decode_insn pkt bus regs = decode_op pkt.exec_mask pkt.pc pkt.insn bus regs (get_opcode pkt.insn)

-- `idle` is every switch of the outer loop, `decoding` those after `recv` and while a register is
-- waited for.
pub data DecodeState : Type 0 where
  idle : DecodeState
  decoding : FetchToDecodeBusPacket → DecodeState

abbrev pub Stepped : Type 0
Stepped = DecodeState × FetchToDecodeBus × DecodeToExecuteBus

-- While a register is waited for, the execute bus is as it was.
abbrev pub after :
    FetchToDecodeBusPacket → FetchToDecodeBus → DecodeToExecuteBus → Outcome → Stepped
after pkt fetch_bus bus stall = (decoding pkt, fetch_bus, bus)
after pkt fetch_bus bus (done bus') = (idle, fetch_bus, bus')

unfoldable pub step :
    DecodeState → FetchToDecodeBus → DecodeToExecuteBus → RegisterFile → Option Stepped
step idle fetch_bus bus regs =
    if bus.is_busy
    then some (idle, fetch_bus, bus)
    else if fetch_bus.is_busy
    then (do
      (pkt, fetch_bus') ← FetchToDecodeBus.recv fetch_bus
      some (decoding pkt, fetch_bus', bus))
    else some (idle, fetch_bus, bus)
step (decoding pkt) fetch_bus bus regs = do
  out ← decode_insn pkt bus regs
  some (after pkt fetch_bus bus out)
