-- ===== src/Stage/Execute.antt =====
-- CoreLib/ExecuteStage.cpp: a request of the decode stage becomes one to the store stage.
pub mod Branch
pub mod Split
use ecc_cpu.Base.{
  ℕ, ◌+◌, bit_and, bit_not, u64, true, false, ◌==◌, if◌then◌else◌, Option, some, ◌>>=◌,
}
use ecc_cpu.Defines.{
  RegisterId, reg_flags, reg_pc, instruction_size, all_threads_exec_mask, ExecuteStageOpcode,
  StorageStageOpcode,
}
use ecc_cpu.VectorValue
use ecc_cpu.VectorValue.{
  VectorValue, or_shift_left, shift_left, add, bit_and_vec, compare_vecs, reduce_to_uint64_t,
}
use ecc_cpu.RegisterFile.{RegisterFile, mark_invalid, is_valid, get}
use ecc_cpu.Packets.{DecodeExecPacket, value_reg_id, value_vec}
use ecc_cpu.GlobalStats.{GlobalStats, inc_num_cycles_used}
use ecc_cpu.Bus.DecodeToExecuteBus
use ecc_cpu.Bus.DecodeToExecuteBus.{DecodeToExecuteBus}
use ecc_cpu.Bus.ExecuteToStoreBus.{
  ExecuteToStoreBus, send_none, send_reg_vec, send_vec_vec, send_address, send_2_address,
}

unfoldable pub get_cmp_mask : ℕ → VectorValue → VectorValue → ℕ
get_cmp_mask exec_mask flags value1 =
    bit_and exec_mask (reduce_to_uint64_t (bit_and_vec flags value1))

-- The switch either waits for the flags or has left the store bus and the registers so.
pub data Outcome : Type 0 where
  stall : Outcome
  done : ExecuteToStoreBus → RegisterFile → Outcome

abbrev pub finish : RegisterFile → Option ExecuteToStoreBus → Option Outcome
finish regs sent = sent >>= λ b. some (done b regs)

-- The address of a jump that is taken: `pkt.PC + get(pkt.value0.vec, 0)`
unfoldable pub jump_target : DecodeExecPacket → Option ℕ
jump_target pkt = do
  offsets ← value_vec pkt.value0
  offset ← VectorValue.get offsets 0
  some (u64 (pkt.pc + offset))

abbrev pub next_insn : DecodeExecPacket → ℕ
next_insn pkt = u64 (pkt.pc + instruction_size)

module _ (pkt : DecodeExecPacket) (bus : ExecuteToStoreBus) (regs : RegisterFile) where
  -- `regs.mark_invalid(id)`, then a request that ends in a write of that register
  unfoldable pub write_back : StorageStageOpcode → RegisterId → VectorValue → Option Outcome
  write_back op id v = do
    regs' ← mark_invalid regs id
    finish regs' (send_reg_vec bus pkt.exec_mask pkt.pc op id v false)

  abbrev pub write_value : VectorValue → Option Outcome
  write_value v = do
    id ← value_reg_id pkt.value0
    write_back StorageStageOpcode.store_value_into_reg id v

  -- The three ways of a conditional jump, by the mask of the threads that take it.
  unfoldable pub branch : ℕ → Option Outcome
  branch taken =
      if taken == 0
      then finish regs
          (send_address bus pkt.exec_mask pkt.pc StorageStageOpcode.jmp (next_insn pkt))
      else if taken == bit_and pkt.exec_mask all_threads_exec_mask
      then (do
        target ← jump_target pkt
        finish regs (send_address bus pkt.exec_mask pkt.pc StorageStageOpcode.jmp target))
      else do
        target ← jump_target pkt
        finish regs (
            send_2_address bus pkt.exec_mask pkt.pc StorageStageOpcode.cjmp target (next_insn pkt)
              taken (bit_and pkt.exec_mask (bit_not taken)))

  unfoldable pub execute_cond_jmp : Option Outcome
  execute_cond_jmp = do
    valid ← is_valid regs reg_flags
    if valid
        then (do flags ← get regs reg_flags; branch (get_cmp_mask pkt.exec_mask flags pkt.value1))
        else some stall

  unfoldable pub execute_cmp : Option Outcome
  execute_cmp = do
    regs' ← mark_invalid regs reg_flags
    a ← value_vec pkt.value0
    finish regs' (
        send_reg_vec bus pkt.exec_mask pkt.pc StorageStageOpcode.store_value_into_reg reg_flags
          (compare_vecs a pkt.value1) false)

  unfoldable pub execute_op : ExecuteStageOpcode → Option Outcome
  execute_op ExecuteStageOpcode.nop = some (done bus regs)
  execute_op ExecuteStageOpcode.cmp = execute_cmp
  execute_op ExecuteStageOpcode.move_reg_value = write_value pkt.value1
  execute_op ExecuteStageOpcode.orb_reg_value = write_value (or_shift_left pkt.value2 pkt.value1 24)
  execute_op ExecuteStageOpcode.orc_reg_value = write_value (or_shift_left pkt.value2 pkt.value1 48)
  execute_op ExecuteStageOpcode.shl_reg_value_value =
      shift_left pkt.value1 pkt.value2 >>= λ v. write_value v
  execute_op ExecuteStageOpcode.add_reg_value_value = write_value (add pkt.value1 pkt.value2)
  execute_op ExecuteStageOpcode.load_reg = do
    id ← value_reg_id pkt.value0
    write_back StorageStageOpcode.load_mem_into_reg id (add pkt.value1 pkt.value2)
  execute_op ExecuteStageOpcode.store_addr_value = do
    v ← value_vec pkt.value0
    finish regs (
        send_vec_vec bus pkt.exec_mask pkt.pc StorageStageOpcode.store_reg_into_mem
          (add pkt.value1 pkt.value2) v)
  execute_op ExecuteStageOpcode.load_restore_pc = do
    v ← value_vec pkt.value0
    finish regs (
        send_reg_vec bus pkt.exec_mask pkt.pc StorageStageOpcode.load_mem_into_reg reg_pc
          (add v pkt.value1) true)
  execute_op ExecuteStageOpcode.cond_jmp = execute_cond_jmp
  execute_op ExecuteStageOpcode.jmp = do
    target ← jump_target pkt
    finish regs (send_address bus pkt.exec_mask pkt.pc StorageStageOpcode.jmp target)
  execute_op ExecuteStageOpcode.halt =
      finish regs (send_none bus pkt.exec_mask pkt.pc StorageStageOpcode.halt)

unfoldable pub execute_insn : DecodeExecPacket → ExecuteToStoreBus → RegisterFile → Option Outcome
execute_insn pkt bus regs = execute_op pkt bus regs pkt.opcode

-- `top` is the start of the outer loop, which counts a cycle; `waiting` waits for the store bus;
-- `executing` stands after `recv`, and where the flags are waited for.
pub data ExecuteState : Type 0 where
  top waiting : ExecuteState
  executing : DecodeExecPacket → ExecuteState

pub record Stepped : Type 0 where
  pub state : ExecuteState
  pub decode_bus : DecodeToExecuteBus
  pub store_bus : ExecuteToStoreBus
  pub regs : RegisterFile
  pub stats : GlobalStats

abbrev pub after : DecodeExecPacket → Stepped → Outcome → Stepped
after pkt s stall = record s { state = executing pkt }
after pkt s (done bus regs) = record s { state = top; store_bus = bus; regs = regs }

-- From the wait for the store bus on.
unfoldable pub accept : Stepped → Stepped
accept s =
    if s.store_bus.is_busy
    then record s { state = waiting }
    else if s.decode_bus.is_busy
    then (let (pkt, decode_bus') = DecodeToExecuteBus.recv s.decode_bus in
        record s { state = executing pkt; decode_bus = decode_bus' })
    else record s { state = top }

-- The step from `state`; the record's own state is not read.
unfoldable pub step_from : ExecuteState → Stepped → Option Stepped
step_from top s = some (accept (record s { stats = inc_num_cycles_used s.stats }))
step_from waiting s = some (accept s)
step_from (executing pkt) s = do out ← execute_insn pkt s.store_bus s.regs; some (after pkt s out)

abbrev pub step : Stepped → Option Stepped
step s = step_from s.state s
