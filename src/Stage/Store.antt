-- ===== src/Stage/Store.antt =====
-- CoreLib/StoreStage.cpp: registers and memory are written, the fetch stage learns where to go on,
-- and diverged threads are put aside and resumed. `none` is a failed assertion, also one of a bus.
pub mod Divergence
pub mod Load
pub mod Loads
pub mod RestorePc
use ecc_cpu.Base.{ℕ, if◌then◌else◌, Option, some, assert, ◌>>=◌, ◌>>◌}
use ecc_cpu.Defines.{is_valid_index, pointer_size, BusId, CoreComponentId, StorageStageOpcode}
use ecc_cpu.VectorValue
use ecc_cpu.VectorValue.{VectorValue, are_all_adjacent_memory_addresses}
use ecc_cpu.RegisterFile
use ecc_cpu.RegisterFile.{RegisterFile, mark_valid, set_has_halted}
use ecc_cpu.DivergenceQueue.{
  DivergenceQueue, ThreadContext, is_empty, push_to_front, get_back, advance_read_pos,
  advance_write_pos,
}
use ecc_cpu.Packets.{ExecStagePacket, VecBusPacket, stage_address, stage_value, stage_reg}
use ecc_cpu.GlobalStats.{GlobalStats, inc_wait_for_operand_fetch, inc_num_vector_local_divergences}
use ecc_cpu.Bus.ExecuteToStoreBus
use ecc_cpu.Bus.ExecuteToStoreBus.{ExecuteToStoreBus}
use ecc_cpu.Bus.VecMemoryBus.{
  VecMemoryBus, send_read_request_vec, send_write_request_vec, accept_response,
}
use ecc_cpu.Bus.StoreToFetchBus
use ecc_cpu.Bus.StoreToFetchBus.{StoreToFetchBus}

-- `top` is the start of the outer loop; `storing` stands after `recv`; `loading` waits for the
-- response of the memory; `loaded` stands after `accept_response`; `resuming` after the read of the
-- context that a halt goes on with.
pub data StoreState : Type 0 where
  top : StoreState
  storing loading : ExecStagePacket → StoreState
  loaded : ExecStagePacket → VecBusPacket → StoreState
  resuming : ThreadContext → StoreState

pub record Stepped : Type 0 where
  pub state : StoreState
  pub execute_bus : ExecuteToStoreBus
  pub memory_bus : VecMemoryBus
  pub regs : RegisterFile
  pub fetch_bus : StoreToFetchBus
  pub divergence_queue : DivergenceQueue
  pub stats : GlobalStats

-- `createBusID(core_id, COMPONENT_TYPE_STORE)`
abbrev pub store_id : ℕ → BusId
store_id core_id = record { core_id = core_id; within_core_id = CoreComponentId.store }

module _ (pkt : ExecStagePacket) where
  unfoldable pub store_value_into_reg : Stepped → Option Stepped
  store_value_into_reg s = do
    id ← stage_reg pkt.dest
    assert (is_valid_index id)
    v ← stage_value pkt.src
    marked ← mark_valid s.regs id
    written ← RegisterFile.set marked id v
    some (record s { state = top; regs = written })

  unfoldable pub store_reg_into_mem : ℕ → Stepped → Option Stepped
  store_reg_into_mem core_id s = do
    addresses ← stage_value pkt.dest
    assert (are_all_adjacent_memory_addresses addresses pointer_size)
    v ← stage_value pkt.src
    some (record s {
      state = top;
      memory_bus = send_write_request_vec s.memory_bus addresses (store_id core_id) v;
    })

  -- The inner loop of a load, from its start.
  unfoldable pub await_response : Stepped → Option Stepped
  await_response s =
      if s.memory_bus.response_busy
      then (do
        (response, memory_bus') ← accept_response s.memory_bus
        some (record s { state = loaded pkt response; memory_bus = memory_bus' }))
      else some (record s { state = loading pkt; stats = inc_wait_for_operand_fetch s.stats })

  unfoldable pub load_mem_into_reg : ℕ → Stepped → Option Stepped
  load_mem_into_reg core_id s = do
    id ← stage_reg pkt.dest
    assert (is_valid_index id)
    addresses ← stage_value pkt.src
    memory_bus' ← send_read_request_vec s.memory_bus addresses (store_id core_id)
    await_response (record s { memory_bus = memory_bus' })

  -- The rest of a load, once its response is there.
  unfoldable pub finish_load : VecBusPacket → Stepped → Option Stepped
  finish_load response s = do
    id ← stage_reg pkt.dest
    marked ← mark_valid s.regs id
    written ← RegisterFile.set marked id response.payload
    if pkt.is_store_to_pc
        then (do
          pc ← VectorValue.get response.payload 0
          fetch_bus' ← StoreToFetchBus.send s.fetch_bus pkt.exec_mask pc
          some (record s { state = top; regs = written; fetch_bus = fetch_bus' }))
        else some (record s { state = top; regs = written })

  unfoldable pub store_jmp : Stepped → Option Stepped
  store_jmp s = do
    target ← stage_address pkt.dest
    fetch_bus' ← StoreToFetchBus.send s.fetch_bus pkt.exec_mask target
    some (record s { state = top; fetch_bus = fetch_bus' })

  -- The threads that jump are put aside, the others go on.
  unfoldable pub store_cjmp : Stepped → Option Stepped
  store_cjmp s = do
    target ← stage_address pkt.dest
    queue' ← push_to_front s.divergence_queue s.regs target pkt.execution_flags_true
    next ← stage_address pkt.src
    fetch_bus' ← StoreToFetchBus.send s.fetch_bus pkt.execution_flags_false next
    some (record s {
      state = top;
      divergence_queue = advance_write_pos queue';
      fetch_bus = fetch_bus';
      stats = inc_num_vector_local_divergences s.stats;
    })

-- The machine halts when no context is left; otherwise the oldest one is taken from the queue.
unfoldable pub store_halt : Stepped → Option Stepped
store_halt s =
    if is_empty s.divergence_queue
    then some (record s { state = top; regs = set_has_halted s.regs })
    else do
      ctxt ← get_back s.divergence_queue
      some (record s {
        state = resuming ctxt;
        divergence_queue = advance_read_pos s.divergence_queue;
      })

unfoldable pub resume : ThreadContext → Stepped → Option Stepped
resume ctxt s = do
  fetch_bus' ← StoreToFetchBus.send s.fetch_bus ctxt.exec_mask ctxt.pc
  some (record s { state = top; regs = ctxt.regs; fetch_bus = fetch_bus' })

module _ (core_id : ℕ) where
  unfoldable pub store_op : StorageStageOpcode → ExecStagePacket → Stepped → Option Stepped
  store_op StorageStageOpcode.nop pkt s = some (record s { state = top })
  store_op StorageStageOpcode.store_value_into_reg pkt s = store_value_into_reg pkt s
  store_op StorageStageOpcode.store_reg_into_mem pkt s = store_reg_into_mem pkt core_id s
  store_op StorageStageOpcode.load_mem_into_reg pkt s = load_mem_into_reg pkt core_id s
  store_op StorageStageOpcode.jmp pkt s = store_jmp pkt s
  store_op StorageStageOpcode.cjmp pkt s = store_cjmp pkt s
  store_op StorageStageOpcode.halt pkt s = store_halt s

  -- The step from `state`; the record's own state is not read.
  unfoldable pub step_from : StoreState → Stepped → Option Stepped
  step_from top s =
      if s.execute_bus.is_busy
      then (do
        (pkt, execute_bus') ← ExecuteToStoreBus.recv s.execute_bus
        some (record s { state = storing pkt; execute_bus = execute_bus' }))
      else some (record s { state = top })
  step_from (storing pkt) s = store_op pkt.opcode pkt s
  step_from (loading pkt) s = await_response pkt s
  step_from (loaded pkt response) s = finish_load pkt response s
  step_from (resuming ctxt) s = resume ctxt s

  abbrev pub step : Stepped → Option Stepped
  step s = step_from s.state s
