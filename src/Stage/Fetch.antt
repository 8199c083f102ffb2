-- ===== src/Stage/Fetch.antt =====
-- CoreLib/FetchStage.cpp: instruction words are read in pairs, one aligned 8-byte read for each
-- pair, and sent to the decode stage; after an instruction that changes control flow the stage
-- waits for the store stage to say where to go on.
pub mod Invariant
pub mod Correct
pub mod Requests
use ecc_cpu.Base.{
  ℕ, ◌+◌, ◌-◌, ◌^◌, bit_and, ◌>>>◌, u32, u64, Bool, true, false, ◌==◌, if◌then◌else◌, Option, none,
  some, assert, ◌>>=◌, ◌>>◌,
}
use ecc_cpu.Defines.{
  BusId, CoreComponentId, instruction_size, all_threads_exec_mask, Opcode, get_opcode,
}
use ecc_cpu.Packets.{
  BusPacket, BusPacketType, StoreToFetchPacket, create_fetch_decode_packet, bus_read_data,
  bus_write_data, bus_read_response, bus_write_response,
}
use ecc_cpu.GlobalStats.{GlobalStats, inc_fetched_insn_wait}
use ecc_cpu.Bus.FetchToDecodeBus
use ecc_cpu.Bus.FetchToDecodeBus.{FetchToDecodeBus}
use ecc_cpu.Bus.StoreToFetchBus
use ecc_cpu.Bus.StoreToFetchBus.{StoreToFetchBus}
use ecc_cpu.Bus.MemoryBus.{MemoryBus, send_read_request_data, get_response}

-- The two instructions of an 8-byte word, the one at the lower address first.
unfoldable pub get_insn_data : ℕ → ℕ × ℕ
get_insn_data value = (u32 value, u32 (value >>> 32))

-- `~7` is an `int` that is sign-extended.
unfoldable pub get_address_to_fetch_from_pc : ℕ → ℕ
get_address_to_fetch_from_pc fetch_pc = bit_and fetch_pc (2 ^ 64 - 8)

unfoldable pub changes_control_flow : Opcode → Bool
changes_control_flow Opcode.halt = true
changes_control_flow Opcode.jmp_always = true
changes_control_flow Opcode.jmp_equal = true
changes_control_flow Opcode.jmp_not_equal = true
changes_control_flow Opcode.jmp_greater = true
changes_control_flow Opcode.jmp_greater_equal = true
changes_control_flow Opcode.jmp_lower = true
changes_control_flow Opcode.jmp_lower_equal = true
changes_control_flow Opcode.load_restore_pc = true
changes_control_flow _ = false

-- The local variables of `run` that live across a switch; `insn_data_cached` is not initialised.
pub record Locals : Type 0 where
  pub have_outstanding_jmp : Bool
  pub fetch_pc : ℕ
  pub exec_mask : ℕ
  pub address_cached : ℕ
  pub insn_data_cached : ℕ × ℕ

abbrev pub initial_locals : ℕ × ℕ → Locals
initial_locals garbage = record {
  have_outstanding_jmp = false;
  fetch_pc = 0;
  exec_mask = all_threads_exec_mask;
  address_cached = 0xffff_ffff_ffff_ffff;
  insn_data_cached = garbage;
}

-- `boot` is the start of `run`; `top` that of the outer loop; `await_target` waits for the store
-- stage; `got_target` stands after `recv` and `have_target` after the assignments; `await_response`
-- waits for the memory; `got_response` stands after `get_response` and `have_response` after the
-- assignments; `emitting` has the instruction and waits for the decode bus.
pub data FetchState : Type 0 where
  boot top await_target have_target await_response have_response : FetchState
  got_target : StoreToFetchPacket → FetchState
  got_response : BusPacket → FetchState
  fetched emitting : ℕ → FetchState

pub record Stepped : Type 0 where
  pub state : FetchState
  pub locals : Locals
  pub decode_bus : FetchToDecodeBus
  pub store_bus : StoreToFetchBus
  pub memory_bus : MemoryBus
  pub stats : GlobalStats

-- `createBusID(core_id, COMPONENT_TYPE_FETCH)`
abbrev pub fetch_id : ℕ → BusId
fetch_id core_id = record { core_id = core_id; within_core_id = CoreComponentId.fetch }

abbrev pub is_read_response : BusPacketType → Bool
is_read_response bus_read_data = false
is_read_response bus_write_data = false
is_read_response bus_read_response = true
is_read_response bus_write_response = false

-- The instruction at `fetch_PC`, from the two that are held; `none` is the assertion that it is
-- one of them.
unfoldable pub select_insn : Locals → Option ℕ
select_insn l =
    if l.address_cached == l.fetch_pc
    then some (l.insn_data_cached).0
    else if u64 (l.address_cached + instruction_size) == l.fetch_pc
    then some (l.insn_data_cached).1
    else none

-- From the choice of the instruction to the next switch.
unfoldable pub select : Stepped → Option Stepped
select s = select_insn s.locals >>= λ insn. some (record s { state = fetched insn })

unfoldable pub await_target_loop : Stepped → Option Stepped
await_target_loop s =
    if s.store_bus.can_receive
    then (do
      (target, store_bus') ← StoreToFetchBus.recv s.store_bus
      some (record s { state = got_target target; store_bus = store_bus' }))
    else some (record s { state = await_target })

unfoldable pub await_response_loop : Stepped → Option Stepped
await_response_loop s =
    if s.memory_bus.response_busy
    then (do
      (response, memory_bus') ← get_response s.memory_bus
      some (record s { state = got_response response; memory_bus = memory_bus' }))
    else some (record s { state = await_response; stats = inc_fetched_insn_wait s.stats })

unfoldable pub emit : ℕ → Stepped → Option Stepped
emit insn s = if s.decode_bus.is_busy then some (record s { state = emitting insn }) else do
  let l = s.locals
  decode_bus' ←
      FetchToDecodeBus.send s.decode_bus (create_fetch_decode_packet l.exec_mask l.fetch_pc insn)
  some (record s {
    state = top;
    locals = record l { fetch_pc = u64 (l.fetch_pc + instruction_size) };
    decode_bus = decode_bus';
  })

module _ (core_id : ℕ) where
  -- From the test of the two cached addresses on.
  unfoldable pub look_up : Stepped → Option Stepped
  look_up s =
      let l = s.locals in
      if l.address_cached == l.fetch_pc
      then select s
      else if u64 (l.address_cached + instruction_size) == l.fetch_pc
      then select s
      else await_response_loop (record s {
        memory_bus =
            send_read_request_data s.memory_bus (get_address_to_fetch_from_pc l.fetch_pc)
              (fetch_id core_id);
      })

  -- The step from `state`; the record's own state is not read.
  unfoldable pub step_from : FetchState → Stepped → Option Stepped
  step_from boot s = some (record s { state = top })
  step_from top s =
      if s.locals.have_outstanding_jmp
      then await_target_loop
          (record s { locals = record s.locals { have_outstanding_jmp = false } })
      else look_up s
  step_from await_target s = await_target_loop s
  step_from (got_target target) s = some (record s {
    state = have_target;
    locals = record s.locals { fetch_pc = target.newpc; exec_mask = target.exec_mask };
  })
  step_from have_target s = look_up s
  step_from await_response s = await_response_loop s
  step_from (got_response response) s =
      assert (is_read_response response.packet_type)
      >> some (record s {
        state = have_response;
        locals = record s.locals {
          address_cached = get_address_to_fetch_from_pc s.locals.fetch_pc;
          insn_data_cached = get_insn_data response.payload;
        };
      })
  step_from have_response s = select s
  step_from (fetched insn) s = emit insn (record s {
    locals = record s.locals { have_outstanding_jmp = changes_control_flow (get_opcode insn) };
  })
  step_from (emitting insn) s = emit insn s

  abbrev pub step : Stepped → Option Stepped
  step s = step_from s.state s
