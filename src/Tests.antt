-- ===== src/Tests.antt =====
-- Concrete states of the components, and the theorems applied to them: the buses of
-- CoreLib/include and the registers as `Core` starts them.
mod Assembler
mod Stages
mod Memory
mod Machine
mod FrontEnd
mod Halting
mod Programs
use ecc_cpu.Base.{ℕ, Bool, true, false}
use ecc_cpu.Defines.{BusId, CoreComponentId, ExecuteStageOpcode, StorageStageOpcode}
use ecc_cpu.VectorValue.{VectorValue, create_vec_int64}
use ecc_cpu.RegisterFile.{zeroed}
use ecc_cpu.DivergenceQueue.{ThreadContext, DivergenceQueue}
use ecc_cpu.GlobalStats.{GlobalStats}
use ecc_cpu.Packets.{
  BusPacket, BusPacketType, VecBusPacket, read_vec64, bus_read_data, bus_read_response,
  DecodeExecPacket, ExecStagePacket, of_address, vec,
}
use ecc_cpu.Bus.MemoryBus.{MemoryBus}
use ecc_cpu.Bus.VecMemoryBus.{VecMemoryBus}
use ecc_cpu.Bus.StoreToFetchBus.{StoreToFetchBus}
use ecc_cpu.Bus.FetchToDecodeBus.{FetchToDecodeBus}
use ecc_cpu.Bus.DecodeToExecuteBus.{DecodeToExecuteBus}
use ecc_cpu.Bus.ExecuteToStoreBus.{ExecuteToStoreBus}

abbrev pub ascending : VectorValue
ascending = record {
  data0 = 0;
  data1 = 8;
  data2 = 16;
  data3 = 24;
  data4 = 32;
  data5 = 40;
  data6 = 48;
  data7 = 56;
}

abbrev pub from_fetch_stage : BusId
from_fetch_stage = record { core_id = 0; within_core_id = CoreComponentId.fetch }

abbrev pub from_store_stage : BusId
from_store_stage = record { core_id = 0; within_core_id = CoreComponentId.store }

abbrev pub packet : BusPacketType → BusId → ℕ → ℕ → BusPacket
packet t source address payload = record {
  packet_type = t;
  source = source;
  address = address;
  payload = payload;
}

abbrev pub a_read : BusPacket
a_read = packet bus_read_data from_fetch_stage 16 0

abbrev pub bus_with : Bool → BusPacket → Bool → BusPacket → MemoryBus
bus_with asked request given response = record {
  request_busy = asked;
  request_data = request;
  response_busy = given;
  response_data = response;
}

abbrev pub idle_bus : MemoryBus
idle_bus = bus_with false a_read false a_read

abbrev pub a_vec_read : VecBusPacket
a_vec_read = record {
  packet_type = read_vec64;
  source = from_store_stage;
  address = ascending;
  payload = ascending;
}

abbrev pub vec_bus : Bool → VecMemoryBus
vec_bus asked = record {
  request_busy = asked;
  request_queue = a_vec_read;
  response_busy = false;
  response_queue = a_vec_read;
}

abbrev pub no_stats : GlobalStats
no_stats = record {
  wait_for_insn_fetch = 0;
  num_cycles_used = 0;
  wait_for_operand_fetch = 0;
  num_vector_local_divergences = 0;
  num_l1_insn_cache_hits = 0;
}

abbrev pub free_fetch_bus : StoreToFetchBus
free_fetch_bus = record { can_receive = false; packet = record { exec_mask = 0; newpc = 0 } }

abbrev pub free_decode_bus : FetchToDecodeBus
free_decode_bus = record { is_busy = false; packet = record { exec_mask = 0; pc = 0; insn = 0 } }

abbrev pub a_request : DecodeExecPacket
a_request = record {
  exec_mask = 255;
  pc = 64;
  opcode = ExecuteStageOpcode.cond_jmp;
  value0 = vec (create_vec_int64 16);
  value1 = create_vec_int64 8;
  value2 = ascending;
}

abbrev pub free_execute_bus : DecodeToExecuteBus
free_execute_bus = record { is_busy = false; packet = a_request }

abbrev pub a_split : ExecStagePacket
a_split = record {
  exec_mask = 255;
  pc = 64;
  opcode = StorageStageOpcode.cjmp;
  dest = of_address 80;
  src = of_address 68;
  is_store_to_pc = false;
  execution_flags_true = 15;
  execution_flags_false = 240;
}

abbrev pub free_store_bus : ExecuteToStoreBus
free_store_bus = record { is_busy = false; packet = a_split }

abbrev pub a_context : ThreadContext
a_context = record { regs = zeroed; pc = 80; exec_mask = 15 }

-- A queue that holds the contexts from one position up to the other.
abbrev pub queue : ℕ → ℕ → DivergenceQueue
queue from to = record { contexts = λ _. a_context; read_pos = from; write_pos = to }
