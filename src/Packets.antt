-- ===== src/Packets.antt =====
-- CoreLib/include/Packets.h, and the packets of CoreLib/include/ExecuteToStoreBus.h and
-- CoreLib/include/VecMemoryBus.h: what travels over the buses.
use ecc_cpu.Base.{ℕ, Bool, Option, none, some}
use ecc_cpu.Defines.{RegisterId, BusId, ExecuteStageOpcode, StorageStageOpcode}
use ecc_cpu.VectorValue.{VectorValue}

-- `PC` is `pc`.
pub record FetchToDecodeBusPacket : Type 0 where
  pub exec_mask : ℕ
  pub pc : ℕ
  pub insn : ℕ

pub record StoreToFetchPacket : Type 0 where
  pub exec_mask : ℕ
  pub newpc : ℕ

pub data BusPacketType : Type 0 where
  bus_read_data bus_write_data bus_read_response bus_write_response : BusPacketType

pub record BusPacket : Type 0 where
  pub packet_type : BusPacketType
  pub source : BusId
  pub address : ℕ
  pub payload : ℕ

-- A union is a sum that knows which member was written last.
pub data DecodeStageValue : Type 0 where
  reg_id : RegisterId → DecodeStageValue
  vec : VectorValue → DecodeStageValue

-- A read of another member than the one written last is undefined.
abbrev pub value_reg_id : DecodeStageValue → Option RegisterId
value_reg_id (reg_id id) = some id
value_reg_id (vec v) = none

abbrev pub value_vec : DecodeStageValue → Option VectorValue
value_vec (reg_id id) = none
value_vec (vec v) = some v

pub record DecodeExecPacket : Type 0 where
  pub exec_mask : ℕ
  pub pc : ℕ
  pub opcode : ExecuteStageOpcode
  pub value0 : DecodeStageValue
  pub value1 : VectorValue
  pub value2 : VectorValue

pub data ExecStageValue : Type 0 where
  of_address : ℕ → ExecStageValue
  of_value : VectorValue → ExecStageValue
  of_reg : RegisterId → ExecStageValue

abbrev pub stage_address : ExecStageValue → Option ℕ
stage_address (of_address a) = some a
stage_address (of_value v) = none
stage_address (of_reg r) = none

abbrev pub stage_value : ExecStageValue → Option VectorValue
stage_value (of_address a) = none
stage_value (of_value v) = some v
stage_value (of_reg r) = none

abbrev pub stage_reg : ExecStageValue → Option RegisterId
stage_reg (of_address a) = none
stage_reg (of_value v) = none
stage_reg (of_reg r) = some r

pub record ExecStagePacket : Type 0 where
  pub exec_mask : ℕ
  pub pc : ℕ
  pub opcode : StorageStageOpcode
  pub dest : ExecStageValue
  pub src : ExecStageValue
  pub is_store_to_pc : Bool
  pub execution_flags_true : ℕ
  pub execution_flags_false : ℕ

pub data VecBusPacketType : Type 0 where
  read_vec64 write_vec64 read_response_vec64 write_response_vec64 : VecBusPacketType

pub record VecBusPacket : Type 0 where
  pub packet_type : VecBusPacketType
  pub source : BusId
  pub address : VectorValue
  pub payload : VectorValue

abbrev pub create_bus_packet : BusPacketType → BusId → ℕ → ℕ → BusPacket
create_bus_packet pkt_type source address payload = record {
  packet_type = pkt_type;
  source = source;
  address = address;
  payload = payload;
}

abbrev pub create_fetch_decode_packet : ℕ → ℕ → ℕ → FetchToDecodeBusPacket
create_fetch_decode_packet exec_mask pc insn = record {
  exec_mask = exec_mask;
  pc = pc;
  insn = insn;
}
