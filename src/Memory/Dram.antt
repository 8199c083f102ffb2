-- ===== src/Memory/Dram.antt =====
-- CoreLib/DRAM.cpp, with `PACK8_BYTES` and the two delays of CoreLib/include/Task.h.
pub mod Bytes
pub mod Service
use ecc_cpu.Base.{
  ℕ, zero, suc, ◌+◌, ◌-◌, ◌*◌, ◌^◌, bit_or, ◌<<<◌, ◌>>>◌, u8, u32, ltb, if◌then◌else◌, Option, none,
  some, assert, ◌>>=◌, ◌>>◌, update,
}
use ecc_cpu.Defines.{end_memory_address, dram_read_access_cycles, dram_write_access_cycles}
use ecc_cpu.Packets.{
  BusPacket, BusPacketType, bus_read_data, bus_write_data, bus_read_response, bus_write_response,
}
use ecc_cpu.Bus.MemoryBus.{MemoryBus, accept_request, send_read_response}

-- The array `storage` of `END_MEMORY_ADDRESS` bytes.
abbrev pub Storage : Type 0
Storage = ℕ → ℕ

unfoldable pub initial_write_to_global_memory : Storage → ℕ → ℕ → Storage
initial_write_to_global_memory storage address byte = update storage (u32 address) byte

abbrev pub pack8_bytes : ℕ → ℕ → ℕ → ℕ → ℕ → ℕ → ℕ → ℕ → ℕ
pack8_bytes a0 a1 a2 a3 a4 a5 a6 a7 =
    bit_or
      (bit_or
        (bit_or
          (bit_or (bit_or (bit_or (bit_or (a0 <<< 0) (a1 <<< 8)) (a2 <<< 16)) (a3 <<< 24))
            (a4 <<< 32))
          (a5 <<< 40))
        (a6 <<< 48))
      (a7 <<< 56)

-- The value of a read.
unfoldable pub read_value : Storage → ℕ → ℕ
read_value storage address =
    pack8_bytes (storage (u32 (address + 0))) (storage (u32 (address + 1)))
      (storage (u32 (address + 2))) (storage (u32 (address + 3))) (storage (u32 (address + 4)))
      (storage (u32 (address + 5))) (storage (u32 (address + 6))) (storage (u32 (address + 7)))

-- The loop of a write with `left` bytes to go, at byte `i`.
unfoldable pub write_from : ℕ → ℕ → ℕ → ℕ → Storage → Storage
write_from zero i address payload storage = storage
write_from (suc left) i address payload storage =
    write_from left (suc i) address payload
      (update storage (u32 (address + i)) (u8 (payload >>> (i * 8))))

abbrev pub write_value : Storage → ℕ → ℕ → Storage
write_value storage address payload = write_from 8 0 address payload storage

-- `assert(pkt.address < (sizeof(storage) - 8))`
abbrev pub in_storage : ℕ → Option (Unit {0})
in_storage address = assert (ltb address (end_memory_address - 8))

-- `accepted` stands after `accept_request`; the delays name the rounds that are left.
pub data DramState : Type 0 where
  top : DramState
  accepted : BusPacket → DramState
  read_delay write_delay : BusPacket → ℕ → DramState

pub record Stepped : Type 0 where
  pub state : DramState
  pub to_cpu : MemoryBus
  pub storage : Storage

unfoldable pub read_after : BusPacket → ℕ → Stepped → Stepped
read_after pkt zero s = record s {
  state = top;
  to_cpu = send_read_response s.to_cpu (read_value s.storage pkt.address) pkt.source pkt.address;
}
read_after pkt (suc left) s = record s { state = read_delay pkt left }

unfoldable pub write_after : BusPacket → ℕ → Stepped → Stepped
write_after pkt zero s = record s {
  state = top;
  storage = write_value s.storage pkt.address pkt.payload;
}
write_after pkt (suc left) s = record s { state = write_delay pkt left }

-- `none` is also the `abort` of the default case.
unfoldable pub serve : BusPacketType → BusPacket → Stepped → Option Stepped
serve bus_read_data pkt s =
    in_storage pkt.address >> some (record s { state = read_delay pkt dram_read_access_cycles })
serve bus_write_data pkt s =
    in_storage pkt.address >> some (write_after pkt dram_write_access_cycles s)
serve bus_read_response pkt s = none
serve bus_write_response pkt s = none

-- The step from `state`; the record's own state is not read.
unfoldable pub step_from : DramState → Stepped → Option Stepped
step_from top s =
    if s.to_cpu.request_busy
    then (do
      (pkt, to_cpu') ← accept_request s.to_cpu
      some (record s { state = accepted pkt; to_cpu = to_cpu' }))
    else some (record s { state = top })
step_from (accepted pkt) s = serve pkt.packet_type pkt s
step_from (read_delay pkt left) s = some (read_after pkt left s)
step_from (write_delay pkt left) s = some (write_after pkt left s)

abbrev pub step : Stepped → Option Stepped
step s = step_from s.state s

-- `n` steps with no other component in between.
unfoldable pub steps : ℕ → Stepped → Option Stepped
steps zero s = some s
steps (suc n) s = step s >>= λ s'. steps n s'
