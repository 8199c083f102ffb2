-- ===== src/Memory/VectorMemoryController.antt =====
-- CoreLib/VectorMemoryController.cpp: a read or a write of a vector is done as eight reads or
-- writes, one for each lane. `none` is a failed assertion.
pub mod Gather
use ecc_cpu.Base.{
  ℕ, suc, Bool, true, false, ◌==◌, ltb, if◌then◌else◌, Option, some, assert, ◌>>=◌, ◌>>◌,
}
use ecc_cpu.Defines.{BusId, number_of_vector_threads, component_value}
use ecc_cpu.VectorValue.{VectorValue, lane, set_lane, are_all_valid_memory_addresses}
use ecc_cpu.VectorValue
use ecc_cpu.Packets.{
  BusPacket, VecBusPacket, VecBusPacketType, read_vec64, write_vec64, read_response_vec64,
  write_response_vec64,
}
use ecc_cpu.Bus.MemoryBus.{MemoryBus, send_read_request_data, send_write_request_data, get_response}
use ecc_cpu.Bus.VecMemoryBus
use ecc_cpu.Bus.VecMemoryBus.{VecMemoryBus}

-- `accepted` stands after `accept_request`; `read_idle` and `write_idle` wait for the memory's bus
-- to be free; `read_response` waits for the response and `got` stands after `get_response`;
-- `read_next` and `write_next` stand at the end of a round. The number is the lane.
pub data ControllerState : Type 0 where
  top : ControllerState
  accepted : VecBusPacket → ControllerState
  read_idle read_response read_next write_idle write_next : VecBusPacket → ℕ → ControllerState
  got : VecBusPacket → ℕ → BusPacket → ControllerState

pub record Stepped : Type 0 where
  pub state : ControllerState
  pub to_cpu : VecMemoryBus
  pub to_memory : MemoryBus

unfoldable pub await_response : VecBusPacket → ℕ → Stepped → Option Stepped
await_response pkt i s =
    if s.to_memory.response_busy
    then (do
      (mem_pkt, to_memory') ← get_response s.to_memory
      some (record s { state = got pkt i mem_pkt; to_memory = to_memory' }))
    else some (record s { state = read_response pkt i })

unfoldable pub read_lane : VecBusPacket → ℕ → Stepped → Option Stepped
read_lane pkt i s =
    if s.to_memory.request_busy
    then some (record s { state = read_idle pkt i })
    else await_response pkt i (record s {
      to_memory = send_read_request_data s.to_memory (lane pkt.address i) pkt.source;
    })

-- The test of the loop of a read, and what follows the loop.
unfoldable pub read_loop : VecBusPacket → ℕ → Stepped → Option Stepped
read_loop pkt i s = if ltb i number_of_vector_threads then read_lane pkt i s else do
  to_cpu' ← VecMemoryBus.send_response s.to_cpu pkt
  some (record s { state = top; to_cpu = to_cpu' })

unfoldable pub write_lane : VecBusPacket → ℕ → Stepped → Option Stepped
write_lane pkt i s =
    if s.to_memory.request_busy then some (record s { state = write_idle pkt i }) else do
      value ← VectorValue.get pkt.payload i
      some (record s {
        state = write_next pkt (suc i);
        to_memory = send_write_request_data s.to_memory (lane pkt.address i) pkt.source value;
      })

unfoldable pub write_loop : VecBusPacket → ℕ → Stepped → Option Stepped
write_loop pkt i s =
    if ltb i number_of_vector_threads then write_lane pkt i s else some (record s { state = top })

-- The lane of a response is filled in when the response has come back to the right component.
unfoldable pub fill_lane : VecBusPacket → ℕ → BusPacket → Stepped → Option Stepped
fill_lane pkt i mem_pkt s = do
  assert (mem_pkt.source.core_id == pkt.source.core_id)
  assert
      (component_value mem_pkt.source.within_core_id == component_value pkt.source.within_core_id)
  some (record s {
    state = read_next (record pkt { payload = set_lane pkt.payload i mem_pkt.payload }) (suc i);
  })

abbrev pub is_write : VecBusPacketType → Bool
is_write read_vec64 = false
is_write write_vec64 = true
is_write read_response_vec64 = false
is_write write_response_vec64 = false

unfoldable pub serve : VecBusPacketType → VecBusPacket → Stepped → Option Stepped
serve read_vec64 pkt s = read_loop (record pkt { packet_type = read_response_vec64 }) 0 s
serve packet_type pkt s = assert (is_write packet_type) >> write_loop pkt 0 s

-- The step from `state`; the record's own state is not read.
unfoldable pub step_from : ControllerState → Stepped → Option Stepped
step_from top s =
    if s.to_cpu.request_busy
    then (do
      (pkt, to_cpu') ← VecMemoryBus.accept_request s.to_cpu
      some (record s { state = accepted pkt; to_cpu = to_cpu' }))
    else some (record s { state = top })
step_from (accepted pkt) s =
    assert (are_all_valid_memory_addresses pkt.address) >> serve pkt.packet_type pkt s
step_from (read_idle pkt i) s = read_lane pkt i s
step_from (read_response pkt i) s = await_response pkt i s
step_from (got pkt i mem_pkt) s = fill_lane pkt i mem_pkt s
step_from (read_next pkt i) s = read_loop pkt i s
step_from (write_idle pkt i) s = write_lane pkt i s
step_from (write_next pkt i) s = write_loop pkt i s

abbrev pub step : Stepped → Option Stepped
step s = step_from s.state s
