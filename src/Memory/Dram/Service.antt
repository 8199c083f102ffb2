-- ===== src/Memory/Dram/Service.antt =====
-- How long CoreLib/DRAM.cpp takes over a request, and what it leaves behind.
use ecc_cpu.Base.{
  lt→ltb, le→ltb, ◌≤◌, ℕ, zero, suc, ◌-◌, ◌<◌, ◌≡◌, refl, ◌∙◌, true, false, none, some,
}
use ecc_cpu.Defines.{end_memory_address}
use ecc_cpu.Packets.{
  BusPacket, BusPacketType, bus_read_data, bus_write_data, bus_read_response, bus_write_response,
}
use ecc_cpu.Bus.MemoryBus.{accept_request, send_read_response}
use ecc_cpu.Memory.Dram.{
  top, accepted, read_delay, write_delay, Stepped, steps, step_from, serve, read_after, write_after,
  read_value, write_value,
}

-- What is left of a read with `left` rounds of its delay to go.
read_rounds :
    (left : ℕ) (pkt : BusPacket) (s : Stepped)
    → steps (suc left) (record s { state = read_delay pkt left }) ≡ some (read_after pkt 0 s)
unfolding steps step_from read_after
read_rounds zero pkt s = refl
read_rounds (suc left) pkt s = read_rounds left pkt s

write_rounds :
    (left : ℕ) (pkt : BusPacket) (s : Stepped)
    → steps (suc left) (record s { state = write_delay pkt left }) ≡ some (write_after pkt 0 s)
unfolding steps step_from write_after
write_rounds zero pkt s = refl
write_rounds (suc left) pkt s = write_rounds left pkt s

-- The memory with the request of its bus taken.
abbrev pub taken : Stepped → Stepped
taken s = record s { to_cpu = record s.to_cpu { request_busy = false } }

abbrev pub request : Stepped → BusPacket
request s = s.to_cpu.request_data

accept_step :
    (n : ℕ) (s : Stepped)
    → s.state ≡ top
    → s.to_cpu.request_busy ≡ true
    → steps (suc n) s ≡ steps n (record (taken s) { state = accepted (request s) })
unfolding steps step_from accept_request
accept_step n s at_top busy = simp (at_top, busy)

read_step :
    (n : ℕ) (s : Stepped) (pkt : BusPacket)
    → pkt.packet_type ≡ bus_read_data
    → pkt.address < end_memory_address - 8
    → steps (suc n) (record s { state = accepted pkt })
      ≡ steps n (record s { state = read_delay pkt 100 })
unfolding steps step_from serve
read_step n s pkt reads fits = simp (reads, lt→ltb pkt.address (end_memory_address - 8) fits)

write_step :
    (n : ℕ) (s : Stepped) (pkt : BusPacket)
    → pkt.packet_type ≡ bus_write_data
    → pkt.address < end_memory_address - 8
    → steps (suc n) (record s { state = accepted pkt })
      ≡ steps n (record s { state = write_delay pkt 99 })
unfolding steps step_from serve write_after
write_step n s pkt writes fits = simp (writes, lt→ltb pkt.address (end_memory_address - 8) fits)

-- At the start of its loop, with a read of an address below the bound on its bus, the memory
-- answers in 103 steps with the eight bytes there, the request's source and its address; the
-- storage is unchanged and the request is taken.
pub read_served :
    (s : Stepped)
    → s.state ≡ top
    → s.to_cpu.request_busy ≡ true
    → (request s).packet_type ≡ bus_read_data
    → (request s).address < end_memory_address - 8
    → steps 103 s
      ≡ some (record s {
        state = top;
        to_cpu =
            send_read_response
              (record s.to_cpu { request_busy = false })
              (read_value s.storage (request s).address)
              (request s).source
              (request s).address;
      })
unfolding read_after
read_served s at_top busy reads fits =
    accept_step 102 s at_top busy
    ∙ read_step 101 (taken s) (request s) reads fits
    ∙ read_rounds 100 (request s) (taken s)

-- At the start of its loop, with a write of an address below the bound on its bus, the memory has
-- done the write in 102 steps, without a response, and the request is taken.
pub write_served :
    (s : Stepped)
    → s.state ≡ top
    → s.to_cpu.request_busy ≡ true
    → (request s).packet_type ≡ bus_write_data
    → (request s).address < end_memory_address - 8
    → steps 102 s
      ≡ some (record (taken s) {
        state = top;
        storage = write_value s.storage (request s).address (request s).payload;
      })
unfolding write_after
write_served s at_top busy writes fits =
    accept_step 101 s at_top busy
    ∙ write_step 100 (taken s) (request s) writes fits
    ∙ write_rounds 99 (request s) (taken s)

serve-beyond :
    (t : BusPacketType) (pkt : BusPacket) (s : Stepped)
    → end_memory_address - 8 ≤ pkt.address
    → serve t pkt s ≡ none
unfolding serve
serve-beyond bus_read_data pkt s h = rw (le→ltb pkt.address (end_memory_address - 8) h)
serve-beyond bus_write_data pkt s h = rw (le→ltb pkt.address (end_memory_address - 8) h)
serve-beyond bus_read_response pkt s h = refl
serve-beyond bus_write_response pkt s h = refl

-- At the start of the loop, with a request from the last eight addresses on, an assertion or the
-- abort fails in the second step, though eight bytes of the storage begin at the first of those
-- addresses.
pub last_word_fails :
    (s : Stepped) (n : ℕ)
    → s.state ≡ top
    → s.to_cpu.request_busy ≡ true
    → end_memory_address - 8 ≤ (request s).address
    → steps (suc (suc n)) s ≡ none
unfolding steps step_from
last_word_fails s n at_top busy beyond =
    accept_step (suc n) s at_top busy
    ∙ rw (
        serve-beyond (request s).packet_type (request s)
          (record (taken s) { state = accepted (request s) }) beyond)
