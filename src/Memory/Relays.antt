-- ===== src/Memory/Relays.antt =====
-- CoreLib/L1DataCache.cpp, CoreLib/L2DataCache.cpp, CoreLib/L2InsnCache.cpp and
-- CoreLib/L3Cache.cpp: the levels of the memory hierarchy that store nothing and hand requests down
-- and responses up. A step is one round of the loop. `none` is a failed assertion of a bus.
pub mod Lossless
use ecc_cpu.Base.{
  ℕ, ◌-◌, bit_and, ◌>>>◌, u32, ◌==◌, if◌then◌else◌, Option, some, assert, ◌>>=◌, ◌>>◌,
}
use ecc_cpu.Packets.{BusPacket, bus_read_data, bus_read_response}
use ecc_cpu.Bus.MemoryBus.{MemoryBus, accept_request, get_response, send_request, send_response}

-- `toCPU` and `toMemory` of each of the four classes.
pub record Relay : Type 0 where
  pub to_cpu : MemoryBus
  pub to_memory : MemoryBus

abbrev pub num_cache_lines_l1_data_cache : ℕ
num_cache_lines_l1_data_cache = 128

unfoldable pub get_l1_data_cache_index : ℕ → Option ℕ
get_l1_data_cache_index address =
    assert (bit_and address (8 - 1) == 0)
    >> some (bit_and (u32 address >>> 3) (num_cache_lines_l1_data_cache - 1))

-- The first half of a round of the two data caches and of the third level.
unfoldable pub pass_request : Relay → Option Relay
pass_request r =
    if r.to_memory.request_busy
    then some r
    else if r.to_cpu.request_busy
    then (do
      (pkt, to_cpu') ← accept_request r.to_cpu
      to_memory' ← send_request r.to_memory pkt
      some (record { to_cpu = to_cpu'; to_memory = to_memory' }))
    else some r

-- The second half of a round of the second and the third level of the data path.
unfoldable pub pass_response : Relay → Option Relay
pass_response r =
    if r.to_memory.response_busy
    then (do
      (pkt, to_memory') ← get_response r.to_memory
      to_cpu' ← send_response r.to_cpu pkt
      some (record { to_cpu = to_cpu'; to_memory = to_memory' }))
    else some r

unfoldable pub l1_data_step : Relay → Option Relay
l1_data_step r = do
  r' ← pass_request r
  if r'.to_cpu.response_busy then some r' else pass_response r'

unfoldable pub l2_data_step : Relay → Option Relay
l2_data_step r = pass_request r >>= λ r'. pass_response r'

unfoldable pub l3_step : Relay → Option Relay
l3_step r = pass_request r >>= λ r'. pass_response r'

-- The packets that the second level of the instruction path makes of a request and of a response.
abbrev pub raw_packet : BusPacket → BusPacket
raw_packet pkt = record {
  packet_type = bus_read_data;
  source = pkt.source;
  address = pkt.address;
  payload = pkt.address;
}

abbrev pub insn_cache_packet : BusPacket → BusPacket
insn_cache_packet pkt = record {
  packet_type = bus_read_response;
  source = pkt.source;
  address = pkt.address;
  payload = pkt.payload;
}

unfoldable pub pass_insn_request : Relay → Option Relay
pass_insn_request r =
    if r.to_cpu.request_busy
    then (do
      (pkt, to_cpu') ← accept_request r.to_cpu
      to_memory' ← send_request r.to_memory (raw_packet pkt)
      some (record { to_cpu = to_cpu'; to_memory = to_memory' }))
    else some r

unfoldable pub pass_insn_response : Relay → Option Relay
pass_insn_response r =
    if r.to_memory.response_busy
    then (do
      (pkt, to_memory') ← get_response r.to_memory
      to_cpu' ← send_response r.to_cpu (insn_cache_packet pkt)
      some (record { to_cpu = to_cpu'; to_memory = to_memory' }))
    else some r

-- Unlike the other levels, this one does not wait for the memory's bus.
unfoldable pub l2_insn_step : Relay → Option Relay
l2_insn_step r = pass_insn_request r >>= λ r'. pass_insn_response r'
