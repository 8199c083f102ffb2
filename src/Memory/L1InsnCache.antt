-- ===== src/Memory/L1InsnCache.antt =====
-- CoreLib/L1InsnCache.cpp: a direct-mapped cache of 128 lines of eight bytes between the fetch
-- stage and the memory.
pub mod Coherence
pub mod Conserved
use ecc_cpu.Base.{
  ℕ, ◌+◌, ◌-◌, ◌^◌, bit_and, ◌>>>◌, u32, ◌==◌, if◌then◌else◌, Option, none, some, assert, ◌>>=◌,
  ◌>>◌, update,
}
use ecc_cpu.Packets.{BusPacket}
use ecc_cpu.GlobalStats.{GlobalStats, inc_num_l1_insn_cache_hits}
use ecc_cpu.Bus.MemoryBus.{
  MemoryBus, accept_request, get_response, send_request, send_response, send_read_response,
}

pub record L1InsnCacheLine : Type 0 where
  pub address : ℕ
  pub payload : ℕ

abbrev pub num_cache_lines_l1_insn_cache : ℕ
num_cache_lines_l1_insn_cache = 128

-- The address that the lines have at first, with a payload that is not initialised.
abbrev pub no_address : ℕ
no_address = 100000000

-- `none` is the assertion that the address is aligned.
unfoldable pub get_l1_insn_cache_index : ℕ → Option ℕ
get_l1_insn_cache_index address =
    assert (bit_and address (8 - 1) == 0)
    >> some (bit_and (u32 address >>> 3) (num_cache_lines_l1_insn_cache - 1))

-- `accepted` stands after `accept_request`; `hit` waits for the CPU's bus and `miss` for the
-- memory's; `filling` stands after `get_response`, and `answering` waits for the CPU's bus.
pub data CacheState : Type 0 where
  boot top : CacheState
  accepted hit miss filling answering : BusPacket → CacheState

pub record Stepped : Type 0 where
  pub state : CacheState
  pub lines : ℕ → L1InsnCacheLine
  pub to_cpu : MemoryBus
  pub to_memory : MemoryBus
  pub stats : GlobalStats

-- The second half of the outer loop.
unfoldable pub take_response : Stepped → Option Stepped
take_response s =
    if s.to_memory.response_busy
    then (do
      (pkt, to_memory') ← get_response s.to_memory
      some (record s { state = filling pkt; to_memory = to_memory' }))
    else some (record s { state = top })

unfoldable pub answer_hit : BusPacket → Stepped → Option Stepped
answer_hit pkt s = if s.to_cpu.response_busy then some (record s { state = hit pkt }) else do
  index ← get_l1_insn_cache_index pkt.address
  take_response (record s {
    to_cpu = send_read_response s.to_cpu (s.lines index).payload pkt.source pkt.address;
  })

unfoldable pub forward_miss : BusPacket → Stepped → Option Stepped
forward_miss pkt s = if s.to_memory.request_busy then some (record s { state = miss pkt }) else do
  to_memory' ← send_request s.to_memory pkt
  take_response (record s { to_memory = to_memory' })

unfoldable pub answer : BusPacket → Stepped → Option Stepped
answer pkt s =
    if s.to_cpu.response_busy
    then some (record s { state = answering pkt })
    else do to_cpu' ← send_response s.to_cpu pkt; some (record s { state = top; to_cpu = to_cpu' })

unfoldable pub look_up : BusPacket → Stepped → Option Stepped
look_up pkt s = do
  index ← get_l1_insn_cache_index pkt.address
  if (s.lines index).address == pkt.address
      then answer_hit pkt (record s { stats = inc_num_l1_insn_cache_hits s.stats })
      else forward_miss pkt s

unfoldable pub fill : BusPacket → Stepped → Option Stepped
fill pkt s = do
  index ← get_l1_insn_cache_index pkt.address
  answer pkt (record s {
    lines = update s.lines index (record { address = pkt.address; payload = pkt.payload });
  })

-- The step from `state`; the record's own state is not read.
unfoldable pub step_from : CacheState → Stepped → Option Stepped
step_from boot s = some (record s { state = top })
step_from top s =
    if s.to_cpu.request_busy
    then (do
      (pkt, to_cpu') ← accept_request s.to_cpu
      some (record s { state = accepted pkt; to_cpu = to_cpu' }))
    else take_response s
step_from (accepted pkt) s = look_up pkt s
step_from (hit pkt) s = answer_hit pkt s
step_from (miss pkt) s = forward_miss pkt s
step_from (filling pkt) s = fill pkt s
step_from (answering pkt) s = answer pkt s

abbrev pub step : Stepped → Option Stepped
step s = step_from s.state s
