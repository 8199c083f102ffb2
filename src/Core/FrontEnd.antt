-- ===== src/Core/FrontEnd.antt =====
-- The fetch stage and the instruction cache in the core of CoreLib/include/Core.h, with a memory
-- behind the cache. The components of the core and the memory take turns in any order.
pub mod Invariant
pub mod Turns
pub mod OtherTurns
pub mod Safe
use ecc_cpu.Base.{ℕ, ◌+◌, ◌%◌, ◌^◌, ◌<◌, ◌≡◌, true, false, Option, none, some}
use ecc_cpu.Packets.{BusPacket}
use ecc_cpu.Bus.MemoryBus.{MemoryBus, send_read_response}
use ecc_cpu.Stage.Fetch
use ecc_cpu.Stage.Fetch.{FetchState, initial_locals}
use ecc_cpu.Stage.Fetch.Invariant.{IsTarget}
use ecc_cpu.Memory.L1InsnCache
use ecc_cpu.Memory.L1InsnCache.{CacheState, no_address}
use ecc_cpu.Core
use ecc_cpu.Core.{
  Core, step_fetch, step_decode, step_execute, step_store, step_l1d, step_l1i,
  step_vec_mem_controller,
}

-- What the fetch stage has of the core, and what the cache has.
abbrev pub fetch_view : Core → Fetch.Stepped
fetch_view c = record {
  state = c.fetch;
  locals = c.fetch_locals;
  decode_bus = c.fetch_decode_bus;
  store_bus = c.store_fetch_bus;
  memory_bus = c.core_l1i;
  stats = c.stats;
}

abbrev pub cache_view : Core → L1InsnCache.Stepped
cache_view c = record {
  state = c.l1i;
  lines = c.l1i_lines;
  to_cpu = c.core_l1i;
  to_memory = c.l1i_to_l2i;
  stats = c.stats;
}

-- The core and the request that the memory has accepted and not answered yet.
pub record FrontEnd : Type 0 where
  pub core : Core
  pub pending : Option BusPacket

-- A turn of one component, if it does not fail, or of the memory behind a bus. The memory behind the
-- instruction cache answers one request after the other, each with what it holds and after any number
-- of turns; the one behind the data caches does what it likes. The store stage sends the fetch stage
-- to aligned addresses only, and the program counter stays below the address that marks empty lines.
pub data Turn (core_id : ℕ) (memory : ℕ → ℕ) (s : FrontEnd) : FrontEnd → Type 0 where
  fetch :
      {c : Core}
      → s.core.fetch_locals.fetch_pc < no_address
      → step_fetch core_id s.core ≡ some c
      → Turn core_id memory s (record s { core = c })
  decode : {c : Core} → step_decode s.core ≡ some c → Turn core_id memory s (record s { core = c })
  execute :
      {c : Core} → step_execute s.core ≡ some c → Turn core_id memory s (record s { core = c })
  store :
      {c : Core}
      → step_store core_id s.core ≡ some c
      → (c.store_fetch_bus.can_receive ≡ true
          → IsTarget (λ (a : ℕ). memory a) c.store_fetch_bus.packet)
      → Turn core_id memory s (record s { core = c })
  l1d : {c : Core} → step_l1d s.core ≡ some c → Turn core_id memory s (record s { core = c })
  l1i : {c : Core} → step_l1i s.core ≡ some c → Turn core_id memory s (record s { core = c })
  vec_mem_controller :
      {c : Core}
      → step_vec_mem_controller s.core ≡ some c
      → Turn core_id memory s (record s { core = c })
  data_memory :
      (bus : MemoryBus)
      → Turn core_id memory s (record s { core = record s.core { l1d_to_l2d = bus } })
  memory_accepts :
      s.pending ≡ none
      → s.core.l1i_to_l2i.request_busy ≡ true
      → Turn core_id memory s (record {
        core = record s.core { l1i_to_l2i = record s.core.l1i_to_l2i { request_busy = false } };
        pending = some s.core.l1i_to_l2i.request_data;
      })
  memory_answers :
      (pkt : BusPacket)
      → s.pending ≡ some pkt
      → s.core.l1i_to_l2i.response_busy ≡ false
      → Turn core_id memory s (record {
        core = record s.core {
          l1i_to_l2i =
              send_read_response s.core.l1i_to_l2i (memory pkt.address) pkt.source pkt.address;
        };
        pending = none;
      })

-- A core whose fetch stage and instruction cache have not run. What is not initialised, the pair of
-- the fetch stage and the payloads of the lines, can be anything.
abbrev pub booted : Core → ℕ × ℕ → (ℕ → ℕ) → Core
booted c garbage payloads = record c {
  fetch = FetchState.boot;
  fetch_locals = initial_locals garbage;
  l1i = CacheState.boot;
  l1i_lines = λ index. record { address = no_address; payload = payloads index };
}

-- What is reached by turns from there, after the `init` of the core.
pub data Reach (core_id : ℕ) (memory : ℕ → ℕ) : FrontEnd → Type 0 where
  start :
      (c : Core) (garbage : ℕ × ℕ) (payloads : ℕ → ℕ)
      → Reach core_id memory
          (record { core = Core.init (booted c garbage payloads); pending = none })
  later :
      {s t : FrontEnd} → Reach core_id memory s → Turn core_id memory s t → Reach core_id memory t
