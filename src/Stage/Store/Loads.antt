-- ===== src/Stage/Store/Loads.antt =====
-- A whole load of CoreLib/StoreStage.cpp, from the request to the memory to the write of the register.
use ecc_cpu.Base.{
  ℕ, zero, suc, ◌<◌, ◌≡◌, refl, ap, ◌∙◌, true, false, Option, none, some, ◌>>=◌, lt→ltb,
}
use ecc_cpu.Defines.{RegisterId, max_reg_id, StorageStageOpcode}
use ecc_cpu.GlobalStats.{GlobalStats, inc_wait_for_operand_fetch}
use ecc_cpu.VectorValue.{VectorValue}
use ecc_cpu.Packets.{ExecStagePacket, VecBusPacket, read_vec64, of_reg, of_value}
use ecc_cpu.Bus.VecMemoryBus.{send_read_request_vec}
use ecc_cpu.Stage.Store.{
  Stepped, storing, loading, store_id, store_op, load_mem_into_reg, await_response, step_from, step,
}
use ecc_cpu.Stage.Store.Load.{Completes, load-Completes}

-- `k` steps, one after the other.
unfoldable pub steps : ℕ → ℕ → Stepped → Option Stepped
steps core_id zero s = some s
steps core_id (suc k) s = step core_id s >>= λ s1. steps core_id k s1

-- The memory takes the request and answers it.
abbrev pub answered : VecBusPacket → Stepped → Stepped
answered response s = record s {
  memory_bus = record {
    request_busy = false;
    request_queue = s.memory_bus.request_queue;
    response_busy = true;
    response_queue = response;
  };
}

-- A read of the addresses in the name of the store stage is on the bus, and two steps after the
-- memory's answer the load is done, seen from the state `s` before it.
abbrev pub Loads :
    ℕ
    → ExecStagePacket
    → RegisterId
    → VectorValue
    → VecBusPacket
    → Stepped
    → Option Stepped
    → Type 0
Loads core_id pkt id addresses response s none = ⊥
Loads core_id pkt id addresses response s (some s1) =
    (s1.memory_bus.request_busy ≡ true)
    × (s1.memory_bus.request_queue.packet_type ≡ read_vec64)
    × (s1.memory_bus.request_queue.address ≡ addresses)
    × (s1.memory_bus.request_queue.source ≡ store_id core_id)
    × Completes pkt id response.payload s (step core_id (answered response s1) >>= step core_id)

-- The stage after the request, that has waited `k` steps more.
abbrev waiting : ℕ → ExecStagePacket → VectorValue → GlobalStats → Stepped → Stepped
waiting core_id pkt addresses stats s = record s {
  state = loading pkt;
  memory_bus = record s.memory_bus {
    request_busy = true;
    request_queue = record s.memory_bus.request_queue {
      source = store_id core_id;
      address = addresses;
      packet_type = read_vec64;
    };
  };
  stats = stats;
}

-- Without a response the stage only counts.
step-waits :
    (core_id : ℕ) (pkt : ExecStagePacket) (addresses : VectorValue) (stats : GlobalStats)
    (s : Stepped)
    → (s.memory_bus).response_busy ≡ false
    → step core_id (waiting core_id pkt addresses stats s)
      ≡ some (waiting core_id pkt addresses (inc_wait_for_operand_fetch stats) s)
unfolding step_from await_response
step-waits core_id pkt addresses stats s idle = simp idle refl

steps-waits :
    (core_id k : ℕ) (pkt : ExecStagePacket) (addresses : VectorValue) (stats : GlobalStats)
    (s : Stepped)
    → (s.memory_bus).response_busy ≡ false
    → (stats' : GlobalStats) × (steps core_id k (waiting core_id pkt addresses stats s)
        ≡ some (waiting core_id pkt addresses stats' s))
unfolding steps
steps-waits core_id zero pkt addresses stats s idle = (stats, refl)
steps-waits core_id (suc k) pkt addresses stats s idle =
    let (stats', e) =
      steps-waits core_id k pkt addresses (inc_wait_for_operand_fetch stats) s idle in
    (
      stats',
      ap (λ (o : Option Stepped). o >>= λ s1. steps core_id k s1)
            (step-waits core_id pkt addresses stats s idle)
          ∙ e,
    )

request-waits :
    (core_id : ℕ) (pkt : ExecStagePacket) (s : Stepped) (id : RegisterId) (addresses : VectorValue)
    → s.state ≡ storing pkt
    → pkt.opcode ≡ StorageStageOpcode.load_mem_into_reg
    → pkt.dest ≡ of_reg id
    → pkt.src ≡ of_value addresses
    → id < max_reg_id
    → (s.memory_bus).request_busy ≡ false
    → (s.memory_bus).response_busy ≡ false
    → step core_id s ≡ some (waiting core_id pkt addresses (inc_wait_for_operand_fetch s.stats) s)
unfolding step_from store_op load_mem_into_reg await_response send_read_request_vec
request-waits core_id pkt s id addresses starts op dest src small free idle =
    simp (starts, op, dest, src, lt→ltb id max_reg_id small, free, idle) refl

pub load-Loads :
    (core_id k : ℕ) (pkt : ExecStagePacket) (s : Stepped) (id : RegisterId)
    (addresses : VectorValue) (response : VecBusPacket)
    → s.state ≡ storing pkt
    → pkt.opcode ≡ StorageStageOpcode.load_mem_into_reg
    → pkt.dest ≡ of_reg id
    → pkt.src ≡ of_value addresses
    → id < max_reg_id
    → (s.memory_bus).request_busy ≡ false
    → (s.memory_bus).response_busy ≡ false
    → (s.fetch_bus).can_receive ≡ false
    → Loads core_id pkt id addresses response s (steps core_id (suc k) s)
unfolding steps
load-Loads core_id k pkt s id addresses response starts op dest src small free idle taken =
    let stats : GlobalStats = inc_wait_for_operand_fetch s.stats in
    let (stats', e) = steps-waits core_id k pkt addresses stats s idle in
    rw (request-waits core_id pkt s id addresses starts op dest src small free idle, e)
      (
        refl,
        refl,
        refl,
        refl,
        load-Completes core_id pkt (answered response (waiting core_id pkt addresses stats' s)) id
            refl dest small refl taken,
      )
