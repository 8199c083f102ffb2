-- ===== src/Core.antt =====
-- CoreLib/include/Core.h: the components of a core with the buses between them. Each component's
-- step is one `resume` of its coroutine, or its first run, on the members that its constructor was
-- given.
pub mod FrontEnd
use ecc_cpu.Base.{ℕ, Bool, Option, some, ◌>>=◌}
use ecc_cpu.RegisterFile
use ecc_cpu.RegisterFile.{RegisterFile, has_halted}
use ecc_cpu.DivergenceQueue
use ecc_cpu.DivergenceQueue.{DivergenceQueue}
use ecc_cpu.GlobalStats
use ecc_cpu.GlobalStats.{GlobalStats}
use ecc_cpu.Bus.MemoryBus
use ecc_cpu.Bus.MemoryBus.{MemoryBus}
use ecc_cpu.Bus.VecMemoryBus
use ecc_cpu.Bus.VecMemoryBus.{VecMemoryBus}
use ecc_cpu.Bus.StoreToFetchBus
use ecc_cpu.Bus.StoreToFetchBus.{StoreToFetchBus}
use ecc_cpu.Bus.FetchToDecodeBus
use ecc_cpu.Bus.FetchToDecodeBus.{FetchToDecodeBus}
use ecc_cpu.Bus.DecodeToExecuteBus
use ecc_cpu.Bus.DecodeToExecuteBus.{DecodeToExecuteBus}
use ecc_cpu.Bus.ExecuteToStoreBus
use ecc_cpu.Bus.ExecuteToStoreBus.{ExecuteToStoreBus}
use ecc_cpu.Stage.Fetch
use ecc_cpu.Stage.Fetch.{FetchState, Locals}
use ecc_cpu.Stage.Decode
use ecc_cpu.Stage.Decode.{DecodeState}
use ecc_cpu.Stage.Execute
use ecc_cpu.Stage.Execute.{ExecuteState}
use ecc_cpu.Stage.Store
use ecc_cpu.Stage.Store.{StoreState}
use ecc_cpu.Memory.L1InsnCache
use ecc_cpu.Memory.L1InsnCache.{CacheState, L1InsnCacheLine}
use ecc_cpu.Memory.VectorMemoryController
use ecc_cpu.Memory.VectorMemoryController.{ControllerState}
use ecc_cpu.Memory.Relays.{l1_data_step}

-- A component stands for the state and the locals of its coroutine; `L1d` has none.
pub record Core : Type 0 where
  pub divergence_queue : DivergenceQueue
  pub store_fetch_bus : StoreToFetchBus
  pub fetch_decode_bus : FetchToDecodeBus
  pub decode_execute_bus : DecodeToExecuteBus
  pub execute_store_bus : ExecuteToStoreBus
  pub regs : RegisterFile
  pub fetch : FetchState
  pub fetch_locals : Locals
  pub decode : DecodeState
  pub execute : ExecuteState
  pub store : StoreState
  pub core_l1d : MemoryBus
  pub l1i : CacheState
  pub l1i_lines : ℕ → L1InsnCacheLine
  pub core_l1i : MemoryBus
  pub l1i_to_l2i : MemoryBus
  pub l1d_to_l2d : MemoryBus
  pub store_to_vec_controller_bus : VecMemoryBus
  pub vec_mem_controller : ControllerState
  pub stats : GlobalStats

unfoldable pub init : Core → Core
init c = record c {
  regs = RegisterFile.init c.regs;
  core_l1d = MemoryBus.init c.core_l1d;
  core_l1i = MemoryBus.init c.core_l1i;
  l1i_to_l2i = MemoryBus.init c.l1i_to_l2i;
  l1d_to_l2d = MemoryBus.init c.l1d_to_l2d;
  divergence_queue = DivergenceQueue.init c.divergence_queue;
  store_to_vec_controller_bus = VecMemoryBus.init c.store_to_vec_controller_bus;
  store_fetch_bus = StoreToFetchBus.init c.store_fetch_bus;
  fetch_decode_bus = FetchToDecodeBus.init c.fetch_decode_bus;
  decode_execute_bus = DecodeToExecuteBus.init c.decode_execute_bus;
  execute_store_bus = ExecuteToStoreBus.init c.execute_store_bus;
  stats = GlobalStats.init;
}

module _ (core_id : ℕ) where
  unfoldable pub step_fetch : Core → Option Core
  step_fetch c = do
    s ← Fetch.step core_id (record {
      state = c.fetch;
      locals = c.fetch_locals;
      decode_bus = c.fetch_decode_bus;
      store_bus = c.store_fetch_bus;
      memory_bus = c.core_l1i;
      stats = c.stats;
    })
    some (record c {
      fetch = s.state;
      fetch_locals = s.locals;
      fetch_decode_bus = s.decode_bus;
      store_fetch_bus = s.store_bus;
      core_l1i = s.memory_bus;
      stats = s.stats;
    })

  unfoldable pub step_store : Core → Option Core
  step_store c = do
    s ← Store.step core_id (record {
      state = c.store;
      execute_bus = c.execute_store_bus;
      memory_bus = c.store_to_vec_controller_bus;
      regs = c.regs;
      fetch_bus = c.store_fetch_bus;
      divergence_queue = c.divergence_queue;
      stats = c.stats;
    })
    some (record c {
      store = s.state;
      execute_store_bus = s.execute_bus;
      store_to_vec_controller_bus = s.memory_bus;
      regs = s.regs;
      store_fetch_bus = s.fetch_bus;
      divergence_queue = s.divergence_queue;
      stats = s.stats;
    })

unfoldable pub step_decode : Core → Option Core
step_decode c = do
  (state, fetch_bus, execute_bus) ←
      Decode.step c.decode c.fetch_decode_bus c.decode_execute_bus c.regs
  some (record c { decode = state; fetch_decode_bus = fetch_bus; decode_execute_bus = execute_bus })

unfoldable pub step_execute : Core → Option Core
step_execute c = do
  s ← Execute.step (record {
    state = c.execute;
    decode_bus = c.decode_execute_bus;
    store_bus = c.execute_store_bus;
    regs = c.regs;
    stats = c.stats;
  })
  some (record c {
    execute = s.state;
    decode_execute_bus = s.decode_bus;
    execute_store_bus = s.store_bus;
    regs = s.regs;
    stats = s.stats;
  })

unfoldable pub step_l1d : Core → Option Core
step_l1d c = do
  r ← l1_data_step (record { to_cpu = c.core_l1d; to_memory = c.l1d_to_l2d })
  some (record c { core_l1d = r.to_cpu; l1d_to_l2d = r.to_memory })

unfoldable pub step_l1i : Core → Option Core
step_l1i c = do
  s ← L1InsnCache.step (record {
    state = c.l1i;
    lines = c.l1i_lines;
    to_cpu = c.core_l1i;
    to_memory = c.l1i_to_l2i;
    stats = c.stats;
  })
  some (record c {
    l1i = s.state;
    l1i_lines = s.lines;
    core_l1i = s.to_cpu;
    l1i_to_l2i = s.to_memory;
    stats = s.stats;
  })

unfoldable pub step_vec_mem_controller : Core → Option Core
step_vec_mem_controller c = do
  s ← VectorMemoryController.step (record {
    state = c.vec_mem_controller;
    to_cpu = c.store_to_vec_controller_bus;
    to_memory = c.core_l1d;
  })
  some (record c {
    vec_mem_controller = s.state;
    store_to_vec_controller_bus = s.to_cpu;
    core_l1d = s.to_memory;
  })

-- The components in the order in which their constructors register them.
unfoldable pub step : ℕ → Core → Option Core
step core_id c = do
  c1 ← step_fetch core_id c
  c2 ← step_decode c1
  c3 ← step_execute c2
  c4 ← step_store core_id c3
  c5 ← step_l1d c4
  c6 ← step_l1i c5
  step_vec_mem_controller c6

abbrev pub core_has_halted : Core → Bool
core_has_halted c = has_halted c.regs
