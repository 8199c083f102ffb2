-- ===== src/CoreCluster.antt =====
-- CoreLib/include/CoreCluster.h: the core and the two multiplexers to the memory behind it.
use ecc_cpu.Base.{Bool, Option, some, ◌>>=◌}
use ecc_cpu.Bus.MemoryBus
use ecc_cpu.Bus.MemoryBus.{MemoryBus}
use ecc_cpu.Memory.CoreSelectionMemoryMultiplexer
use ecc_cpu.Memory.CoreSelectionMemoryMultiplexer.{MultiplexerState, num_cores}
use ecc_cpu.Core
use ecc_cpu.Core.{Core, core_has_halted}

-- The inputs of the multiplexers are the buses of `core0`. The other elements of their arrays are
-- never read, since there is one core.
pub record CoreCluster : Type 0 where
  pub core0 : Core
  pub main_memory_data_access_multiplexer : MultiplexerState
  pub main_memory_insn_access_multiplexer : MultiplexerState
  pub sram_multiplexer_bus : MemoryBus

unfoldable pub init : CoreCluster → CoreCluster
init c = record c {
  core0 = Core.init c.core0;
  sram_multiplexer_bus = MemoryBus.init c.sram_multiplexer_bus;
}

-- The two buses that the constructor is given are outside of the cluster.
unfoldable pub step_data_multiplexer : MemoryBus → CoreCluster → Option (MemoryBus × CoreCluster)
step_data_multiplexer data_memory_bus c = do
  s ← CoreSelectionMemoryMultiplexer.step num_cores (record {
    state = c.main_memory_data_access_multiplexer;
    out = data_memory_bus;
    inputs = λ _. c.core0.l1d_to_l2d;
  })
  some (
    s.out,
    record c {
      main_memory_data_access_multiplexer = s.state;
      core0 = record c.core0 { l1d_to_l2d = s.inputs 0 };
    },
  )

unfoldable pub step_insn_multiplexer : MemoryBus → CoreCluster → Option (MemoryBus × CoreCluster)
step_insn_multiplexer insn_memory_bus c = do
  s ← CoreSelectionMemoryMultiplexer.step num_cores (record {
    state = c.main_memory_insn_access_multiplexer;
    out = insn_memory_bus;
    inputs = λ _. c.core0.l1i_to_l2i;
  })
  some (
    s.out,
    record c {
      main_memory_insn_access_multiplexer = s.state;
      core0 = record c.core0 { l1i_to_l2i = s.inputs 0 };
    },
  )

abbrev pub cluster_has_halted : CoreCluster → Bool
cluster_has_halted c = core_has_halted c.core0
