-- ===== src/CoreClusterGrid.antt =====
-- CoreLib/include/CoreClusterGrid.h: the cluster, the shared caches and the DRAM.
use ecc_cpu.Base.{Bool, Option, some, ◌>>=◌}
use ecc_cpu.Bus.MemoryBus
use ecc_cpu.Bus.MemoryBus.{MemoryBus}
use ecc_cpu.Memory.Relays.{l2_data_step, l2_insn_step, l3_step}
use ecc_cpu.Memory.CoreInternalMemoryMultiplexer
use ecc_cpu.Memory.CoreInternalMemoryMultiplexer.{MultiplexerState}
use ecc_cpu.Memory.Dram
use ecc_cpu.Memory.Dram.{DramState, Storage}
use ecc_cpu.Core
use ecc_cpu.CoreCluster
use ecc_cpu.CoreCluster.{
  CoreCluster, step_data_multiplexer, step_insn_multiplexer, cluster_has_halted,
}

-- `storage` is the global of CoreLib/DRAM.cpp. The second and third level of the caches have no
-- state.
pub record CoreClusterGrid : Type 0 where
  pub l3_dram : MemoryBus
  pub l2d_multiplexer_bus : MemoryBus
  pub l2i_multiplexer_bus : MemoryBus
  pub l2_l3 : MemoryBus
  pub core_to_l2d : MemoryBus
  pub core_to_l2i : MemoryBus
  pub l2di_multiplexer : MultiplexerState
  pub dram : DramState
  pub storage : Storage
  pub core_cluster : CoreCluster

unfoldable pub init : CoreClusterGrid → CoreClusterGrid
init g = record g {
  l3_dram = MemoryBus.init g.l3_dram;
  l2d_multiplexer_bus = MemoryBus.init g.l2d_multiplexer_bus;
  l2i_multiplexer_bus = MemoryBus.init g.l2i_multiplexer_bus;
  l2_l3 = MemoryBus.init g.l2_l3;
  core_to_l2d = MemoryBus.init g.core_to_l2d;
  core_to_l2i = MemoryBus.init g.core_to_l2i;
  core_cluster = CoreCluster.init g.core_cluster;
}

unfoldable pub step_l2d : CoreClusterGrid → Option CoreClusterGrid
step_l2d g = do
  r ← l2_data_step (record { to_cpu = g.core_to_l2d; to_memory = g.l2d_multiplexer_bus })
  some (record g { core_to_l2d = r.to_cpu; l2d_multiplexer_bus = r.to_memory })

unfoldable pub step_l2i : CoreClusterGrid → Option CoreClusterGrid
step_l2i g = do
  r ← l2_insn_step (record { to_cpu = g.core_to_l2i; to_memory = g.l2i_multiplexer_bus })
  some (record g { core_to_l2i = r.to_cpu; l2i_multiplexer_bus = r.to_memory })

unfoldable pub step_l2di_multiplexer : CoreClusterGrid → Option CoreClusterGrid
step_l2di_multiplexer g = do
  s ← CoreInternalMemoryMultiplexer.step (record {
    state = g.l2di_multiplexer;
    out = g.l2_l3;
    fetch_input = g.l2i_multiplexer_bus;
    vec_ctrlr_input = g.l2d_multiplexer_bus;
  })
  some (record g {
    l2di_multiplexer = s.state;
    l2_l3 = s.out;
    l2i_multiplexer_bus = s.fetch_input;
    l2d_multiplexer_bus = s.vec_ctrlr_input;
  })

unfoldable pub step_l3 : CoreClusterGrid → Option CoreClusterGrid
step_l3 g = do
  r ← l3_step (record { to_cpu = g.l2_l3; to_memory = g.l3_dram })
  some (record g { l2_l3 = r.to_cpu; l3_dram = r.to_memory })

unfoldable pub step_dram : CoreClusterGrid → Option CoreClusterGrid
step_dram g = do
  s ← Dram.step (record { state = g.dram; to_cpu = g.l3_dram; storage = g.storage })
  some (record g { dram = s.state; l3_dram = s.to_cpu; storage = s.storage })

-- The components of the cluster; the core's number is `CORE_ID_Core0`.
unfoldable pub step_core0 : CoreClusterGrid → Option CoreClusterGrid
step_core0 g = do
  core ← Core.step 0 g.core_cluster.core0
  some (record g { core_cluster = record g.core_cluster { core0 = core } })

unfoldable pub step_data : CoreClusterGrid → Option CoreClusterGrid
step_data g = do
  (bus, cluster) ← step_data_multiplexer g.core_to_l2d g.core_cluster
  some (record g { core_to_l2d = bus; core_cluster = cluster })

unfoldable pub step_insn : CoreClusterGrid → Option CoreClusterGrid
step_insn g = do
  (bus, cluster) ← step_insn_multiplexer g.core_to_l2i g.core_cluster
  some (record g { core_to_l2i = bus; core_cluster = cluster })

-- The components in the order in which their constructors register them.
unfoldable pub step : CoreClusterGrid → Option CoreClusterGrid
step g = do
  g1 ← step_l2d g
  g2 ← step_l2i g1
  g3 ← step_l2di_multiplexer g2
  g4 ← step_l3 g3
  g5 ← step_dram g4
  g6 ← step_core0 g5
  g7 ← step_data g6
  step_insn g7

unfoldable pub grid_has_halted : CoreClusterGrid → Bool
grid_has_halted g = cluster_has_halted g.core_cluster
