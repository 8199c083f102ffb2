-- ===== src/SimComponentRegistry.antt =====
-- CoreLib/SimComponentRegistry.cpp: the main loop.
pub mod Halting
use ecc_cpu.Base.{ℕ, zero, suc, true, false, Option, some, ◌>>=◌}
use ecc_cpu.CoreClusterGrid
use ecc_cpu.CoreClusterGrid.{CoreClusterGrid, grid_has_halted}

abbrev pub num_sim_steps : ℕ
num_sim_steps = 1000000

-- The loop with `left` rounds to go. In the first round the coroutines run from their start, in the
-- later ones from where they wait: both is a step.
unfoldable pub run_for : ℕ → CoreClusterGrid → Option CoreClusterGrid
run_for zero machine = some machine
run_for (suc left) machine = elim (grid_has_halted machine) [
  | true ↦ some machine
  | false ↦ CoreClusterGrid.step machine >>= λ machine'. run_for left machine'
]

abbrev pub run : CoreClusterGrid → Option CoreClusterGrid
run machine = run_for num_sim_steps machine
