-- ===== src/Simulator/Simulate.antt =====
-- `main` of Simulator/Simulator.cpp behind the check of its arguments.
use ecc_cpu.Base.{ℕ, Option, ◌>>=◌, List, ◌++◌}
use ecc_cpu.Assembler.Text.{Text, codes}
use ecc_cpu.CoreClusterGrid
use ecc_cpu.CoreClusterGrid.{CoreClusterGrid}
use ecc_cpu.SimComponentRegistry.{run}
use ecc_cpu.Simulator.{read_code_memory_dump, read_data_memory_dump}

-- `code` is the file `filename` and `data_file` the one next to it; `machine` is what the constructors
-- have made.
unfoldable pub simulate :
    (ℕ → ℕ) → Text → Option (List ℕ) → Option (List ℕ) → CoreClusterGrid → Option CoreClusterGrid
simulate stale filename code data_file machine = do
  let started = CoreClusterGrid.init machine
  storage ← read_code_memory_dump stale filename code started.storage
  run (record started {
    storage = read_data_memory_dump (filename ++ codes ".data") data_file storage;
  })
