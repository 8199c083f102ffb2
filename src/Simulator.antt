-- ===== src/Simulator.antt =====
-- Simulator/Simulator.cpp: the loading of the two files into the DRAM.
pub mod Loading
pub mod LoadedCode
pub mod DataFile
pub mod LoadedData
pub mod ParsedData
pub mod Toolchain
pub mod Simulate
use ecc_cpu.Base.{ℕ, suc, ◌+◌, if◌then◌else◌, Option, none, some, List, [], ◌∷◌, get_or}
use ecc_cpu.Defines.{code_segment_start, data_segment_start}
use ecc_cpu.Memory.Dram.{Storage, initial_write_to_global_memory}
use ecc_cpu.Assembler.Text.{Text, codes, ends_with}

-- The inner loop of `read_code_memory_dump`.
abbrev pub write_insn : ℕ → ℕ → ℕ → ℕ → ℕ → Storage → Storage
write_insn address b0 b1 b2 b3 storage =
    initial_write_to_global_memory
      (initial_write_to_global_memory
        (initial_write_to_global_memory (initial_write_to_global_memory storage (address + 0) b0)
          (address + 1) b1)
        (address + 2) b2)
      (address + 3) b3

-- The outer loop: it ends behind the read that meets the end of the file, which leaves the bytes that
-- it has not read as they were. `stale` gives these bytes.
unfoldable pub load_code : (ℕ → ℕ) → ℕ → List ℕ → Storage → Storage
load_code stale address (b0 ∷ b1 ∷ b2 ∷ b3 ∷ f) storage =
    load_code stale (address + 4) f (write_insn address b0 b1 b2 b3 storage)
load_code stale address f storage =
    write_insn address (get_or f 0 (stale 0)) (get_or f 1 (stale 1)) (get_or f 2 (stale 2))
      (get_or f 3 (stale 3)) storage

-- `none` is `exit(1)`, also of a file that cannot be opened.
unfoldable pub read_code_memory_dump : (ℕ → ℕ) → Text → Option (List ℕ) → Storage → Option Storage
read_code_memory_dump stale filename none storage = none
read_code_memory_dump stale filename (some f) storage =
    if ends_with filename (codes ".bin")
    then some (load_code stale code_segment_start f storage)
    else none

-- The loop of `read_data_memory_dump`, at byte `address`.
unfoldable pub load_data : ℕ → List ℕ → Storage → Storage
load_data address [] storage = storage
load_data address (b ∷ buffer) storage =
    load_data (suc address) buffer (initial_write_to_global_memory storage address b)

unfoldable pub read_data_memory_dump : Text → Option (List ℕ) → Storage → Storage
read_data_memory_dump filename none storage = storage
read_data_memory_dump filename (some f) storage =
    if ends_with filename (codes ".data") then load_data data_segment_start f storage else storage
