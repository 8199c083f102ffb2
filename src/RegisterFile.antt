-- ===== src/RegisterFile.antt =====
-- CoreLib/include/RegisterFile.h: the registers of a core, and the two counters of each register by
-- which a stage tells whether a write to it is still on its way.
pub mod Scoreboard
use ecc_cpu.Base.{
  ℕ, zero, suc, ◌+◌, bit_and, bit_or, u8, Bool, not, ◌==◌, if◌then◌else◌, Option, none, some,
  assert, ◌>>=◌, ◌>>◌, update,
}
use ecc_cpu.Defines.{RegisterId, is_valid_index, machine_flags_mask_halt}
use ecc_cpu.VectorValue.{VectorValue, create_vec_int64}

-- The arrays have `MAX_REG_ID` elements; every access asserts that its index is below that.
-- A counter is a byte.
pub record RegisterSet : Type 0 where
  pub invalidated_regs : RegisterId → ℕ
  pub written_regs : RegisterId → ℕ
  pub regs : RegisterId → VectorValue
  pub machine_flags : ℕ

-- `RegisterFile` has the one field `data`, so it is that record here.
abbrev pub RegisterFile : Type 0
RegisterFile = RegisterSet

unfoldable pub init : RegisterFile → RegisterFile
init r = record r { machine_flags = 0 }

-- The value-initialised `regs{}` of `Core`, after `init`.
abbrev pub zeroed : RegisterFile
zeroed = record {
  invalidated_regs = λ _. 0;
  written_regs = λ _. 0;
  regs = λ _. create_vec_int64 0;
  machine_flags = 0;
}

unfoldable pub mark_invalid : RegisterFile → RegisterId → Option RegisterFile
mark_invalid r id =
    assert (is_valid_index id)
    >> some (record r {
      invalidated_regs = update r.invalidated_regs id (u8 (r.invalidated_regs id + 1));
    })

unfoldable pub mark_valid : RegisterFile → RegisterId → Option RegisterFile
mark_valid r id =
    assert (is_valid_index id)
    >> some (record r { written_regs = update r.written_regs id (u8 (r.written_regs id + 1)) })

unfoldable pub is_valid : RegisterFile → RegisterId → Option Bool
is_valid r id = assert (is_valid_index id) >> some (r.written_regs id == r.invalidated_regs id)

unfoldable pub set : RegisterFile → RegisterId → VectorValue → Option RegisterFile
set r id v = assert (is_valid_index id) >> some (record r { regs = update r.regs id v })

unfoldable pub get : RegisterFile → RegisterId → Option VectorValue
get r id = assert (is_valid_index id) >> some (r.regs id)

unfoldable pub set_machine_flag : RegisterFile → ℕ → RegisterFile
set_machine_flag r flags = record r { machine_flags = bit_or r.machine_flags flags }

-- `$finish` does nothing in the simulator.
unfoldable pub set_has_halted : RegisterFile → RegisterFile
set_has_halted r = record r { machine_flags = bit_or r.machine_flags machine_flags_mask_halt }

unfoldable pub has_halted : RegisterFile → Bool
has_halted r = not (bit_and r.machine_flags machine_flags_mask_halt == 0)
