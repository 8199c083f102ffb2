-- ===== src/Assembler/Parser/Registers.antt =====
-- CoreLib/MachineInfo.cpp: `regnames`; Assembler/parser.cpp: the tests and the numbers of registers.
use ecc_cpu.Base.{ℕ, Bool, true, false, Option, none, some, [], ◌∷◌}
use ecc_cpu.Defines.{RegisterId, reg_r0, reg_block_index, reg_sp, reg_flags, reg_pc}
use ecc_cpu.Assembler.Linker.{Dict, find}
use ecc_cpu.Assembler.Text.{Text, codes}

abbrev pub initial_regnames : Dict
initial_regnames =
    (codes "%r0", reg_r0)
    ∷ (codes "%r1", 1)
    ∷ (codes "%r2", 2)
    ∷ (codes "%r3", 3)
    ∷ (codes "%r4", 4)
    ∷ (codes "%r5", 5)
    ∷ (codes "%r6", 6)
    ∷ (codes "%r7", 7)
    ∷ (codes "%r8", 8)
    ∷ (codes "%sp", reg_sp)
    ∷ (codes "%flags", reg_flags)
    ∷ (codes "%pc", reg_pc)
    ∷ (codes "%block_index", reg_block_index)
    ∷ []

abbrev is_some {ℓ} : {A : Type ℓ} → Option A → Bool
is_some none = false
is_some (some a) = true

abbrev pub is_register : Dict → Text → Bool
is_register regnames str = is_some (find regnames str)

-- `operator[]` of the map: a name that it lacks is entered with the value 0, which is `REG_R0`.
unfoldable pub get_register_id : Dict → Text → Dict × RegisterId
get_register_id regnames str = by (find regnames str)
  where
    by : Option ℕ → Dict × RegisterId
    by none = ((str, reg_r0) ∷ regnames, reg_r0)
    by (some id) = (regnames, id)
