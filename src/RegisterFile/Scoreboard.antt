-- ===== src/RegisterFile/Scoreboard.antt =====
-- The counters of CoreLib/include/RegisterFile.h as a count of the writes on their way.
use ecc_cpu.Base.{
  ℕ, ◌+◌, ◌-◌, ◌%◌, ◌<◌, ◌≡◌, ◌↔◌, arith, true, some, u8, update, bit_and-halves, bit_or-halves,
  ◌==◌, if◌then◌else◌, bit_or,
}
use ecc_cpu.Defines.{RegisterId, max_reg_id}
use ecc_cpu.RegisterFile.{
  RegisterFile, mark_invalid, mark_valid, is_valid, set_has_halted, has_halted,
}

-- `n` writes of register `id` have been announced by `mark_invalid` and not yet made.
abbrev pub Pending : RegisterFile → RegisterId → ℕ → Type 0
Pending r id n = (r.written_regs id < 256) × (r.invalidated_regs id ≡ (r.written_regs id + n) % 256)

-- A register that exists, of which fewer than 256 announced writes are outstanding, is valid
-- exactly when none is.
pub is_valid_iff_Pending :
    (r : RegisterFile) (id : RegisterId) (n : ℕ)
    → id < max_reg_id
    → n < 256
    → Pending r id n
    → (is_valid r id ≡ some true) ↔ (n ≡ 0)
unfolding is_valid
is_valid_iff_Pending r id n hi hn p = ground arith

-- On a register that exists, `mark_invalid` succeeds and announces one more write of it and of no
-- other.
pub mark_invalid-Pending :
    (r : RegisterFile) (id j : RegisterId) (n : ℕ)
    → id < max_reg_id
    → Pending r j n
    → (r' : RegisterFile) × (mark_invalid r id ≡ some r')
      × Pending r' j (if j == id then n + 1 else n)
unfolding mark_invalid
mark_invalid-Pending r id j n hi p = (
  record r { invalidated_regs = update r.invalidated_regs id (u8 (r.invalidated_regs id + 1)) },
  ground arith,
  ground arith,
)

-- On a register that exists and has an announced write, `mark_valid` succeeds and completes one
-- write of it and of no other.
pub mark_valid-Pending :
    (r : RegisterFile) (id j : RegisterId) (n : ℕ)
    → id < max_reg_id
    → (j ≡ id → 0 < n)
    → Pending r j n
    → (r' : RegisterFile) × (mark_valid r id ≡ some r')
      × Pending r' j (if j == id then n - 1 else n)
unfolding mark_valid
mark_valid-Pending r id j n hi pos p = (
  record r { written_regs = update r.written_regs id (u8 (r.written_regs id + 1)) },
  ground arith,
  ground arith,
)

-- `set_has_halted` sets the flag that `has_halted` reads, whatever other flags are set.
pub has_halted-set : (r : RegisterFile) → has_halted (set_has_halted r) ≡ true
unfolding has_halted set_has_halted
has_halted-set r =
    ground (arith, bit_and-halves (bit_or r.machine_flags 1) 1, bit_or-halves r.machine_flags 1)
