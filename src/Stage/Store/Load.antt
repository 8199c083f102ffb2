-- ===== src/Stage/Store/Load.antt =====
-- The end of a load of CoreLib/StoreStage.cpp, from the response of the memory on.
use ecc_cpu.Base.{
  ℕ, ◌-◌, ◌<◌, ◌≡◌, ◌≢◌, refl, arith, true, false, Bool-cases, inl, inr, Option, none, some, ◌>>=◌,
  if◌then◌else◌, ◌==◌, lt→ltb, update_self, update_ne,
}
use ecc_cpu.Defines.{RegisterId, max_reg_id}
use ecc_cpu.VectorValue
use ecc_cpu.VectorValue.{VectorValue, add}
use ecc_cpu.RegisterFile
use ecc_cpu.RegisterFile.{RegisterFile, mark_valid, is_valid}
use ecc_cpu.RegisterFile.Scoreboard.{Pending}
use ecc_cpu.Packets.{ExecStagePacket, of_reg}
use ecc_cpu.Bus.VecMemoryBus.{accept_response}
use ecc_cpu.Bus.StoreToFetchBus
use ecc_cpu.Stage.Store.{Stepped, top, loading, await_response, finish_load, step_from, step}
use ecc_cpu.Stage.Store.Divergence.{Tells}

-- What a load that is done leaves behind.
abbrev pub Completes :
    ExecStagePacket → RegisterId → VectorValue → Stepped → Option Stepped → Type 0
Completes pkt id value s none = ⊥
Completes pkt id value s (some s') =
    (s'.state ≡ top)
    × (s'.memory_bus.response_busy ≡ false)
    × (s'.regs.regs id ≡ value)
    × ((j : RegisterId) → j ≢ id → s'.regs.regs j ≡ s.regs.regs j)
    × ((j : RegisterId) (n : ℕ)
        → (j ≡ id → 0 < n)
        → Pending s.regs j n
        → Pending s'.regs j (if j == id then n - 1 else n))
    × (if pkt.is_store_to_pc
        then Tells s'.fetch_bus pkt.exec_mask value.data0
        else s'.fetch_bus ≡ s.fetch_bus)

-- Once the response to a load into a register that exists is there, and the fetch stage has taken
-- its last target, the load is done in two steps: the register has the value that the memory gave
-- and one announced write less of it is on its way, the other registers are as they were, and if
-- the load restores the program counter the fetch stage goes on at the value of thread 0 with the
-- threads of the load; else its bus is left alone.
pub load-Completes :
    (core_id : ℕ) (pkt : ExecStagePacket) (s : Stepped) (id : RegisterId)
    → s.state ≡ loading pkt
    → pkt.dest ≡ of_reg id
    → id < max_reg_id
    → (s.memory_bus).response_busy ≡ true
    → (s.fetch_bus).can_receive ≡ false
    → Completes pkt id ((s.memory_bus).response_queue).payload s (step core_id s >>= step core_id)
unfolding step_from await_response accept_response finish_load mark_valid RegisterFile.set
    StoreToFetchBus.send VectorValue.get
load-Completes core_id pkt s id waits dest small busy free = elim (Bool-cases pkt.is_store_to_pc) [
  | inl to_pc ↦
      simp (waits, dest, lt→ltb id max_reg_id small, busy, free, to_pc)
        (
          refl,
          refl,
          update_self s.regs.regs id (s.memory_bus).response_queue.payload,
          (λ j ne. update_ne s.regs.regs id j (s.memory_bus).response_queue.payload ne),
          (λ j n pos p. ground arith),
          (refl, refl),
        )
  | inr to_reg ↦
      simp (waits, dest, lt→ltb id max_reg_id small, busy, free, to_reg)
        (
          refl,
          refl,
          update_self s.regs.regs id (s.memory_bus).response_queue.payload,
          (λ j ne. update_ne s.regs.regs id j (s.memory_bus).response_queue.payload ne),
          (λ j n pos p. ground arith),
          refl,
        )
]
