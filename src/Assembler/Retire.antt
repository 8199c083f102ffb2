-- ===== src/Assembler/Retire.antt =====
-- An instruction of Assembler/include on its way through CoreLib/DecodeStage.cpp,
-- CoreLib/ExecuteStage.cpp and CoreLib/StoreStage.cpp.
pub mod Correct
pub mod LoadAddress
use ecc_cpu.Base.{ℕ, ◌≡◌, ◌≢◌, Option, none, some, ◌>>=◌}
use ecc_cpu.Defines.{RegisterId}
use ecc_cpu.VectorValue.{VectorValue}
use ecc_cpu.RegisterFile.{RegisterFile}
use ecc_cpu.RegisterFile.Scoreboard.{Pending}
use ecc_cpu.Packets.{create_fetch_decode_packet}
use ecc_cpu.Bus.DecodeToExecuteBus.{DecodeToExecuteBus}
use ecc_cpu.Bus.ExecuteToStoreBus.{ExecuteToStoreBus}
use ecc_cpu.Stage.Decode
use ecc_cpu.Stage.Decode.{decode_insn}
use ecc_cpu.Stage.Execute
use ecc_cpu.Stage.Execute.{execute_insn}
use ecc_cpu.Stage.Store.{Stepped, store_op}
use ecc_cpu.Assembler.Insns.{Insn, get_encoded_instruction}

module _ (core_id : ℕ) (s : Stepped) where
  -- The store stage takes the request up with the registers as the execute stage left them.
  abbrev pub after_execute : Execute.Outcome → Option Stepped
  after_execute Execute.stall = none
  after_execute (Execute.done b regs) =
      store_op core_id b.packet.opcode b.packet (record s { regs = regs })

  abbrev pub after_decode : ExecuteToStoreBus → Decode.Outcome → Option Stepped
  after_decode store_bus Decode.stall = none
  after_decode store_bus (Decode.done b) = execute_insn b.packet store_bus s.regs >>= after_execute

  -- The instruction is encoded, decoded, executed and its result stored, with no other in between.
  abbrev pub run_insn : ℕ → ℕ → DecodeToExecuteBus → ExecuteToStoreBus → Insn → Option Stepped
  run_insn mask pc bus store_bus insn = get_encoded_instruction insn >>= λ encoded.
      decode_insn (create_fetch_decode_packet mask pc encoded.0) bus s.regs
      >>= after_decode store_bus

-- The register has the value, the others are as they were, and as many writes of each register
-- are on their way as before.
abbrev pub Writes : RegisterFile → RegisterId → VectorValue → Option Stepped → Type 0
Writes regs id v none = ⊥
Writes regs id v (some s') =
    (s'.regs.regs id ≡ v)
    × ((j : RegisterId) → j ≢ id → s'.regs.regs j ≡ regs.regs j)
    × ((j : RegisterId) (n : ℕ) → Pending regs j n → Pending s'.regs j n)
