-- ===== src/Stage/Decode/Receives.antt =====
-- What the decode stage of CoreLib/DecodeStage.cpp does to the bus that it receives from.
use ecc_cpu.Base.{◌≡◌, refl, true, Option, none, some, ◌>>=◌, inl, inr, Bool-cases}
use ecc_cpu.Packets.{FetchToDecodeBusPacket}
use ecc_cpu.RegisterFile.{RegisterFile}
use ecc_cpu.Bus.FetchToDecodeBus
use ecc_cpu.Bus.FetchToDecodeBus.{FetchToDecodeBus}
use ecc_cpu.Bus.DecodeToExecuteBus.{DecodeToExecuteBus}
use ecc_cpu.Stage.Decode
use ecc_cpu.Stage.Decode.{Outcome, stall, done, DecodeState, idle, decoding, after, decode_insn}

-- If an instruction is on the bus after a step, it was there before: the stage only takes from it.
abbrev pub TakesOnly : FetchToDecodeBus → Option Decode.Stepped → Type 0
TakesOnly bus none = Unit {0}
TakesOnly bus (some (state, bus', execute_bus)) = bus'.is_busy ≡ true → bus' ≡ bus

after-TakesOnly :
    (pkt : FetchToDecodeBusPacket) (bus : FetchToDecodeBus) (execute_bus : DecodeToExecuteBus)
    (out : Option Outcome)
    → TakesOnly bus (out >>= λ o. some (after pkt bus execute_bus o))
after-TakesOnly pkt bus execute_bus none = tt
after-TakesOnly pkt bus execute_bus (some stall) = λ busy. refl
after-TakesOnly pkt bus execute_bus (some (done execute_bus')) = λ busy. refl

pub step-TakesOnly :
    (state : DecodeState) (bus : FetchToDecodeBus) (execute_bus : DecodeToExecuteBus)
    (regs : RegisterFile)
    → TakesOnly bus (Decode.step state bus execute_bus regs)
unfolding Decode.step FetchToDecodeBus.recv
step-TakesOnly idle bus execute_bus regs = elim (Bool-cases execute_bus.is_busy) [
  | inl full ↦ simp full (λ busy. refl)
  | inr free ↦ elim (Bool-cases bus.is_busy) [
    | inl ready ↦ simp (free, ready) (λ busy. cc)
    | inr empty ↦ simp (free, empty) (λ busy. refl)
  ]
]
step-TakesOnly (decoding pkt) bus execute_bus regs =
    after-TakesOnly pkt bus execute_bus (decode_insn pkt execute_bus regs)
