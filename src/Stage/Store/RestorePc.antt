-- ===== src/Stage/Store/RestorePc.antt =====
-- What the load of CoreLib/ExecuteStage.cpp that restores the program counter, once
-- CoreLib/StoreStage.cpp has done it, means for the next instruction in CoreLib/DecodeStage.cpp.
use ecc_cpu.Base.{ℕ, suc, ◌≡◌, refl, arith, true, false, Option, none, some, ◌>>=◌}
use ecc_cpu.Defines.{reg_pc, get_opcode, Opcode, StorageStageOpcode, ExecuteStageOpcode}
use ecc_cpu.VectorValue.{VectorValue, add}
use ecc_cpu.RegisterFile.{RegisterFile, is_valid}
use ecc_cpu.RegisterFile.Scoreboard.{Pending}
use ecc_cpu.Packets.{
  DecodeExecPacket, ExecStagePacket, FetchToDecodeBusPacket, VecBusPacket, of_reg, of_value, vec,
}
use ecc_cpu.Bus.FetchToDecodeBus.{FetchToDecodeBus}
use ecc_cpu.Bus.DecodeToExecuteBus.{DecodeToExecuteBus}
use ecc_cpu.Bus.ExecuteToStoreBus.{ExecuteToStoreBus, send_reg_vec}
use ecc_cpu.Stage.Decode
use ecc_cpu.Stage.Decode.{decode_insn, decode_op, decode_move, reg16}
use ecc_cpu.Stage.Execute
use ecc_cpu.Stage.Execute.{execute_op}
use ecc_cpu.Stage.Store
use ecc_cpu.Stage.Store.{storing, step}
use ecc_cpu.Stage.Store.Divergence.{Tells}
use ecc_cpu.Stage.Store.Load.{Completes}
use ecc_cpu.Stage.Store.Loads.{steps, answered, Loads, load-Loads}

-- The store stage has received what the execute stage has sent.
abbrev pub received : Option Execute.Outcome → Store.Stepped → Option Store.Stepped
received none s = none
received (some Execute.stall) s = none
received (some (Execute.done bus regs)) s =
    some (record s { state = storing bus.packet; regs = regs })

-- The load that restores the program counter in the execute stage and in the store stage, with `k`
-- steps until the memory answers.
abbrev pub restored :
    ℕ
    → ℕ
    → DecodeExecPacket
    → ExecuteToStoreBus
    → VecBusPacket
    → Store.Stepped
    → Option Store.Stepped
restored core_id k pkt store_bus response s = do
  s1 ← received (execute_op pkt store_bus s.regs ExecuteStageOpcode.load_restore_pc) s
  s2 ← steps core_id (suc k) s1
  s3 ← step core_id (answered response s2)
  step core_id s3

-- The fetch stage is told to go on at the value of thread 0, and an instruction in the decode stage
-- does not get further.
abbrev pub Strands :
    DecodeExecPacket
    → VecBusPacket
    → FetchToDecodeBusPacket
    → FetchToDecodeBus
    → DecodeToExecuteBus
    → Option Store.Stepped
    → Type 0
Strands pkt response next bus execute_bus none = ⊥
Strands pkt response next bus execute_bus (some s) =
    Tells s.fetch_bus pkt.exec_mask response.payload.data0
    × (Decode.step (Decode.decoding next) bus execute_bus s.regs
        ≡ some (Decode.decoding next, bus, execute_bus))

-- A counter of writes made that is one ahead of that of the writes announced.
not_valid : (regs : RegisterFile) → Pending regs reg_pc 255 → is_valid regs reg_pc ≡ some false
unfolding is_valid
not_valid regs p = ground arith

move-waits :
    (next : FetchToDecodeBusPacket) (bus : FetchToDecodeBus) (execute_bus : DecodeToExecuteBus)
    (regs : RegisterFile)
    → get_opcode next.insn ≡ Opcode.move_reg_reg
    → reg16 next.insn ≡ reg_pc
    → is_valid regs reg_pc ≡ some false
    → Decode.step (Decode.decoding next) bus execute_bus regs
      ≡ some (Decode.decoding next, bus, execute_bus)
unfolding Decode.step decode_insn decode_op decode_move
move-waits next bus execute_bus regs op reads invalid = simp (op, reads, invalid) refl

module _ (next : FetchToDecodeBusPacket) (bus : FetchToDecodeBus) (execute_bus : DecodeToExecuteBus)
    (op : get_opcode next.insn ≡ Opcode.move_reg_reg) (reads : reg16 next.insn ≡ reg_pc) where
  Completes-Strands :
      (pkt : DecodeExecPacket) (sent : ExecStagePacket) (response : VecBusPacket)
      (s : Store.Stepped)
      → sent.is_store_to_pc ≡ true
      → sent.exec_mask ≡ pkt.exec_mask
      → Pending s.regs reg_pc 0
      → (o : Option Store.Stepped) → Completes sent reg_pc response.payload s o
      → Strands pkt response next bus execute_bus o
  Completes-Strands pkt sent response s to_pc mask pending none h = absurd h
  Completes-Strands pkt sent response s to_pc mask pending (some s')
        (at, free, value, others, counts, tells) =
      let ahead : Pending s'.regs reg_pc 255 =
        counts reg_pc 256 (λ e. omega arith) (pending.0, omega (arith, pending)) in
      (
        rw (← mask) (simp to_pc at tells),
        move-waits next bus execute_bus s'.regs op reads (not_valid s'.regs ahead),
      )

  Loads-Strands :
      (core_id : ℕ) (pkt : DecodeExecPacket) (sent : ExecStagePacket) (addresses : VectorValue)
      (response : VecBusPacket) (s : Store.Stepped)
      → sent.is_store_to_pc ≡ true
      → sent.exec_mask ≡ pkt.exec_mask
      → Pending s.regs reg_pc 0
      → (o : Option Store.Stepped) → Loads core_id sent reg_pc addresses response s o
      → Strands pkt response next bus execute_bus
          (o >>= λ s2. step core_id (answered response s2) >>= step core_id)
  Loads-Strands core_id pkt sent addresses response s to_pc mask pending none h = absurd h
  Loads-Strands core_id pkt sent addresses response s to_pc mask pending (some s2) h =
      Completes-Strands pkt sent response s to_pc mask pending
        (step core_id (answered response s2) >>= step core_id) h.4

  pub restore_pc-Strands :
      (core_id k : ℕ) (pkt : DecodeExecPacket) (store_bus : ExecuteToStoreBus)
      (offsets : VectorValue) (response : VecBusPacket) (s : Store.Stepped)
      → pkt.value0 ≡ vec offsets
      → store_bus.is_busy ≡ false
      → (s.memory_bus).request_busy ≡ false
      → (s.memory_bus).response_busy ≡ false
      → (s.fetch_bus).can_receive ≡ false
      → Pending s.regs reg_pc 0
      → Strands pkt response next bus execute_bus (restored core_id k pkt store_bus response s)
  unfolding execute_op send_reg_vec
  restore_pc-Strands core_id k pkt store_bus offsets response s operand free idle quiet taken
        pending =
      let sent : ExecStagePacket = record store_bus.packet {
        exec_mask = pkt.exec_mask;
        pc = pkt.pc;
        opcode = StorageStageOpcode.load_mem_into_reg;
        dest = of_reg reg_pc;
        src = of_value (add offsets pkt.value1);
        is_store_to_pc = true;
      } in
      let s1 : Store.Stepped = record s { state = storing sent } in
      simp (operand, free)
        (Loads-Strands core_id pkt sent (add offsets pkt.value1) response s1 refl refl pending
          (steps core_id (suc k) s1)
          (load-Loads core_id k sent s1 reg_pc (add offsets pkt.value1) response refl refl refl refl
            (omega arith) idle quiet taken))
