-- ===== src/Assembler/Jumps.antt =====
-- Where an unconditional jump of Assembler/include/Jmp.h leads once it has gone through the decode
-- and the execute stage.
use ecc_cpu.Base.{
  subst, ℕ, ◌+◌, ◌%◌, ◌^◌, ◌<◌, ◌≤◌, u64, ◌≡◌, refl, ap, ◌∙◌, arith, true, false, some, List,
}
use ecc_cpu.Base.Int.{ℤ, to_u32, distance}
use ecc_cpu.Defines.{Opcode, opcode_of, get_opcode, ExecuteStageOpcode, StorageStageOpcode}
use ecc_cpu.VectorValue
use ecc_cpu.VectorValue.{create_vec_int64, create_vec_int32}
use ecc_cpu.RegisterFile.{RegisterFile}
use ecc_cpu.Packets.{create_fetch_decode_packet, of_address, vec}
use ecc_cpu.Bus.DecodeToExecuteBus.{DecodeToExecuteBus, send_req1}
use ecc_cpu.Bus.ExecuteToStoreBus.{ExecuteToStoreBus, send_address}
use ecc_cpu.Stage.Decode
use ecc_cpu.Stage.Decode.{decode_insn, decode_op}
use ecc_cpu.Stage.Execute
use ecc_cpu.Stage.Execute.{execute_insn, execute_op, jump_target}
use ecc_cpu.Assembler.Insns.{Mnemonic, Insn, jump, get_encoded_instruction, jump_opcode, word1}
use ecc_cpu.Assembler.Words.{word1_fields}
use ecc_cpu.Assembler.Encoding.{decode_insn-op, int32-field}

-- The word is decoded, and the request executed to one that sends the fetch stage to `target`.
abbrev pub LeadsTo : ℕ → ℕ → ℕ → DecodeToExecuteBus → ExecuteToStoreBus → RegisterFile → ℕ → Type 0
LeadsTo word mask pc bus store_bus regs target =
    (b : DecodeToExecuteBus) × (s : ExecuteToStoreBus) × (decode_insn
        (create_fetch_decode_packet mask pc word) bus regs
      ≡ some (Decode.done b))
    × (execute_insn b.packet store_bus regs ≡ some (Execute.done s regs))
    × (s.packet.opcode ≡ StorageStageOpcode.jmp)
    × (s.packet.exec_mask ≡ mask)
    × (s.packet.dest ≡ of_address target)

abbrev requested : ℕ → ℕ → DecodeToExecuteBus → ℕ → DecodeToExecuteBus
requested mask pc bus offset = record {
  is_busy = true;
  packet = record bus.packet {
    exec_mask = mask;
    pc = pc;
    opcode = ExecuteStageOpcode.jmp;
    value0 = vec (create_vec_int64 offset);
  };
}

abbrev jumping : ℕ → ℕ → ExecuteToStoreBus → ℕ → ExecuteToStoreBus
jumping mask pc bus target = record {
  is_busy = true;
  packet = record bus.packet {
    exec_mask = mask;
    pc = pc;
    opcode = StorageStageOpcode.jmp;
    dest = of_address target;
    is_store_to_pc = false;
  };
}

module _ (mask pc : ℕ) (bus : DecodeToExecuteBus) (store_bus : ExecuteToStoreBus)
    (regs : RegisterFile) (decode_free : bus.is_busy ≡ false)
    (store_free : store_bus.is_busy ≡ false) where
  -- The decode stage reads 24 bits of the distance, without a sign.
  jump-LeadsTo : (x : ℕ) → LeadsTo (word1 25 x) mask pc bus store_bus regs (u64 (pc + x % 2 ^ 24))
  unfolding decode_op execute_insn execute_op jump_target send_req1 send_address VectorValue.get
      get_opcode
  jump-LeadsTo x =
      let f = word1_fields 25 x (omega arith) in
      (
        requested mask pc bus (x % 2 ^ 24),
        jumping mask pc store_bus (u64 (pc + x % 2 ^ 24)),
        decode_insn-op mask pc (word1 25 x) bus regs Opcode.jmp_always (ap opcode_of f.0)
            ∙ rw (
              int32-field mask pc (word1 25 x) bus regs (x % 2 ^ 24) (omega arith) f.1,
              decode_free,
            ),
        rw store_free,
        refl,
        refl,
        refl,
      )

  -- A jump over `dest` bytes is encoded, and leads to `target`.
  abbrev pub JumpLeadsTo : List ℕ → ℤ → ℕ → Type 0
  JumpLeadsTo label dest target =
      (word : ℕ) × (insn' : Insn) × (get_encoded_instruction (jump label dest Mnemonic.jmp)
        ≡ some (word, insn'))
      × LeadsTo word mask pc bus store_bus regs target

  -- Any distance is cut to its low 24 bits.
  jump-JumpLeadsTo :
      (label : List ℕ) (dest : ℤ) (target : ℕ)
      → u64 (pc + to_u32 dest % 2 ^ 24) ≡ target
      → JumpLeadsTo label dest target
  unfolding get_encoded_instruction jump_opcode
  jump-JumpLeadsTo label dest target e = (
    word1 25 (to_u32 dest),
    jump label dest Mnemonic.jmp,
    refl,
    subst (LeadsTo (word1 25 (to_u32 dest)) mask pc bus store_bus regs) e
        (jump-LeadsTo (to_u32 dest)),
  )

  -- If both buses are free, a jump from `pc` to a label at most 2 ^ 24 - 1 bytes further on and
  -- below 2 ^ 63, encoded, decoded and executed, leads to the label.
  pub forward_jump :
      (label : List ℕ) (target : ℕ)
      → pc ≤ target
      → target < pc + 2 ^ 24
      → target < 2 ^ 63
      → JumpLeadsTo label (distance target pc) target
  forward_jump label target h1 h2 h3 =
      jump-JumpLeadsTo label (distance target pc) target (ground arith)

  -- If both buses are free, a jump from `pc`, below 2 ^ 63, back to a label at most 2 ^ 24 bytes
  -- before does not lead to the label but to the address 2 ^ 24 bytes beyond it.
  pub backward_jump :
      (label : List ℕ) (target : ℕ)
      → target < pc
      → pc ≤ target + 2 ^ 24
      → pc < 2 ^ 63
      → JumpLeadsTo label (distance target pc) (target + 2 ^ 24)
  backward_jump label target h1 h2 h3 =
      jump-JumpLeadsTo label (distance target pc) (target + 2 ^ 24) (ground arith)
