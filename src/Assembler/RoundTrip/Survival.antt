-- ===== src/Assembler/RoundTrip/Survival.antt =====
-- What it means for an instruction to survive encoding (Assembler/include) and decoding
-- (CoreLib/DecodeStage.cpp), and how to show it.
use ecc_cpu.Base.{ℕ, u8, ◌≡◌, ap, ◌∙◌, some}
use ecc_cpu.Defines.{Opcode, opcode_value, opcode_of, get_opcode}
use ecc_cpu.RegisterFile.{RegisterFile}
use ecc_cpu.Packets.{create_fetch_decode_packet}
use ecc_cpu.Bus.DecodeToExecuteBus.{DecodeToExecuteBus}
use ecc_cpu.Stage.Decode.{decode_insn, decode_op}
use ecc_cpu.Assembler.Insns.{Insn, get_encoded_instruction}
use ecc_cpu.Assembler.Meaning.{meaning}
use ecc_cpu.Assembler.Encoding.{decode_insn-op}

module _ (mask pc : ℕ) (bus : DecodeToExecuteBus) (regs : RegisterFile) where
  -- The encoder gives a word, and the decode stage does with it what the instruction means.
  abbrev pub Survives : Insn → Type 0
  Survives insn =
      (word : ℕ) × (insn' : Insn) × (get_encoded_instruction insn ≡ some (word, insn'))
      × (decode_insn (create_fetch_decode_packet mask pc word) bus regs
          ≡ meaning mask pc bus regs insn)

  pub survives :
      (insn insn' : Insn) (w : ℕ) (op : Opcode)
      → get_encoded_instruction insn ≡ some (w, insn')
      → u8 w ≡ opcode_value op
      → opcode_of (opcode_value op) ≡ op
      → decode_op mask pc w bus regs op ≡ meaning mask pc bus regs insn
      → Survives insn
  unfolding get_opcode
  survives insn insn' w op encoded first named means =
      (w, insn', encoded, decode_insn-op mask pc w bus regs op (ap opcode_of first ∙ named) ∙ means)
