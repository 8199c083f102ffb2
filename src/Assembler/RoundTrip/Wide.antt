-- ===== src/Assembler/RoundTrip/Wide.antt =====
-- The instructions of Assembler/include with a wide constant: jumps, addresses and symbols.
use mathlib.Core.Option
use ecc_cpu.Base.{
  sym, ℕ, ◌/◌, ◌%◌, ◌^◌, ◌<◌, ◌>>>◌, bit_and, bit_and-mask, u16, u32, ◌≡◌, refl, ap, ◌∙◌, arith,
  some, List,
}
use ecc_cpu.Base.Int.{ℤ, pos, negsuc, to_u32}
use ecc_cpu.Defines.{RegisterId, Opcode, opcode_value, opcode_of, ExecuteStageOpcode}
use ecc_cpu.RegisterFile.{RegisterFile}
use ecc_cpu.Bus.DecodeToExecuteBus.{DecodeToExecuteBus}
use ecc_cpu.Stage.Decode.{decode_op, decode_cond_jump}
use ecc_cpu.Assembler.Insns.{
  Mnemonic, AddressPart, lo, mid, hi, get_encoded_instruction, encode_load_addr, jump_opcode, word1,
  word2, halt_insn, jump, load_addr, move_reg_symbol,
}
use ecc_cpu.Assembler.Words.{word1_fields, word2_fields}
use ecc_cpu.Assembler.Meaning.{IsEncodable, jump_condition, jump_meaning}
use ecc_cpu.Assembler.Encoding.{decode_cond_jump-meaning, decode_or_r0-join_r0, int32-field}
use ecc_cpu.Assembler.RoundTrip.Survival.{Survives, survives}

module _ (mask pc : ℕ) (bus : DecodeToExecuteBus) (regs : RegisterFile) where
  pub Survives-halt_insn : Survives mask pc bus regs halt_insn
  unfolding get_encoded_instruction decode_op
  Survives-halt_insn =
      survives mask pc bus regs halt_insn halt_insn 1 Opcode.halt refl refl refl refl

  pub Survives-move_reg_symbol :
      (d : RegisterId) (symbol : List ℕ) (c : ℤ)
      → IsEncodable (move_reg_symbol d symbol c)
      → Survives mask pc bus regs (move_reg_symbol d symbol c)
  unfolding get_encoded_instruction decode_op
  Survives-move_reg_symbol d symbol (negsuc n) h = absurd h.1
  Survives-move_reg_symbol d symbol (pos n) h =
      let w : ℕ = word2 33 d (to_u32 (pos n)) in
      let f = word2_fields 33 d (to_u32 (pos n)) (omega arith) h.0 in
      survives mask pc bus regs (move_reg_symbol d symbol (pos n))
        (move_reg_symbol d symbol (pos n)) w Opcode.move_pcrel_reg_const16 refl f.0 refl
        (rw (f.1, let e : u16 (w >>> 16) ≡ n % 2 ^ 64 = omega arith in e))

  -- A jump with the opcode value `v` and the offset `n`.
  abbrev jump_word : ℕ → ℕ → ℕ
  jump_word v n = word1 v (n % 2 ^ 32)

  jump-field : (v n : ℕ) → v < 256 → n < 2 ^ 24 → jump_word v n >>> 8 ≡ n % 2 ^ 64
  jump-field v n hv hn = omega (arith, word1_fields v (n % 2 ^ 32) hv)

  Survives-cond_jump :
      (label : List ℕ) (n : ℕ) (m : Mnemonic) (op : Opcode)
      → jump_opcode m ≡ some (opcode_value op)
      → opcode_of (opcode_value op) ≡ op
      → opcode_value op < 256
      → n < 2 ^ 24
      → jump_condition m ≡ some op
      → decode_op mask pc (jump_word (opcode_value op) n) bus regs op
        ≡ decode_cond_jump mask pc (jump_word (opcode_value op) n) bus regs op
      → Survives mask pc bus regs (jump label (pos n) m)
  unfolding get_encoded_instruction
  Survives-cond_jump label n m op code named small hn condition decodes =
      survives mask pc bus regs (jump label (pos n) m) (jump label (pos n) m)
        (jump_word (opcode_value op) n) op
        (ap
          (λ found.
            Option.map (λ word. (word, jump label (pos n) m))
              (Option.map (λ v. word1 v (n % 2 ^ 32)) found))
          code)
        ((word1_fields (opcode_value op) (n % 2 ^ 32) small).0) named
        (decodes
          ∙ decode_cond_jump-meaning mask pc (jump_word (opcode_value op) n) bus regs op
              (n % 2 ^ 64) (omega arith) (jump-field (opcode_value op) n small hn)
          ∙ ap (jump_meaning mask pc bus regs (pos n)) (sym condition))

  pub Survives-jump :
      (label : List ℕ) (dest : ℤ) (m : Mnemonic)
      → IsEncodable (jump label dest m)
      → Survives mask pc bus regs (jump label dest m)
  unfolding get_encoded_instruction decode_op jump_opcode
  Survives-jump label (negsuc n) m h = absurd h.0
  Survives-jump label (pos n) Mnemonic.jmp h =
      survives mask pc bus regs (jump label (pos n) Mnemonic.jmp) (jump label (pos n) Mnemonic.jmp)
        (jump_word 25 n) Opcode.jmp_always refl ((word1_fields 25 (n % 2 ^ 32) (omega arith)).0)
        refl
        (rw (
          int32-field mask pc (jump_word 25 n) bus regs (n % 2 ^ 64) (omega arith)
            (jump-field 25 n (omega arith) h.0)))
  Survives-jump label (pos n) Mnemonic.je h =
      Survives-cond_jump label n Mnemonic.je Opcode.jmp_equal refl refl (omega arith) h.0 refl refl
  Survives-jump label (pos n) Mnemonic.jne h =
      Survives-cond_jump label n Mnemonic.jne Opcode.jmp_not_equal refl refl (omega arith) h.0 refl
        refl
  Survives-jump label (pos n) Mnemonic.jl h =
      Survives-cond_jump label n Mnemonic.jl Opcode.jmp_lower refl refl (omega arith) h.0 refl refl
  Survives-jump label (pos n) Mnemonic.jle h =
      Survives-cond_jump label n Mnemonic.jle Opcode.jmp_lower_equal refl refl (omega arith) h.0
        refl refl
  Survives-jump label (pos n) Mnemonic.jg h =
      Survives-cond_jump label n Mnemonic.jg Opcode.jmp_greater refl refl (omega arith) h.0 refl
        refl
  Survives-jump label (pos n) Mnemonic.jge h =
      Survives-cond_jump label n Mnemonic.jge Opcode.jmp_greater_equal refl refl (omega arith) h.0
        refl refl
  Survives-jump label (pos n) _ h = absurd h.1

  part-small :
      (k address : ℕ)
      → address < 2 ^ 64
      → u32 (bit_and (address >>> k) 0xff_ffff) ≡ address / 2 ^ k % 2 ^ 24
  part-small k address h = omega (arith, bit_and-mask 24 (address >>> k))

  pub Survives-load_addr :
      (part : AddressPart) (name : List ℕ) (address : ℕ)
      → IsEncodable (load_addr part name address)
      → Survives mask pc bus regs (load_addr part name address)
  unfolding get_encoded_instruction encode_load_addr decode_op
  Survives-load_addr lo name address h =
      let part = bit_and (address >>> 0) 0xff_ffff in
      let f = word1_fields 7 (u32 part) (omega arith) in
      survives mask pc bus regs (load_addr lo name address) (load_addr lo name part)
        (word1 7 (u32 part)) Opcode.move_r0_const24a refl f.0 refl
        (rw (
          int32-field mask pc (word1 7 (u32 part)) bus regs (address % 2 ^ 24) (omega arith)
            (omega (arith, f.1, part-small 0 address h))))
  Survives-load_addr mid name address h =
      let part = bit_and (address >>> 24) 0xff_ffff in
      let f = word1_fields 8 (u32 part) (omega arith) in
      survives mask pc bus regs (load_addr mid name address) (load_addr mid name part)
        (word1 8 (u32 part)) Opcode.move_r0_const24b refl f.0 refl
        (decode_or_r0-join_r0 mask pc (word1 8 (u32 part)) bus regs ExecuteStageOpcode.orb_reg_value
          (address / 2 ^ 24 % 2 ^ 24) (omega arith) (omega (arith, f.1, part-small 24 address h)))
  Survives-load_addr hi name address h =
      let part = bit_and (address >>> 48) 0xff_ffff in
      let f = word1_fields 9 (u32 part) (omega arith) in
      survives mask pc bus regs (load_addr hi name address) (load_addr hi name part)
        (word1 9 (u32 part)) Opcode.move_r0_const24c refl f.0 refl
        (decode_or_r0-join_r0 mask pc (word1 9 (u32 part)) bus regs ExecuteStageOpcode.orc_reg_value
          (address / 2 ^ 48) (omega arith) (omega (arith, f.1, part-small 48 address h)))
