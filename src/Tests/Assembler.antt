-- ===== src/Tests/Assembler.antt =====
-- The theorems on Assembler/include and the decode stage at concrete instructions.
use ecc_cpu.Base.{◌∷◌, get_elem?, true, false, ℕ, ◌<◌, ◌≡◌, lt→ltb, some, arith, refl, []}
use ecc_cpu.Base.Int.{pos, negsuc, distance}
use ecc_cpu.RegisterFile.{zeroed, is_valid}
use ecc_cpu.Assembler.Insns.{Mnemonic, jump, add_reg_reg_const, add_reg_reg_reg}
use ecc_cpu.Assembler.Linker.{Instruction, same_text, link_insns}
use ecc_cpu.Assembler.Linker.LinkedJump.{InsnLeadsTo, linked_jump}
use ecc_cpu.Assembler.Linker.Labels.{link_insns-jump}
use ecc_cpu.Assembler.Retire.{Writes, run_insn}
use ecc_cpu.Assembler.Retire.Correct.{run_insn-Writes}
use ecc_cpu.Assembler.Retire.LoadAddress.{load_address, load_address-Writes}
use ecc_cpu.VectorValue.{create_vec_int64}
use ecc_cpu.Stage.Store.{Stepped, top}
use ecc_cpu.Assembler.RoundTrip.{Survives, decode-encode}
use ecc_cpu.Assembler.Jumps.{JumpLeadsTo, forward_jump, backward_jump}
use ecc_cpu.Tests.{
  free_execute_bus, free_store_bus, free_fetch_bus, vec_bus, ascending, queue, no_stats,
}

-- `add %r3, %r4, -5`
decode-encode_example : Survives 255 64 free_execute_bus zeroed (add_reg_reg_const 3 4 (negsuc 4))
decode-encode_example =
    decode-encode (add_reg_reg_const 3 4 (negsuc 4)) 255 64 free_execute_bus zeroed
      (omega arith, omega arith, omega arith)

forward_jump_example :
    JumpLeadsTo 255 64 free_execute_bus free_store_bus zeroed refl refl [] (distance 80 64) 80
forward_jump_example =
    forward_jump 255 64 free_execute_bus free_store_bus zeroed refl refl [] 80 (omega arith)
      (omega arith) (omega arith)

-- A loop back over four instructions.
backward_jump_example :
    JumpLeadsTo 255 64 free_execute_bus free_store_bus zeroed refl refl [] (distance 48 64) 16777264
backward_jump_example =
    backward_jump 255 64 free_execute_bus free_store_bus zeroed refl refl [] 48 (omega arith)
      (omega arith) (omega arith)

-- The state of the store stage, whose buses the instructions below leave alone.
abbrev idle : Stepped
idle = record {
  state = top;
  execute_bus = free_store_bus;
  memory_bus = vec_bus false;
  regs = record zeroed { regs = λ _. ascending };
  fetch_bus = free_fetch_bus;
  divergence_queue = queue 0 0;
  stats = no_stats;
}

all_valid : (id : ℕ) → id < 14 → is_valid idle.regs id ≡ some true
unfolding is_valid
all_valid id h = simp (lt→ltb id 14 h) refl

-- `add %r3, %r1, %r2`
run_insn-Writes_example :
    Writes idle.regs 3
      (record {
        data0 = 0;
        data1 = 16;
        data2 = 32;
        data3 = 48;
        data4 = 64;
        data5 = 80;
        data6 = 96;
        data7 = 112;
      })
      (run_insn 0 idle 255 64 free_execute_bus free_store_bus (add_reg_reg_reg 3 1 2))
run_insn-Writes_example =
    run_insn-Writes 0 255 64 free_execute_bus free_store_bus idle refl refl (add_reg_reg_reg 3 1 2)
      3
      (record {
        data0 = 0;
        data1 = 16;
        data2 = 32;
        data3 = 48;
        data4 = 64;
        data5 = 80;
        data6 = 96;
        data7 = 112;
      })
      (omega arith, omega arith, omega arith) (all_valid 1 (omega arith), all_valid 2 (omega arith))
      refl (omega arith)

load_address-Writes_example :
    Writes idle.regs 0
      (create_vec_int64 1048600)
      (load_address 0 255 64 free_execute_bus free_store_bus [] 1048600 idle)
load_address-Writes_example =
    load_address-Writes 0 255 64 free_execute_bus free_store_bus refl refl [] 1048600 (omega arith)
      idle (omega arith, refl)

-- `A: add %r1, %r1, 1`, then `jmp A`
abbrev first_insn : Instruction
first_insn = record { label = 65 ∷ []; address = 0; insn = add_reg_reg_const 1 1 (pos 1) }

abbrev second_insn : Instruction
second_insn = record { label = []; address = 0; insn = jump (65 ∷ []) (pos 0) Mnemonic.jmp }

has_label : same_text (65 ∷ []) [] ≡ false
unfolding same_text
has_label = refl

no_label : same_text [] (65 ∷ []) ≡ false
unfolding same_text
no_label = refl

link_insns-jump_example :
    get_elem? (link_insns [] 0 (first_insn ∷ second_insn ∷ [])) 1
    ≡ some (record { label = []; address = 4; insn = jump (65 ∷ []) (distance 0 4) Mnemonic.jmp })
link_insns-jump_example =
    link_insns-jump [] 0 [] (second_insn ∷ []) first_insn 1 second_insn (65 ∷ []) (pos 0)
      Mnemonic.jmp refl has_label (no_label, tt) refl refl (omega arith) (omega arith)

-- `jmp A`, then `A: add %r1, %r1, 1`
linked_jump_example :
    (y : Instruction) × (get_elem? (link_insns [] 0 (second_insn ∷ first_insn ∷ [])) 0 ≡ some y)
    × (y.address ≡ 0)
    × InsnLeadsTo 255 free_execute_bus free_store_bus zeroed y 4
linked_jump_example =
    linked_jump 255 free_execute_bus free_store_bus zeroed [] 0 (second_insn ∷ []) [] first_insn 0
      second_insn (65 ∷ []) (pos 0) refl refl refl has_label tt refl refl (omega arith)
      (omega arith) (omega arith)
