-- ===== src/Assembler/Linker/LinkedJump.antt =====
-- A jump to a label, from the linker of Assembler/Linker.cpp to CoreLib/ExecuteStage.cpp.
use ecc_cpu.Base.{
  ℕ, ◌+◌, ◌*◌, ◌^◌, ◌<◌, ◌≤◌, ◌≡◌, refl, arith, false, some, List, [], ◌∷◌, ◌++◌, length, get_elem?,
}
use ecc_cpu.Base.Int.{ℤ}
use ecc_cpu.RegisterFile.{RegisterFile}
use ecc_cpu.Bus.DecodeToExecuteBus.{DecodeToExecuteBus}
use ecc_cpu.Bus.ExecuteToStoreBus.{ExecuteToStoreBus}
use ecc_cpu.Assembler.Insns.{Insn, Mnemonic, jump, get_encoded_instruction}
use ecc_cpu.Assembler.Jumps.{LeadsTo, forward_jump}
use ecc_cpu.Assembler.Linker.{Instruction, same_text, Dict, link_insns}
use ecc_cpu.Assembler.Linker.Labels.{NotLabelled, link_insns-jump}

module _ (mask : ℕ) (bus : DecodeToExecuteBus) (store_bus : ExecuteToStoreBus)
    (regs : RegisterFile) where
  -- The instruction is encoded, and its word leads to `target` from the instruction's address.
  abbrev pub InsnLeadsTo : Instruction → ℕ → Type 0
  InsnLeadsTo i target =
      (word : ℕ) × (insn' : Insn) × (get_encoded_instruction i.insn ≡ some (word, insn'))
      × LeadsTo word mask i.address bus store_bus regs target

  -- If both buses are free, an unconditional jump forward to a label that is not empty, less than
  -- 2 ^ 24 bytes on and below 2 ^ 63, once linked, encoded, decoded and executed at its address, leads
  -- to the address at which the linker has placed the last instruction with the label.
  pub linked_jump :
      (globals : Dict) (base : ℕ) (before after : List Instruction) (target : Instruction) (i : ℕ)
      (x : Instruction) (label : List ℕ) (dest : ℤ)
      → bus.is_busy ≡ false
      → store_bus.is_busy ≡ false
      → target.label ≡ label
      → same_text label [] ≡ false
      → NotLabelled label after
      → get_elem? (before ++ (target ∷ after)) i ≡ some x
      → x.insn ≡ jump label dest Mnemonic.jmp
      → i ≤ length before
      → 4 * length before < 4 * i + 2 ^ 24
      → base + 4 * length before < 2 ^ 63
      → (y : Instruction) × (get_elem? (link_insns globals base (before ++ (target ∷ after))) i
          ≡ some y)
        × (y.address ≡ base + 4 * i)
        × InsnLeadsTo y (base + 4 * length before)
  linked_jump globals base before after target i x label dest free store_free named labelled last at
        is forward near fits =
      (
        _,
        link_insns-jump globals base before after target i x label dest Mnemonic.jmp named labelled
            last at is (omega arith) (omega arith),
        refl,
        forward_jump mask (base + 4 * i) bus store_bus regs free store_free label
            (base + 4 * length before) (omega arith) (omega arith) (omega arith),
      )
