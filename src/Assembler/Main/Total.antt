-- ===== src/Assembler/Main/Total.antt =====
-- `main` of Assembler/Assembler.cpp on source texts that spell instructions.
use ecc_cpu.Base.{ℕ, ◌+◌, u64, ◌≡◌, refl, some, Option-cases, inl, inr, List, [], ◌∷◌, ◌++◌, map}
use ecc_cpu.Base.Int.{to_u32}
use ecc_cpu.Defines.{code_segment_start}
use ecc_cpu.Assembler.Insns.{
  Mnemonic, Insn, add_reg_reg_const, add_reg_reg_reg, cmp_reg_reg, halt_insn, jump, load_addr,
  load_register, move_reg_block_index, move_reg_const, move_reg_reg, move_reg_symbol, restore_pc,
  shl_reg_reg_const, store_register, jump_opcode, word1, get_encoded_instruction,
}
use ecc_cpu.Assembler.Linker.{
  Instruction, Dict, find, place_insns, code_dict, link_insn, link_insns, link, place_objs,
  data_dict,
}
use ecc_cpu.Assembler.Text.{Text}
use ecc_cpu.Assembler.Parser.Registers.{initial_regnames}
use ecc_cpu.Assembler.Parser.Spells.{
  Spells, spells_halt, spells_jump, spells_load_addr, spells_cmp, spells_shl, spells_mov_const,
  spells_mov_reg, spells_mov_block_index, spells_mov_symbol, spells_store, spells_load,
  spells_restore_pc, spells_add_const, spells_add_reg, jump_name,
}
use ecc_cpu.Assembler.Parser.Source.{
  Content, label_line, insn_line, SourceLine, source, IsContent, AllSourceLines, labelled,
}
use ecc_cpu.Assembler.Parser.Source.Parsed.{parse-source}
use ecc_cpu.Assembler.ObjectWriter.{code_file, write_objects, word_bytes}
use ecc_cpu.Assembler.Main.{initial_program, assemble}

-- The instruction has a word: a jump needs the mnemonic of one.
abbrev pub IsWritable : Insn → Type 0
IsWritable (jump label dest m) = (op : ℕ) × (jump_opcode m ≡ some op)
IsWritable _ = Unit

abbrev pub AllWritable : List Instruction → Type 0
AllWritable [] = Unit
AllWritable (i ∷ insns) = IsWritable i.insn × AllWritable insns

HasWord : Insn → Type 0
HasWord insn = (r : ℕ × Insn) × (get_encoded_instruction insn ≡ some r)

IsWritable-HasWord : (insn : Insn) → IsWritable insn → HasWord insn
unfolding get_encoded_instruction HasWord
IsWritable-HasWord (jump label dest m) (op, e) = ((word1 op (to_u32 dest), jump label dest m), rw e)
IsWritable-HasWord (add_reg_reg_const d s c) h = (_, refl)
IsWritable-HasWord (add_reg_reg_reg d s t) h = (_, refl)
IsWritable-HasWord (cmp_reg_reg d s) h = (_, refl)
IsWritable-HasWord halt_insn h = (_, refl)
IsWritable-HasWord (load_addr part name address) h = (_, refl)
IsWritable-HasWord (load_register d b c) h = (_, refl)
IsWritable-HasWord (move_reg_block_index d s) h = (_, refl)
IsWritable-HasWord (move_reg_const d c) h = (_, refl)
IsWritable-HasWord (move_reg_reg d s) h = (_, refl)
IsWritable-HasWord (move_reg_symbol d symbol c) h = (_, refl)
IsWritable-HasWord (restore_pc r c) h = (_, refl)
IsWritable-HasWord (shl_reg_reg_const d s c) h = (_, refl)
IsWritable-HasWord (store_register b c s) h = (_, refl)

code_file-total :
    (insns : List Instruction) → AllWritable insns → (f : List ℕ) × (code_file insns ≡ some f)
unfolding code_file HasWord
code_file-total [] h = ([], refl)
code_file-total (i ∷ insns) h =
    let ((w, insn'), encoded) = IsWritable-HasWord i.insn h.0 in
    let (rest, written) = code_file-total insns h.1 in (word_bytes w ++ rest, rw (encoded, written))

link_insn-IsWritable :
    (code globals : Dict) (own : ℕ) (insn : Insn)
    → IsWritable insn
    → IsWritable (link_insn code globals own insn)
unfolding link_insn
link_insn-IsWritable code globals own (jump label dest m) h =
    elim (Option-cases (find code label)) [
      | inl missing ↦ rw missing h
      | inr (a, found) ↦ rw found h
    ]
link_insn-IsWritable code globals own (load_addr part name address) h =
    elim (Option-cases (find globals name)) [
      | inl missing ↦ rw missing tt
      | inr (a, found) ↦ rw found tt
    ]
link_insn-IsWritable code globals own (move_reg_symbol d symbol c) h =
    elim (Option-cases (find code symbol)) [
      | inl missing ↦ rw missing tt
      | inr (a, found) ↦ rw found tt
    ]
link_insn-IsWritable code globals own (add_reg_reg_const d s c) h = tt
link_insn-IsWritable code globals own (add_reg_reg_reg d s t) h = tt
link_insn-IsWritable code globals own (cmp_reg_reg d s) h = tt
link_insn-IsWritable code globals own halt_insn h = tt
link_insn-IsWritable code globals own (load_register d b c) h = tt
link_insn-IsWritable code globals own (move_reg_block_index d s) h = tt
link_insn-IsWritable code globals own (move_reg_const d c) h = tt
link_insn-IsWritable code globals own (move_reg_reg d s) h = tt
link_insn-IsWritable code globals own (restore_pc r c) h = tt
link_insn-IsWritable code globals own (shl_reg_reg_const d s c) h = tt
link_insn-IsWritable code globals own (store_register b c s) h = tt

place_insns-AllWritable :
    (address : ℕ) (insns : List Instruction)
    → AllWritable insns
    → AllWritable (place_insns address insns)
unfolding place_insns
place_insns-AllWritable address [] h = tt
place_insns-AllWritable address (i ∷ insns) h =
    (h.0, place_insns-AllWritable (u64 (address + 4)) insns h.1)

linked-AllWritable :
    (code globals : Dict) (insns : List Instruction)
    → AllWritable insns
    → AllWritable (
        map {A = Instruction}
          (λ i. record i { insn = link_insn code globals i.address i.insn })
          insns)
linked-AllWritable code globals [] h = tt
linked-AllWritable code globals (i ∷ insns) h = (
  link_insn-IsWritable code globals i.address i.insn h.0,
  linked-AllWritable code globals insns h.1,
)

link_insns-AllWritable :
    (globals : Dict) (address : ℕ) (insns : List Instruction)
    → AllWritable insns
    → AllWritable (link_insns globals address insns)
unfolding link_insns
link_insns-AllWritable globals address insns h =
    let placed : List Instruction = place_insns address insns in
    linked-AllWritable (code_dict [] placed) globals placed
      (place_insns-AllWritable address insns h)

jump_name-opcode :
    (m : Mnemonic) (name : Text) → jump_name m ≡ some name → (op : ℕ) × (jump_opcode m ≡ some op)
unfolding jump_opcode
jump_name-opcode Mnemonic.jmp name e = (_, refl)
jump_name-opcode Mnemonic.je name e = (_, refl)
jump_name-opcode Mnemonic.jne name e = (_, refl)
jump_name-opcode Mnemonic.jg name e = (_, refl)
jump_name-opcode Mnemonic.jge name e = (_, refl)
jump_name-opcode Mnemonic.jl name e = (_, refl)
jump_name-opcode Mnemonic.jle name e = (_, refl)
jump_name-opcode _ name e = cc

Spells-IsWritable :
    {names : Dict} {toks : List Text} {insn : Insn} → Spells names toks insn → IsWritable insn
Spells-IsWritable (spells_jump op label m h) = jump_name-opcode m op h
Spells-IsWritable spells_halt = tt
Spells-IsWritable (spells_load_addr dest symbol part) = tt
Spells-IsWritable (spells_cmp a b d s ha hb) = tt
Spells-IsWritable (spells_shl a b d s c ha hb hc) = tt
Spells-IsWritable (spells_mov_const a d c ha hc) = tt
Spells-IsWritable (spells_mov_reg a b d s ha hb other) = tt
Spells-IsWritable (spells_mov_block_index a b d s ha hb same) = tt
Spells-IsWritable (spells_mov_symbol a symbol d ha hs hn) = tt
Spells-IsWritable (spells_store a b base s offset fits ha word hb) = tt
Spells-IsWritable (spells_load a b base d offset fits ha word hb) = tt
Spells-IsWritable (spells_restore_pc a base offset fits ha word) = tt
Spells-IsWritable (spells_add_const a b d s c ha hb hc) = tt
Spells-IsWritable (spells_add_reg a b e d s t ha hb he) = tt

labelled-AllWritable :
    (names : Dict) (label : Text) (ls : List SourceLine)
    → AllSourceLines names ls
    → AllWritable (labelled label ls)
labelled-AllWritable names label [] h = tt
labelled-AllWritable names label (l ∷ ls) h =
    first l.content (h.0).content_fits (λ next. labelled-AllWritable names next ls h.1)
  where
    first :
        (c : Content)
        → IsContent names c
        → ((next : Text) → AllWritable (labelled next ls))
        → AllWritable (labelled label ((record l { content = c }) ∷ ls))
    first (label_line name) fits rest = rest name
    first (insn_line ts insn) fits rest = (Spells-IsWritable fits.1, rest [])

-- If a source text has on each line a label or the words of an instruction, the assembler writes
-- both files: the data file is empty, and the code file has the words of the instructions, linked as
-- the linker links them from the start of the code segment on.
pub assemble-source :
    (ls : List SourceLine)
    → AllSourceLines initial_regnames ls
    → (code : List ℕ) × (assemble (some (source ls)) ≡ some (code, []))
      × (code_file (link_insns [] code_segment_start (labelled [] ls)) ≡ some code)
unfolding assemble link place_objs data_dict write_objects
assemble-source ls h =
    let (code, written) = code_file-total (link_insns [] code_segment_start (labelled [] ls)) (
      link_insns-AllWritable [] code_segment_start (labelled [] ls)
        (labelled-AllWritable initial_regnames [] ls h)) in
    (code, rw (parse-source ls initial_program h, written), written)
