-- ===== src/Simulator/Toolchain.antt =====
-- The assembler and the simulator's loading together: from a source text to what the fetch stage
-- reads.
use ecc_cpu.Base.{
  ℕ, suc, ◌+◌, ◌*◌, ◌≤◌, ◌<◌, u32, u64, ◌≡◌, ◌∙◌, ap, refl, true, some, List, [], ◌∷◌, length,
  get_elem?, arith, map,
}
use ecc_cpu.Defines.{code_segment_start, end_memory_address}
use ecc_cpu.Memory.Dram.{Storage, read_value}
use ecc_cpu.Memory.Dram.Bytes.{IsBytes}
use ecc_cpu.Stage.Fetch.Invariant.{insn_at}
use ecc_cpu.Assembler.Insns.{Insn, get_encoded_instruction}
use ecc_cpu.Assembler.Linker.{Instruction, Dict, place_insns, link_insns}
use ecc_cpu.Assembler.Text.{Text, codes, ends_with}
use ecc_cpu.Assembler.Parser.Registers.{initial_regnames}
use ecc_cpu.Assembler.Parser.Source.{SourceLine, source, AllSourceLines, labelled}
use ecc_cpu.Assembler.Main.{assemble}
use ecc_cpu.Assembler.Main.Total.{assemble-source}
use ecc_cpu.Simulator.{read_code_memory_dump}
use ecc_cpu.Simulator.LoadedCode.{loaded_code}

length-map : (f : Instruction → Instruction) (xs : List Instruction) → length (map f xs) ≡ length xs
length-map f [] = refl
length-map f (x ∷ xs) = ap suc (length-map f xs)

length-place_insns :
    (address : ℕ) (insns : List Instruction) → length (place_insns address insns) ≡ length insns
unfolding place_insns
length-place_insns address [] = refl
length-place_insns address (i ∷ insns) = ap suc (length-place_insns (u64 (address + 4)) insns)

length-link_insns :
    (globals : Dict) (address : ℕ) (insns : List Instruction)
    → length (link_insns globals address insns) ≡ length insns
unfolding link_insns
length-link_insns globals address insns =
    length-map _ (place_insns address insns) ∙ length-place_insns address insns

-- A source text that has on each line a label or the words of an instruction, and whose instructions
-- fit below the end of the memory with one word to spare, is assembled; the simulator loads the code
-- file if its name ends with `.bin`; and then, if the DRAM and what is stale hold bytes, the fetch
-- stage finds at four times `i` the word of the instruction on the `i`th instruction line, linked.
pub loaded_source :
    (ls : List SourceLine) (stale : ℕ → ℕ) (name : Text) (before : Storage)
    → AllSourceLines initial_regnames ls
    → ends_with name (codes ".bin") ≡ true
    → 4 * length (labelled [] ls) + 4 ≤ end_memory_address
    → IsBytes before
    → ((k : ℕ) → stale k < 256)
    → (code : List ℕ) × (after : Storage) × (assemble (some (source ls)) ≡ some (code, []))
      × (read_code_memory_dump stale name (some code) before ≡ some after)
      × ((i : ℕ) (inst : Instruction) (w : ℕ) (insn' : Insn)
          → get_elem? (link_insns [] code_segment_start (labelled [] ls)) i ≡ some inst
          → get_encoded_instruction inst.insn ≡ some (w, insn')
          → insn_at (read_value after) (4 * i) ≡ u32 w)
loaded_source ls stale name before h bin fits bytes junk =
    let (code, assembled, written) = assemble-source ls h in
    let linked : List Instruction = link_insns [] code_segment_start (labelled [] ls) in
    let (after, loaded, found) =
      loaded_code linked code stale name before written bin
        (omega (arith, length-link_insns [] code_segment_start (labelled [] ls))) bytes junk in
    (code, after, assembled, loaded, found)
