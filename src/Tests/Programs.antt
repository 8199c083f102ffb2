-- ===== src/Tests/Programs.antt =====
-- The theorems on Assembler/parser.cpp, Assembler/ObjectWriter.cpp and Simulator/Simulator.cpp at
-- concrete texts.
use ecc_cpu.Base.{ℕ, ◌≡◌, ◌*◌, ◌+◌, refl, ◌⊎◌, some, List, [], ◌∷◌, arith, get_elem?, u32}
use ecc_cpu.Base.Int.{pos, negsuc, to_u64}
use ecc_cpu.Defines.{code_segment_start, data_segment_start}
use ecc_cpu.Memory.Dram.{Storage, read_value}
use ecc_cpu.Stage.Fetch.Invariant.{insn_at}
use ecc_cpu.Assembler.Insns.{Mnemonic, Insn, add_reg_reg_const, jump, get_encoded_instruction}
use ecc_cpu.Assembler.Linker.{
  Instruction, DataField, DataObject, find, same_text, place_objs, link_insns,
}
use ecc_cpu.Assembler.Text.{codes, ends_with, starts_with, Text, trim, skip_spaces, cut_comment}
use ecc_cpu.Assembler.Parser.{
  parse, parse_lines, lines_from, parse_line, parse_data_line, append_field,
}
use ecc_cpu.Assembler.Parser.CodeLine.{Program, error, parse_insn, parse_code_line}
use ecc_cpu.Assembler.Parser.Constants.{signed_number, magnitude, digits_from}
use ecc_cpu.Assembler.Parser.Opcodes.{string_to_opcode}
use ecc_cpu.Assembler.Parser.Tokens.{is_split_char, push_token, tokens_from}
use ecc_cpu.Assembler.Parser.Registers.{initial_regnames}
use ecc_cpu.Assembler.Parser.Spells.{spells_jump, spells_add_const}
use ecc_cpu.Assembler.Parser.Constants.Decimal.{decimal, digits_before}
use ecc_cpu.Assembler.Parser.Source.{
  SourceLine, label_line, insn_line, source, AllSourceLines, labelled,
}
use ecc_cpu.Assembler.Parser.Source.Parsed.{after_lines, parse-source}
use ecc_cpu.Assembler.Parser.Accounted.{Labels, Adds, Reports, parse_code_line-accounted}
use ecc_cpu.Assembler.Parser.InBounds.{IsInBoundsProgram, IsInBoundsResult, parse-InBounds}
use ecc_cpu.Assembler.ObjectWriter.{data_file}
use ecc_cpu.Assembler.Main.{initial_program, assemble}
use ecc_cpu.Simulator.{read_code_memory_dump, read_data_memory_dump}
use ecc_cpu.Simulator.Toolchain.{loaded_source}
use ecc_cpu.Simulator.ParsedData.{parsed_data}

-- start:# a loop
--   add %r1, %r2, -5 // step
-- jmp start
abbrev loop_source : List SourceLine
loop_source =
    (record { indent = []; content = label_line (codes "start"); comment = codes "# a loop" })
    ∷ (record {
      indent = codes "  ";
      content =
          insn_line
            ((codes "add", codes " ")
              ∷ (codes "%r1", codes ", ")
              ∷ (codes "%r2", codes ", ")
              ∷ (decimal (negsuc 4), codes " ")
              ∷ [])
            (add_reg_reg_const 1 2 (negsuc 4));
      comment = codes "// step";
    })
    ∷ (record {
      indent = [];
      content =
          insn_line ((codes "jmp", codes "\t") ∷ (codes "start", []) ∷ [])
            (jump (codes "start") (pos 0) Mnemonic.jmp);
      comment = [];
    })
    ∷ []

loop_source-text :
    source loop_source ≡ codes "start:# a loop\n  add %r1, %r2, -5 // step\njmp\tstart\n"
unfolding digits_before
loop_source-text = refl

loop_source-lines : AllSourceLines initial_regnames loop_source
unfolding digits_before is_split_char find same_text ends_with starts_with
loop_source-lines = (
  record {
    indented = tt;
    starts = refl;
    code = ground arith;
    no_data = refl;
    no_code = refl;
    commented = ground arith;
    content_fits = tt;
  },
  (
    record {
      indented = ground arith;
      starts = refl;
      code = ground arith;
      no_data = refl;
      no_code = refl;
      commented = ground arith;
      content_fits = (ground arith, spells_add_const _ _ 1 2 (negsuc 4) refl refl refl, refl);
    },
    (
      record {
        indented = tt;
        starts = refl;
        code = ground arith;
        no_data = refl;
        no_code = refl;
        commented = tt;
        content_fits = (ground arith, spells_jump _ _ Mnemonic.jmp refl, refl);
      },
      tt,
    ),
  ),
)

parse-source_example :
    parse (some (source loop_source)) initial_program
    ≡ some (after_lines loop_source initial_program)
parse-source_example = parse-source loop_source initial_program loop_source-lines

-- `nop` has an opcode, but the parser rejects it.
nop_rejected : parse_code_line (codes "nop") 7 initial_program ≡ some (error 7 initial_program)
unfolding parse_code_line ends_with same_text tokens_from is_split_char push_token string_to_opcode
    parse_insn
nop_rejected = refl

parse_code_line-accounted_example :
    Labels (codes "nop") initial_program (error 7 initial_program)
    ⊎ Adds initial_program (error 7 initial_program)
    ⊎ Reports 7 initial_program (error 7 initial_program)
parse_code_line-accounted_example =
    parse_code_line-accounted (codes "nop") 7 initial_program (error 7 initial_program) nop_rejected

initial_program-InBounds : IsInBoundsProgram initial_program
initial_program-InBounds = ground arith

-- The register is none of the table, and the offset does not fit 16 bits.
parse-InBounds_example :
    IsInBoundsResult (parse (some (codes "load %r12, 70000(%sp)\nhalt\n")) initial_program)
parse-InBounds_example =
    parse-InBounds (some (codes "load %r12, 70000(%sp)\nhalt\n")) initial_program
      initial_program-InBounds

abbrev zeros : Storage
zeros a = 0

loaded_source_example :
    (code : List ℕ) × (after : Storage) × (assemble (some (source loop_source)) ≡ some (code, []))
    × (read_code_memory_dump zeros (codes "a.bin") (some code) zeros ≡ some after)
    × ((i : ℕ) (inst : Instruction) (w : ℕ) (insn' : Insn)
        → get_elem? (link_insns [] code_segment_start (labelled [] loop_source)) i ≡ some inst
        → get_encoded_instruction inst.insn ≡ some (w, insn')
        → insn_at (read_value after) (4 * i) ≡ u32 w)
unfolding ends_with same_text
loaded_source_example =
    loaded_source loop_source zeros (codes "a.bin") zeros loop_source-lines refl (omega arith)
      (λ a. omega arith) (λ k. omega arith)

abbrev two_fields : List DataObject
two_fields =
    (record {
      name = codes "x";
      fields =
          (record { value = pos 7; size = 8; address = 0 })
          ∷ (record { value = negsuc 0; size = 8; address = 0 })
          ∷ [];
      address = 0;
    })
    ∷ []

-- The objects are those of this text.
abbrev data_source : Text
data_source = codes ".data\nx:\n\t.long 7\n\t.long -1\n"

abbrev data_program : Program
data_program = record initial_program { objects = two_fields; last_seen_label = codes "x" }

data_source-parsed : parse (some data_source) initial_program ≡ some data_program
unfolding parse parse_lines lines_from parse_line parse_data_line append_field trim skip_spaces
    cut_comment starts_with ends_with tokens_from is_split_char push_token same_text signed_number
    magnitude digits_from parse_code_line
data_source-parsed = refl

parsed_data_example :
    (buffer : List ℕ) × (data_file (place_objs data_segment_start two_fields) ≡ some buffer)
    × ((i k : ℕ) (o : DataObject) (f : DataField)
        → get_elem? two_fields i ≡ some o
        → get_elem? o.fields k ≡ some f
        → (placed : DataObject) × (get_elem? (place_objs data_segment_start two_fields) i
            ≡ some placed)
          × (placed.name ≡ o.name)
          × (read_value
                (read_data_memory_dump (codes "a.data") (some buffer) zeros)
                (placed.address + 8 * k)
              ≡ to_u64 f.value))
unfolding ends_with same_text
parsed_data_example =
    parsed_data (some data_source) data_program (codes "a.data") zeros data_source-parsed
      (omega arith) refl (λ a. omega arith)
