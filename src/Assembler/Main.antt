-- ===== src/Assembler/Main.antt =====
-- Assembler/Assembler.cpp: `main`, from the text of the source file to the contents of the two files.
pub mod Total
use ecc_cpu.Base.{ℕ, Option, some, ◌>>=◌, List, []}
use ecc_cpu.Defines.{code_segment_start, data_segment_start}
use ecc_cpu.Assembler.Linker.{link}
use ecc_cpu.Assembler.Text.{Text}
use ecc_cpu.Assembler.Parser.{parse}
use ecc_cpu.Assembler.Parser.CodeLine.{Program}
use ecc_cpu.Assembler.Parser.Registers.{initial_regnames}
use ecc_cpu.Assembler.ObjectWriter.{code_file, data_file}

-- `Program program`, with the global names as they are before `main`.
abbrev pub initial_program : Program
initial_program = record {
  objects = [];
  insns = [];
  last_seen_label = [];
  regnames = initial_regnames;
  errors = [];
}

-- `none` as the source file is one that cannot be opened. Messages do not stop the assembler.
unfoldable pub assemble : Option Text → Option (List ℕ × List ℕ)
assemble infile = do
  program ← parse infile initial_program
  let (insns, objects) = link program.insns program.objects data_segment_start code_segment_start
  code ← code_file insns
  data' ← data_file objects
  some (code, data')
