-- ===== src/Assembler/Parser.antt =====
-- Assembler/parser.cpp: `Program::parseDataLine` and `Program::parse`.
pub mod Tokens
pub mod Constants
pub mod Registers
pub mod Opcodes
pub mod CodeLine
pub mod Spells
pub mod Source
pub mod Bounds
pub mod Outcome
pub mod Switch
pub mod Accounted
pub mod InBounds
use ecc_cpu.Base.{
  ℕ, zero, suc, ◌+◌, ◌-◌, Bool, true, false, ◌==◌, if◌then◌else◌, Option, none, some, ◌>>=◌, ◌>>◌,
  List, [], ◌∷◌, ◌++◌, length, take, get_elem?,
}
use ecc_cpu.Base.Int.{ℤ, pos}
use ecc_cpu.Defines.{RegisterId, reg_block_index}
use ecc_cpu.Assembler.Insns.{
  Mnemonic, AddressPart, lo, mid, hi, Insn, add_reg_reg_const, add_reg_reg_reg, cmp_reg_reg,
  halt_insn, jump, load_addr, load_register, move_reg_block_index, move_reg_const, move_reg_reg,
  move_reg_symbol, restore_pc, shl_reg_reg_const, store_register,
}
use ecc_cpu.Assembler.Linker.{Instruction, DataField, DataObject, Dict, same_text}
use ecc_cpu.Assembler.Text.{Text, codes, is_empty, trim, starts_with, ends_with}
use Tokens.{tokenize, code_line_split_chars, data_line_split_chars}
use Constants.{
  Parsed, invalid_argument, out_of_range, number, string_to, is_int16_constant, is_int8_constant,
  get_int16_constant, get_int8_constant, is_symbol,
}
use Registers.{is_register, get_register_id}
use Opcodes.{string_to_opcode}
use CodeLine.{Program, error, token, label_of, parse_code_line}

-- `objects[objects.size() - 1].fields.push_back(fld)`
unfoldable pub append_field : DataField → List DataObject → List DataObject
append_field fld [] = []
append_field fld (obj ∷ []) = (record obj { fields = obj.fields ++ fld ∷ [] }) ∷ []
append_field fld (obj ∷ next ∷ objects) = obj ∷ append_field fld (next ∷ objects)

-- A field of an object, or the error of a field without label.
abbrev pub add_field : List DataObject → DataField → ℕ → Program → Program
add_field [] fld line p = error line p
add_field (obj ∷ objects) fld line p = record p { objects = append_field fld (obj ∷ objects) }

-- `DataField{ value }`, with `std::stol`'s exceptions uncaught.
abbrev pub parse_long : Parsed → ℕ → Program → Option Program
parse_long invalid_argument line p = none
parse_long out_of_range line p = none
parse_long (number value rest) line p =
    some (add_field p.objects (record { value = value; size = 8; address = 0 }) line p)

unfoldable pub parse_data_line : Text → ℕ → Program → Option Program
parse_data_line data' line p =
    if ends_with data' (codes ":")
    then (let label = label_of data' in
        some (record p {
          last_seen_label = label;
          objects = p.objects ++ (record { name = label; fields = []; address = 0 }) ∷ [];
        }))
    else (do
      let toks = tokenize data' data_line_split_chars
      t0 ← token toks 0
      if same_text t0 (codes ".long")
          then (do t1 ← token toks 1; parse_long (string_to 64 t1) line p)
          else some (error line p))

-- `std::getline`: what follows the last newline is a line if it is not empty.
unfoldable pub lines_from : Text → Text → List Text
lines_from rawline [] = if is_empty rawline then [] else rawline ∷ []
lines_from rawline (c ∷ infile) = elim (c == b'\n') [
  | true ↦ rawline ∷ lines_from [] infile
  | false ↦ lines_from (rawline ++ c ∷ []) infile
]

-- A round of the loop: the mode for the next one, and the program.
unfoldable pub parse_line : Bool → Text → ℕ → Program → Option (Bool × Program)
parse_line data_mode data' line p =
    if is_empty data'
    then some (data_mode, p)
    else if starts_with data' (codes ".data")
    then some (true, p)
    else if starts_with data' (codes ".code")
    then some (false, p)
    else if data_mode
    then (parse_data_line data' line p >>= λ p'. some (data_mode, p'))
    else (parse_code_line data' line p >>= λ p'. some (data_mode, p'))

unfoldable pub parse_lines : Bool → ℕ → List Text → Program → Option Program
parse_lines data_mode line_number [] p = some p
parse_lines data_mode line_number (rawline ∷ rawlines) p = do
  (data_mode', p') ← parse_line data_mode (trim rawline) (suc line_number) p
  parse_lines data_mode' (suc line_number) rawlines p'

-- `Program::parse` of the file's content; a file that cannot be opened is skipped.
unfoldable pub parse : Option Text → Program → Option Program
parse none p = some p
parse (some infile) p = parse_lines false 0 (lines_from [] infile) p
