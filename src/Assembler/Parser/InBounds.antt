-- ===== src/Assembler/Parser/InBounds.antt =====
-- The bounds of the operands that `Program::parse` of Assembler/parser.cpp takes from a text.
use ecc_cpu.Base.{
  suc, ℕ, Bool, true, false, Option, none, some, List, [], ◌∷◌, ◌++◌, ◌>>=◌, if◌then◌else◌,
}
use ecc_cpu.Assembler.Insns.{Mnemonic}
use ecc_cpu.Assembler.Linker.{Instruction, DataField, DataObject, same_text}
use ecc_cpu.Assembler.Text.{Text, codes, ends_with, is_empty, starts_with, trim}
use ecc_cpu.Assembler.Parser.CodeLine.{Program, error, token, parse_opcode, parse_code_line}
use ecc_cpu.Assembler.Parser.{
  parse_data_line, parse_line, parse_lines, parse, lines_from, parse_long, add_field,
}
use ecc_cpu.Assembler.Parser.Tokens.{tokenize, data_line_split_chars, code_line_split_chars}
use ecc_cpu.Assembler.Parser.Opcodes.{string_to_opcode}
use ecc_cpu.Assembler.Parser.Constants.{Parsed, number, invalid_argument, out_of_range, string_to}
use ecc_cpu.Assembler.Parser.Bounds.{NamesRegisters, IsInBounds}
use ecc_cpu.Assembler.Parser.Outcome.{IsOutcome, fails, reports, adds}
use ecc_cpu.Assembler.Parser.Switch.{parse_insn-IsOutcome}

abbrev pub AllInBounds : List Instruction → Type 0
AllInBounds [] = Unit
AllInBounds (i ∷ insns) = IsInBounds i.insn × AllInBounds insns

-- The instructions of a program and the names that it knows.
abbrev pub IsInBoundsProgram : Program → Type 0
IsInBoundsProgram p = NamesRegisters p.regnames × AllInBounds p.insns

abbrev pub IsInBoundsResult : Option Program → Type 0
IsInBoundsResult none = Unit
IsInBoundsResult (some q) = IsInBoundsProgram q

AllInBounds-append :
    (xs : List Instruction) (i : Instruction)
    → AllInBounds xs
    → IsInBounds i.insn
    → AllInBounds (xs ++ i ∷ [])
AllInBounds-append [] i h k = (k, tt)
AllInBounds-append (x ∷ xs) i h k = (h.0, AllInBounds-append xs i h.1 k)

IsOutcome-InBounds :
    (line : ℕ) (p : Program) (o : Option Program)
    → IsOutcome line p o
    → IsInBoundsProgram p
    → IsInBoundsResult o
IsOutcome-InBounds line p o (fails e) h = rw e tt
IsOutcome-InBounds line p o (reports e) h = rw e h
IsOutcome-InBounds line p o (adds insn names e bounds) h = rw e (
  (bounds h.0).1,
  AllInBounds-append p.insns (record { label = p.last_seen_label; address = 0; insn = insn }) h.1
      (bounds h.0).0,
)

parse_opcode-InBounds :
    (op : Option Mnemonic) (toks : List Text) (line : ℕ) (p : Program)
    → IsInBoundsProgram p
    → IsInBoundsResult (parse_opcode op toks line p)
parse_opcode-InBounds none toks line p h =
    IsOutcome-InBounds line (error line p) _
      (parse_insn-IsOutcome line (error line p) toks Mnemonic.nop) h
parse_opcode-InBounds (some op) toks line p h =
    IsOutcome-InBounds line p _ (parse_insn-IsOutcome line p toks op) h

bind_in_bounds :
    {A : Type 0} (m : Option A) (f : A → Option Program)
    → ((a : A) → IsInBoundsResult (f a))
    → IsInBoundsResult (m >>= f)
bind_in_bounds none f h = tt
bind_in_bounds (some a) f h = h a

if_in_bounds :
    {A : Type 0} (P : A → Type 0) (b : Bool) (x y : A) → P x → P y → P (if b then x else y)
if_in_bounds P true x y h k = h
if_in_bounds P false x y h k = k

parse_code_line-InBounds :
    (data' : Text) (line : ℕ) (p : Program)
    → IsInBoundsProgram p
    → IsInBoundsResult (parse_code_line data' line p)
unfolding parse_code_line
parse_code_line-InBounds data' line p h =
    if_in_bounds IsInBoundsResult (ends_with data' (codes ":")) _ _ h (
      bind_in_bounds (token (tokenize data' code_line_split_chars) 0) _
        (λ t0. parse_opcode-InBounds (string_to_opcode t0) _ line p h))

add_field-InBounds :
    (objects : List DataObject) (fld : DataField) (line : ℕ) (p : Program)
    → IsInBoundsProgram p
    → IsInBoundsProgram (add_field objects fld line p)
add_field-InBounds [] fld line p h = h
add_field-InBounds (obj ∷ objects) fld line p h = h

parse_long-InBounds :
    (r : Parsed) (line : ℕ) (p : Program)
    → IsInBoundsProgram p
    → IsInBoundsResult (parse_long r line p)
parse_long-InBounds invalid_argument line p h = tt
parse_long-InBounds out_of_range line p h = tt
parse_long-InBounds (number value rest) line p h = add_field-InBounds p.objects _ line p h

parse_data_line-InBounds :
    (data' : Text) (line : ℕ) (p : Program)
    → IsInBoundsProgram p
    → IsInBoundsResult (parse_data_line data' line p)
unfolding parse_data_line
parse_data_line-InBounds data' line p h =
    if_in_bounds IsInBoundsResult (ends_with data' (codes ":")) _ _ h (
      bind_in_bounds (token (tokenize data' data_line_split_chars) 0) _ (λ t0.
        if_in_bounds IsInBoundsResult (same_text t0 (codes ".long")) _ _
          (bind_in_bounds (token (tokenize data' data_line_split_chars) 1) _
            (λ t1. parse_long-InBounds (string_to 64 t1) line p h))
          h))

abbrev IsInBoundsRound : Option (Bool × Program) → Type 0
IsInBoundsRound none = Unit
IsInBoundsRound (some (mode, q)) = IsInBoundsProgram q

round_in_bounds :
    (mode : Bool) (m : Option Program)
    → IsInBoundsResult m
    → IsInBoundsRound (m >>= λ q. some (mode, q))
round_in_bounds mode none h = tt
round_in_bounds mode (some q) h = h

parse_line-InBounds :
    (mode : Bool) (data' : Text) (line : ℕ) (p : Program)
    → IsInBoundsProgram p
    → IsInBoundsRound (parse_line mode data' line p)
unfolding parse_line
parse_line-InBounds mode data' line p h = if_in_bounds IsInBoundsRound (is_empty data') _ _ h (
    if_in_bounds IsInBoundsRound (starts_with data' (codes ".data")) _ _ h (
      if_in_bounds IsInBoundsRound (starts_with data' (codes ".code")) _ _ h (
        if_in_bounds IsInBoundsRound mode _ _
          (round_in_bounds mode _ (parse_data_line-InBounds data' line p h))
          (round_in_bounds mode _ (parse_code_line-InBounds data' line p h)))))

then_in_bounds :
    (m : Option (Bool × Program)) (f : Bool × Program → Option Program)
    → IsInBoundsRound m
    → ((r : Bool × Program) → IsInBoundsProgram r.1 → IsInBoundsResult (f r))
    → IsInBoundsResult (m >>= f)
then_in_bounds none f h k = tt
then_in_bounds (some r) f h k = k r h

parse_lines-InBounds :
    (mode : Bool) (line : ℕ) (rawlines : List Text) (p : Program)
    → IsInBoundsProgram p
    → IsInBoundsResult (parse_lines mode line rawlines p)
unfolding parse_lines
parse_lines-InBounds mode line [] p h = h
parse_lines-InBounds mode line (rawline ∷ rawlines) p h =
    then_in_bounds (parse_line mode (trim rawline) (suc line) p) _
      (parse_line-InBounds mode (trim rawline) (suc line) p h)
      (λ r k. parse_lines-InBounds r.0 (suc line) rawlines r.1 k)

-- Whatever the text, if the names that the parser knows stand for registers of the machine and the
-- instructions that it has are in bounds, then so they are after `parse`, if it returns: every
-- register is one of the machine, every constant and offset fits the signed field of its class, and
-- the fields that the linker sets are 0.
pub parse-InBounds :
    (infile : Option Text) (p : Program) → IsInBoundsProgram p → IsInBoundsResult (parse infile p)
unfolding parse
parse-InBounds none p h = h
parse-InBounds (some infile) p h = parse_lines-InBounds false 0 (lines_from [] infile) p h
