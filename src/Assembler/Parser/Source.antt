-- ===== src/Assembler/Parser/Source.antt =====
-- Source texts of the assembler, line by line, and what `Program::parse` of Assembler/parser.cpp
-- makes of them.
pub mod Parsed
use mathlib.Core.List.{append-nil, append_assoc}
use ecc_cpu.Base.{
  ℕ, suc, ◌==◌, ◌≡◌, ◌∙◌, ap, refl, Bool, true, false, ◌||◌, Option, none, some, List, [], ◌∷◌,
  ◌++◌, length, arith,
}
use ecc_cpu.Assembler.Insns.{Insn}
use ecc_cpu.Assembler.Linker.{Dict, Instruction}
use ecc_cpu.Assembler.Text.{
  Text, codes, is_empty, is_space, skip_spaces, cut_comment, trim, starts_with, ends_with,
}
use ecc_cpu.Assembler.Parser.CodeLine.{Program, add_insn, label_of, parse_code_line}
use ecc_cpu.Assembler.Parser.{lines_from, parse_line, parse_lines, parse}
use ecc_cpu.Assembler.Parser.Tokens.{code_line_split_chars}
use ecc_cpu.Assembler.Parser.Tokens.Layout.{IsLayout, layout, words}
use ecc_cpu.Assembler.Parser.Spells.{Spells}
use ecc_cpu.Assembler.Parser.Spells.Reads.{parse_code_line-Spells}

-- A line holds a label, or the words of an instruction with their gaps.
pub data Content : Type 0 where
  label_line : (name : Text) → Content
  insn_line : (ts : List (Text × Text)) (insn : Insn) → Content

pub record SourceLine : Type 0 where
  pub indent : Text
  pub content : Content
  pub comment : Text

abbrev pub body : Content → Text
body (label_line name) = name ++ codes ":"
body (insn_line ts insn) = layout ts

abbrev pub line_text : SourceLine → Text
line_text l = l.indent ++ (body l.content ++ l.comment)

abbrev pub source : List SourceLine → Text
source [] = []
source (l ∷ ls) = line_text l ++ (b'\n' ∷ source ls)

-- White space within a line.
abbrev pub IsIndent : Text → Type 0
IsIndent [] = Unit
IsIndent (c ∷ cs) = (is_space c ≡ true) × ((c == b'\n') ≡ false) × IsIndent cs

abbrev pub IsInLine : Text → Type 0
IsInLine [] = Unit
IsInLine (c ∷ cs) = ((c == b'\n') ≡ false) × IsInLine cs

-- Nothing, or a text from a comment sign on.
abbrev pub IsComment : Text → Type 0
IsComment [] = Unit
IsComment (c ∷ cs) = ((c == b'/' || c == b'#') ≡ true) × IsInLine (c ∷ cs)

-- A text within a line with no comment sign.
abbrev pub IsCode : Text → Type 0
IsCode [] = Unit
IsCode (c ∷ cs) = ((c == b'/' || c == b'#') ≡ false) × ((c == b'\n') ≡ false) × IsCode cs

abbrev pub StartsCode : Text → Type 0
StartsCode [] = ⊥
StartsCode (c ∷ cs) = is_space c ≡ false

abbrev pub IsContent : Dict → Content → Type 0
IsContent names (label_line name) = Unit
IsContent names (insn_line ts insn) =
    IsLayout code_line_split_chars ts
    × Spells names (words ts) insn
    × (ends_with (layout ts) (codes ":") ≡ false)

pub record IsSourceLine (names : Dict) (l : SourceLine) : Type 0 where
  pub indented : IsIndent l.indent
  pub starts : StartsCode (body l.content)
  pub code : IsCode (body l.content)
  pub no_data : starts_with (body l.content) (codes ".data") ≡ false
  pub no_code : starts_with (body l.content) (codes ".code") ≡ false
  pub commented : IsComment l.comment
  pub content_fits : IsContent names l.content

abbrev pub AllSourceLines : Dict → List SourceLine → Type 0
AllSourceLines names [] = Unit
AllSourceLines names (l ∷ ls) = IsSourceLine names l × AllSourceLines names ls

-- The instructions of the lines, each with the label of the line before it, the first with `label`;
-- and the label that is left over.
abbrev pub labelled : Text → List SourceLine → List Instruction
labelled label [] = []
labelled label (l ∷ ls) = elim l.content [
  | label_line name ↦ labelled name ls
  | insn_line ts insn ↦ record { label = label; address = 0; insn = insn } ∷ labelled [] ls
]

abbrev pub label_left : Text → List SourceLine → Text
label_left label [] = label
label_left label (l ∷ ls) = elim l.content [
  | label_line name ↦ label_left name ls
  | insn_line ts insn ↦ label_left [] ls
]
