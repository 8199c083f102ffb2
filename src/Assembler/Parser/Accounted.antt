-- ===== src/Assembler/Parser/Accounted.antt =====
-- What `parseCodeLine` of Assembler/parser.cpp does with any line.
use mathlib.Core.Option.{some-injective}
use ecc_cpu.Base.{
  sym, ap, subst, Bool-cases, ℕ, ◌≡◌, true, ◌⊎◌, inl, inr, Option, none, some, List, [], ◌∷◌, ◌++◌,
  ◌>>=◌,
}
use ecc_cpu.Assembler.Insns.{Mnemonic, Insn}
use ecc_cpu.Assembler.Text.{Text, codes, ends_with}
use ecc_cpu.Assembler.Parser.CodeLine.{
  Program, add_insn, error, token, parse_insn, parse_opcode, parse_code_line, label_of,
}
use ecc_cpu.Assembler.Parser.Tokens.{tokenize, code_line_split_chars}
use ecc_cpu.Assembler.Parser.Opcodes.{string_to_opcode}
use ecc_cpu.Assembler.Parser.Outcome.{IsOutcome, fails, reports, adds}
use ecc_cpu.Assembler.Parser.Switch.{parse_insn-IsOutcome}

-- The line is a label line: the label is remembered.
abbrev pub Labels : Text → Program → Program → Type 0
Labels data' p q =
    (ends_with data' (codes ":") ≡ true) × (q ≡ record p { last_seen_label = label_of data' })

-- The line adds one instruction, which uses up the label.
abbrev pub Adds : Program → Program → Type 0
Adds p q =
    (insn : Insn) × (q.insns
      ≡ p.insns ++ (record { label = p.last_seen_label; address = 0; insn = insn }) ∷ [])
    × (q.last_seen_label ≡ [])
    × (q.errors ≡ p.errors)
    × (q.objects ≡ p.objects)

-- The line has one message, or two if the mnemonic is unknown, and no other effect.
abbrev pub Reports : ℕ → Program → Program → Type 0
Reports line p q = (q ≡ error line p) ⊎ (q ≡ error line (error line p))

module _ (data' : Text) (line : ℕ) (p q : Program) where
  Adds-outcome : IsOutcome line p (some q) → Adds p q ⊎ Reports line p q
  Adds-outcome (fails e) = cc
  Adds-outcome (reports e) = inr (inl (some-injective _ _ e))
  Adds-outcome (adds insn names e bounds) =
      let e' : q ≡ add_insn insn (record p { regnames = names }) = some-injective _ _ e in
      inl (
        insn,
        ap (λ (r : Program). r.insns) e',
        ap (λ (r : Program). r.last_seen_label) e',
        ap (λ (r : Program). r.errors) e',
        ap (λ (r : Program). r.objects) e',
      )

  parse_opcode-accounted :
      (op : Option Mnemonic) (toks : List Text)
      → parse_opcode op toks line p ≡ some q
      → Adds p q ⊎ Reports line p q
  unfolding parse_insn
  parse_opcode-accounted none toks e = inr (inr (sym (some-injective _ _ e)))
  parse_opcode-accounted (some op) toks e =
      Adds-outcome (subst (IsOutcome line p) e (parse_insn-IsOutcome line p toks op))

  parse_toks-accounted :
      (toks : List Text)
      → (token toks 0 >>= λ t0. parse_opcode (string_to_opcode t0) toks line p) ≡ some q
      → Adds p q ⊎ Reports line p q
  parse_toks-accounted [] e = cc
  parse_toks-accounted (t0 ∷ toks) e = parse_opcode-accounted (string_to_opcode t0) (t0 ∷ toks) e

  -- Whatever the line, if `parseCodeLine` returns at all, the line is a label line whose label is
  -- remembered, or it adds exactly one instruction with the label seen last, clears the label and
  -- reports nothing, or it has one or two messages and no other effect: no line is dropped in silence.
  pub parse_code_line-accounted :
      parse_code_line data' line p ≡ some q → Labels data' p q ⊎ Adds p q ⊎ Reports line p q
  unfolding parse_code_line
  parse_code_line-accounted e = elim (Bool-cases (ends_with data' (codes ":"))) [
    | inl colon ↦ inl (colon, sym (some-injective _ _ (rw colon at e)))
    | inr other ↦ inr (parse_toks-accounted (tokenize data' code_line_split_chars) (rw other at e))
  ]
