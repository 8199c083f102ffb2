-- ===== src/Assembler/Parser/Spells/Reads.antt =====
-- `parseCodeLine` of Assembler/parser.cpp on the words of an instruction.
use mathlib.Core.Option.{some-injective}
use ecc_cpu.Base.{ℕ, ◌≡◌, refl, true, false, Option, some, List, [], ◌∷◌, ◌++◌, ◌>>=◌}
use ecc_cpu.Base.Int.{ℤ, pos}
use ecc_cpu.Assembler.Insns.{Mnemonic, lo, mid, hi, Insn}
use ecc_cpu.Assembler.Linker.{find, same_text}
use ecc_cpu.Assembler.Text.{Text, codes, ends_with}
use ecc_cpu.Assembler.Parser.CodeLine.{
  Program, add_insn, token, parse_insn, parse_opcode, parse_code_line, parse_cmp, parse_shl,
  parse_mov, parse_add, parse_store, parse_load, parse_restore_pc, parse_memory_access,
}
use ecc_cpu.Assembler.Parser.Tokens.{is_split_char, code_line_split_chars}
use ecc_cpu.Assembler.Parser.Tokens.Layout.{IsWord, IsGap, IsLayout, layout, words, tokenize-layout}
use ecc_cpu.Assembler.Parser.Constants.{fits_signed}
use ecc_cpu.Assembler.Parser.Constants.Operands.{
  is_int8_constant-decimal, get_int8_constant-decimal, is_int16_constant-decimal,
  get_int16_constant-decimal, is_int_constant-percent, is_int_constant-symbol, decimal-IsWord,
  decimal-full,
}
use ecc_cpu.Assembler.Parser.Constants.Decimal.{decimal}
use ecc_cpu.Assembler.Parser.Opcodes.{string_to_opcode}
use ecc_cpu.Assembler.Parser.Registers.{get_register_id}
use ecc_cpu.Assembler.Parser.Spells.{
  Spells, spells_halt, spells_jump, spells_load_addr, spells_cmp, spells_shl, spells_mov_const,
  spells_mov_reg, spells_mov_block_index, spells_mov_symbol, spells_store, spells_load,
  spells_restore_pc, spells_add_const, spells_add_reg, parens, register, memory, jump_name,
}

-- The switch on the words of a line.
abbrev parse_words : List Text → ℕ → Program → Option Program
parse_words toks line p = token toks 0 >>= λ t0. parse_opcode (string_to_opcode t0) toks line p

module _ (line : ℕ) (p : Program) where
  get_register_id-found :
      (name : Text) {id : ℕ}
      → find p.regnames name ≡ some id
      → get_register_id p.regnames name ≡ (p.regnames, id)
  unfolding get_register_id
  get_register_id-found name h = rw h

  parse_memory_access-memory :
      (offset : ℤ) (name : Text) {id : ℕ}
      → fits_signed 16 offset ≡ true
      → find p.regnames (register name) ≡ some id
      → IsWord parens name
      → parse_memory_access (memory offset name) p ≡ some (p, id, offset)
  unfolding is_split_char
  parse_memory_access-memory offset name fits found word =
      simp
        (
          tokenize-layout parens [] ((decimal offset, b'(' ∷ []) ∷ (register name, b')' ∷ []) ∷ [])
              tt
              (
                decimal-full offset,
                decimal-IsWord offset,
                refl,
                (refl, refl, tt),
                (refl, (refl, refl, word), (refl, refl, tt)),
              ),
          get_int16_constant-decimal offset fits,
          get_register_id-found _ found,
        )
        refl

  parse_words-jump :
      (m : Mnemonic) (op label : Text)
      → jump_name m ≡ some op
      → parse_words (op ∷ label ∷ []) line p ≡ some (add_insn (Insn.jump label (pos 0) m) p)
  unfolding string_to_opcode same_text parse_insn
  parse_words-jump Mnemonic.jmp op label h = rw (← some-injective _ _ h)
  parse_words-jump Mnemonic.je op label h = rw (← some-injective _ _ h)
  parse_words-jump Mnemonic.jne op label h = rw (← some-injective _ _ h)
  parse_words-jump Mnemonic.jg op label h = rw (← some-injective _ _ h)
  parse_words-jump Mnemonic.jge op label h = rw (← some-injective _ _ h)
  parse_words-jump Mnemonic.jl op label h = rw (← some-injective _ _ h)
  parse_words-jump Mnemonic.jle op label h = rw (← some-injective _ _ h)
  parse_words-jump _ op label h = cc

  -- The words are read as the instruction that they spell.
  parse_words-Spells :
      {toks : List Text} {insn : Insn}
      → Spells p.regnames toks insn
      → parse_words toks line p ≡ some (add_insn insn p)
  unfolding string_to_opcode same_text parse_insn parse_cmp parse_shl parse_mov parse_add
      parse_store parse_load parse_restore_pc
  parse_words-Spells spells_halt = refl
  parse_words-Spells (spells_jump op label m h) = parse_words-jump m op label h
  parse_words-Spells (spells_load_addr dest symbol lo) = refl
  parse_words-Spells (spells_load_addr dest symbol mid) = refl
  parse_words-Spells (spells_load_addr dest symbol hi) = refl
  parse_words-Spells (spells_cmp a b d s ha hb) =
      simp (ha, hb, get_register_id-found _ ha, get_register_id-found _ hb) refl
  parse_words-Spells (spells_shl a b d s c ha hb hc) =
      simp
        (
          ha,
          hb,
          is_int8_constant-decimal c hc,
          get_int8_constant-decimal c hc,
          get_register_id-found _ ha,
          get_register_id-found _ hb,
        )
        refl
  parse_words-Spells (spells_mov_const a d c ha hc) =
      simp
        (
          ha,
          is_int16_constant-decimal c hc,
          get_int16_constant-decimal c hc,
          get_register_id-found _ ha,
        )
        refl
  parse_words-Spells (spells_mov_reg a b d s ha hb other) =
      simp
        (
          ha,
          hb,
          is_int_constant-percent,
          get_register_id-found _ ha,
          get_register_id-found _ hb,
          other,
        )
        refl
  parse_words-Spells (spells_mov_block_index a b d s ha hb same) =
      simp
        (
          ha,
          hb,
          is_int_constant-percent,
          get_register_id-found _ ha,
          get_register_id-found _ hb,
          same,
        )
        refl
  parse_words-Spells (spells_mov_symbol a symbol d ha hs hn) =
      simp (ha, hn, is_int_constant-symbol 16 symbol hs, hs, get_register_id-found _ ha) refl
  parse_words-Spells (spells_store a b base s offset fits ha word hb) =
      simp (parse_memory_access-memory offset a fits ha word, get_register_id-found _ hb) refl
  parse_words-Spells (spells_load a b base d offset fits ha word hb) =
      simp (get_register_id-found _ hb, parse_memory_access-memory offset a fits ha word) refl
  parse_words-Spells (spells_restore_pc a base offset fits ha word) =
      simp (parse_memory_access-memory offset a fits ha word) refl
  parse_words-Spells (spells_add_const a b d s c ha hb hc) =
      simp
        (
          ha,
          hb,
          is_int8_constant-decimal c hc,
          get_int8_constant-decimal c hc,
          get_register_id-found _ ha,
          get_register_id-found _ hb,
        )
        refl
  parse_words-Spells (spells_add_reg a b e d s t ha hb he) =
      simp
        (
          ha,
          hb,
          he,
          is_int_constant-percent,
          get_register_id-found _ ha,
          get_register_id-found _ hb,
          get_register_id-found _ he,
        )
        refl

-- If the words of a line, laid out with gaps of split characters, spell an instruction in the names
-- of the registers, and the line does not end with a colon, `parseCodeLine` adds the instruction
-- with the label seen last, clears the label, and reports no error.
pub parse_code_line-Spells :
    (p : Program) (line : ℕ) (lead : Text) (ts : List (Text × Text)) (insn : Insn)
    → IsGap code_line_split_chars lead
    → IsLayout code_line_split_chars ts
    → ends_with (lead ++ layout ts) (codes ":") ≡ false
    → Spells p.regnames (words ts) insn
    → parse_code_line (lead ++ layout ts) line p ≡ some (add_insn insn p)
unfolding parse_code_line
parse_code_line-Spells p line lead ts insn gap laid no_label spelled =
    simp (no_label, tokenize-layout code_line_split_chars lead ts gap laid)
      (parse_words-Spells line p spelled)
