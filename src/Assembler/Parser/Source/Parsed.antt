-- ===== src/Assembler/Parser/Source/Parsed.antt =====
-- `Program::parse` of Assembler/parser.cpp on source texts.
use mathlib.Core.List.{append-nil, append_assoc}
use ecc_cpu.Base.{
  ℕ, suc, ◌-◌, ◌≡◌, ◌∙◌, sym, subst, ap, refl, true, false, some, List, [], ◌∷◌, ◌++◌, length,
  arith, take-append, drop-append, length-append, map, le→ltb,
}
use ecc_cpu.Assembler.Linker.{Dict, Instruction, same_text}
use ecc_cpu.Assembler.Text.{Text, codes, is_empty, skip_spaces, cut_comment, trim, ends_with}
use ecc_cpu.Assembler.Parser.CodeLine.{Program, add_insn, label_of, parse_code_line}
use ecc_cpu.Assembler.Parser.{lines_from, parse_line, parse_lines, parse}
use ecc_cpu.Assembler.Parser.Spells.Reads.{parse_code_line-Spells}
use ecc_cpu.Assembler.Parser.Source.{
  Content, label_line, insn_line, SourceLine, body, line_text, source, IsIndent, IsInLine,
  IsComment, IsCode, StartsCode, IsContent, IsSourceLine, AllSourceLines, labelled, label_left,
}

skip_spaces-indent :
    (indent rest : Text) → IsIndent indent → skip_spaces (indent ++ rest) ≡ skip_spaces rest
unfolding skip_spaces
skip_spaces-indent [] rest h = refl
skip_spaces-indent (c ∷ cs) rest h = rw (skip_spaces, h.0) (skip_spaces-indent cs rest h.2)

cut_comment-code :
    (code comment : Text) → IsCode code → IsComment comment → cut_comment (code ++ comment) ≡ code
unfolding cut_comment
cut_comment-code [] [] h k = refl
cut_comment-code [] (c ∷ cs) h k = rw (cut_comment, k.0)
cut_comment-code (c ∷ cs) comment h k =
    rw (cut_comment, h.0) (ap (◌∷◌ c) (cut_comment-code cs comment h.2 k))

skip_spaces-code : (code rest : Text) → StartsCode code → skip_spaces (code ++ rest) ≡ code ++ rest
unfolding skip_spaces
skip_spaces-code [] rest h = absurd h
skip_spaces-code (c ∷ cs) rest h = rw (skip_spaces, h)

trim-line :
    (names : Dict) (l : SourceLine) → IsSourceLine names l → trim (line_text l) ≡ body l.content
unfolding trim
trim-line names l h =
    ap cut_comment (
      skip_spaces-indent l.indent (body l.content ++ l.comment) h.indented
      ∙ skip_spaces-code (body l.content) l.comment h.starts)
    ∙ cut_comment-code (body l.content) l.comment h.code h.commented

-- A text with no newline, and the line that it ends.
lines_from-InLine :
    (text line rest : Text)
    → IsInLine text
    → lines_from line (text ++ rest) ≡ lines_from (line ++ text) rest
unfolding lines_from
lines_from-InLine [] line rest h = rw (append-nil line)
lines_from-InLine (c ∷ cs) line rest h =
    rw (lines_from, h.0)
      (lines_from-InLine cs (line ++ c ∷ []) rest h.1
        ∙ ap (λ (t : Text). lines_from t rest) (append_assoc line (c ∷ []) cs))

IsInLine-append : (xs ys : Text) → IsInLine xs → IsInLine ys → IsInLine (xs ++ ys)
IsInLine-append [] ys h k = k
IsInLine-append (x ∷ xs) ys h k = (h.0, IsInLine-append xs ys h.1 k)

IsIndent-InLine : (xs : Text) → IsIndent xs → IsInLine xs
IsIndent-InLine [] h = tt
IsIndent-InLine (x ∷ xs) h = (h.1, IsIndent-InLine xs h.2)

IsCode-InLine : (xs : Text) → IsCode xs → IsInLine xs
IsCode-InLine [] h = tt
IsCode-InLine (x ∷ xs) h = (h.1, IsCode-InLine xs h.2)

IsComment-InLine : (xs : Text) → IsComment xs → IsInLine xs
IsComment-InLine [] h = tt
IsComment-InLine (x ∷ xs) h = h.1

lines_from-source :
    (names : Dict) (ls : List SourceLine)
    → AllSourceLines names ls
    → lines_from [] (source ls) ≡ map {A = SourceLine} line_text ls
unfolding lines_from
lines_from-source names [] h = refl
lines_from-source names (l ∷ ls) h =
    lines_from-InLine (line_text l) [] (b'\n' ∷ source ls) (
      IsInLine-append l.indent (body l.content ++ l.comment)
        (IsIndent-InLine l.indent (h.0).indented)
        (IsInLine-append (body l.content) l.comment (IsCode-InLine (body l.content) (h.0).code)
          (IsComment-InLine l.comment (h.0).commented)))
    ∙ ap (◌∷◌ (line_text l)) (lines_from-source names ls h.1)

length-colon : (name : Text) → length (name ++ codes ":") - 1 ≡ length name
length-colon name = omega (arith, length-append {0} name (codes ":"))

ends_with-colon : (name : Text) → ends_with (name ++ codes ":") (codes ":") ≡ true
unfolding ends_with same_text
ends_with-colon name =
    simp
      (
        length-colon name,
        drop-append name (codes ":"),
        le→ltb (length (name ++ codes ":")) 1 (omega (arith, length-append {0} name (codes ":"))),
      )
      refl

label_of-colon : (name : Text) → label_of (name ++ codes ":") ≡ name
label_of-colon name = rw (length-colon name) (take-append name (codes ":"))

full : (text : Text) → StartsCode text → is_empty text ≡ false
full [] h = absurd h
full (c ∷ cs) h = refl

-- The program after a line.
abbrev pub after : Content → Program → Program
after (label_line name) p = record p { last_seen_label = name }
after (insn_line ts insn) p = add_insn insn p

parse_code_line-content :
    (c : Content) (line : ℕ) (p : Program)
    → IsContent p.regnames c
    → parse_code_line (body c) line p ≡ some (after c p)
unfolding parse_code_line
parse_code_line-content (label_line name) line p h =
    simp (ends_with-colon name, label_of-colon name) refl
parse_code_line-content (insn_line ts insn) line p h =
    parse_code_line-Spells p line [] ts insn tt h.0 h.2 h.1

parse_line-source :
    (l : SourceLine) (line : ℕ) (p : Program)
    → IsSourceLine p.regnames l
    → parse_line false (trim (line_text l)) line p ≡ some (false, after l.content p)
unfolding parse_line
parse_line-source l line p h =
    simp
      (
        trim-line p.regnames l h,
        full (body l.content) h.starts,
        h.no_data,
        h.no_code,
        parse_code_line-content l.content line p h.content_fits,
      )
      refl

after-regnames : (c : Content) (p : Program) → p.regnames ≡ (after c p).regnames
after-regnames (label_line name) p = refl
after-regnames (insn_line ts insn) p = refl

-- The program after lines that `parse` accepts.
abbrev pub after_lines : List SourceLine → Program → Program
after_lines ls p = record p {
  insns = p.insns ++ labelled p.last_seen_label ls;
  last_seen_label = label_left p.last_seen_label ls;
}

after_lines-after :
    (c : Content) (indent comment : Text) (ls : List SourceLine) (p : Program)
    → after_lines ls (after c p)
      ≡ after_lines ((record { indent = indent; content = c; comment = comment }) ∷ ls) p
after_lines-after (label_line name) indent comment ls p = refl
after_lines-after (insn_line ts insn) indent comment ls p =
    let new : Instruction = record { label = p.last_seen_label; address = 0; insn = insn } in
    ap (λ (is : List Instruction). record p { insns = is; last_seen_label = label_left [] ls })
      (append_assoc p.insns (new ∷ []) (labelled [] ls))

parse_lines-source :
    (ls : List SourceLine) (line : ℕ) (p : Program)
    → AllSourceLines p.regnames ls
    → parse_lines false line (map {A = SourceLine} line_text ls) p ≡ some (after_lines ls p)
unfolding parse_lines
parse_lines-source [] line p h =
    ap (λ (is : List Instruction). some (record p { insns = is })) (sym (append-nil p.insns))
parse_lines-source (l ∷ ls) line p h = simp (parse_line-source l (suc line) p h.0) (
    parse_lines-source ls (suc line) (after l.content p)
      (subst (λ (names : Dict). AllSourceLines names ls) (after-regnames l.content p) h.1)
    ∙ ap some (after_lines-after l.content l.indent l.comment ls p))

-- A source text that starts in code mode and has on each line, between an indent and an optional
-- comment, a label with its colon or the laid out words of an instruction: `Program::parse` appends
-- exactly these instructions in order, each with the label of the line before it if that is a label
-- line, and reports no error. The first instruction has the label that was seen last before; no line
-- starts with `.data` or `.code`, and only label lines end with a colon.
pub parse-source :
    (ls : List SourceLine) (p : Program)
    → AllSourceLines p.regnames ls
    → parse (some (source ls)) p ≡ some (after_lines ls p)
unfolding parse
parse-source ls p h =
    ap (λ (rawlines : List Text). parse_lines false 0 rawlines p)
      (lines_from-source p.regnames ls h)
    ∙ parse_lines-source ls 0 p h
