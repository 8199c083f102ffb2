-- ===== src/Assembler/Parser/Tokens.antt =====
-- Assembler/parser.cpp: `isSplitChar` and `tokenize`.
pub mod Layout
use ecc_cpu.Base.{ℕ, Bool, true, false, ◌||◌, ◌==◌, List, [], ◌∷◌, ◌++◌}
use ecc_cpu.Assembler.Text.{Text}

unfoldable pub is_split_char : ℕ → Text → Bool
is_split_char c [] = false
is_split_char c (d ∷ split_chars) = c == d || is_split_char c split_chars

abbrev pub code_line_split_chars : Text
code_line_split_chars = b',' ∷ b'.' ∷ b'\t' ∷ b' ' ∷ []

abbrev pub data_line_split_chars : Text
data_line_split_chars = b',' ∷ b'\t' ∷ b' ' ∷ []

-- The end of a token: an empty one is dropped.
unfoldable pub push_token : Text → List Text → List Text
push_token [] toks = toks
push_token (c ∷ tok) toks = (c ∷ tok) ∷ toks

-- Both loops: `tok` is the text from `tokBegin` to `s`, and the rest what `s` points to. The text
-- ends at its first NUL, or at the one behind it.
unfoldable pub tokens_from : Text → Text → Text → List Text
tokens_from split_chars tok [] = push_token tok []
tokens_from split_chars tok (c ∷ s) = elim (is_split_char c split_chars) [
  | true ↦ push_token tok (elim (c == 0) [ true ↦ [] | false ↦ tokens_from split_chars [] s ])
  | false ↦ elim (c == 0) [
    | true ↦ push_token tok []
    | false ↦ tokens_from split_chars (tok ++ c ∷ []) s
  ]
]

abbrev pub tokenize : Text → Text → List Text
tokenize data' split_chars = tokens_from split_chars [] data'
