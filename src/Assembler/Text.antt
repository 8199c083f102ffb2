-- ===== src/Assembler/Text.antt =====
-- The texts of Assembler/parser.cpp as lists of bytes: the classes of characters of <cctype> in
-- the C locale, and the methods of `Line`.
use Prim.Native.Char.{code}
use Prim.Native.String.{String}
use ecc_cpu.Base.{
  ℕ, ◌-◌, Bool, true, false, ◌&&◌, ◌||◌, ◌==◌, ltb, leb, if◌then◌else◌, List, [], ◌∷◌, length, take,
  drop,
}
use ecc_cpu.Assembler.Linker.{same_text}

abbrev pub Text : Type 0
Text = List ℕ

-- The bytes of an ASCII literal.
abbrev pub codes : String → Text
codes String.[] = []
codes (String.◌∷◌ c s) = code c ∷ codes s

abbrev pub is_empty : Text → Bool
is_empty [] = true
is_empty (c ∷ cs) = false

abbrev pub is_space : ℕ → Bool
is_space c = (leb 9 c && leb c 13) || c == b' '

abbrev pub is_digit : ℕ → Bool
is_digit c = leb b'0' c && leb c b'9'

abbrev pub is_alpha : ℕ → Bool
is_alpha c = (leb b'A' c && leb c b'Z') || (leb b'a' c && leb c b'z')

-- The first loop of `Line::trim`, which `std::stoi` also does.
unfoldable pub skip_spaces : Text → Text
skip_spaces [] = []
skip_spaces (c ∷ cs) = elim (is_space c) [ true ↦ skip_spaces cs | false ↦ c ∷ cs ]

-- The second loop of `Line::trim`: the text before the first comment sign.
unfoldable pub cut_comment : Text → Text
cut_comment [] = []
cut_comment (c ∷ cs) = elim (c == b'/' || c == b'#') [ true ↦ [] | false ↦ c ∷ cut_comment cs ]

unfoldable pub trim : Text → Text
trim data' = cut_comment (skip_spaces data')

unfoldable pub starts_with : Text → Text → Bool
starts_with data' prefix =
    if ltb (length data') (length prefix)
    then false
    else same_text (take (length prefix) data') prefix

unfoldable pub ends_with : Text → Text → Bool
ends_with data' postfix =
    if ltb (length data') (length postfix)
    then false
    else same_text (take (length postfix) (drop (length data' - length postfix) data')) postfix
