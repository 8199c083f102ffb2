-- ===== src/Assembler/Parser/Tokens/Layout.antt =====
-- Lines laid out from words and gaps, and what `tokenize` of Assembler/parser.cpp makes of them.
use mathlib.Core.List.{append-nil, append_assoc}
use ecc_cpu.Base.{true, false, ◌==◌, ◌≡◌, ◌∙◌, ap, refl, List, [], ◌∷◌, ◌++◌, arith}
use ecc_cpu.Assembler.Text.{Text, is_empty}
use ecc_cpu.Assembler.Parser.Tokens.{is_split_char, push_token, tokens_from, tokenize}

abbrev pub layout : List (Text × Text) → Text
layout [] = []
layout ((word, gap) ∷ more) = word ++ (gap ++ layout more)

abbrev pub words : List (Text × Text) → List Text
words [] = []
words ((word, gap) ∷ more) = word ∷ words more

module _ (split_chars : Text) where
  -- A text with no split character and no NUL.
  abbrev pub IsWord : Text → Type 0
  IsWord [] = Unit
  IsWord (c ∷ word) = (is_split_char c split_chars ≡ false) × ((c == 0) ≡ false) × IsWord word

  -- A text of split characters.
  abbrev pub IsGap : Text → Type 0
  IsGap [] = Unit
  IsGap (c ∷ gap) = (is_split_char c split_chars ≡ true) × ((c == 0) ≡ false) × IsGap gap

  -- Words that are not empty, each with the gap behind it, which only the last may lack.
  abbrev pub IsLayout : List (Text × Text) → Type 0
  IsLayout [] = Unit
  IsLayout ((word, gap) ∷ []) = (is_empty word ≡ false) × IsWord word × IsGap gap
  IsLayout ((word, gap) ∷ next ∷ more) =
      (is_empty word ≡ false)
      × IsWord word
      × (is_empty gap ≡ false)
      × IsGap gap
      × IsLayout (next ∷ more)

  tokens_from-word :
      (word tok rest : Text)
      → IsWord word
      → tokens_from split_chars tok (word ++ rest) ≡ tokens_from split_chars (tok ++ word) rest
  unfolding tokens_from
  tokens_from-word [] tok rest h = rw (append-nil tok)
  tokens_from-word (c ∷ word) tok rest h =
      rw (tokens_from, h.0, h.1)
        (tokens_from-word word (tok ++ c ∷ []) rest h.2
          ∙ ap (λ (t : Text). tokens_from split_chars t rest) (append_assoc tok (c ∷ []) word))

  tokens_from-gap :
      (gap rest : Text)
      → IsGap gap
      → tokens_from split_chars [] (gap ++ rest) ≡ tokens_from split_chars [] rest
  unfolding tokens_from push_token
  tokens_from-gap [] rest h = refl
  tokens_from-gap (c ∷ gap) rest h = ground (arith, tokens_from-gap gap rest h.2)

  tokens_from-end :
      (gap tok rest : Text)
      → is_empty gap ≡ false
      → IsGap gap
      → tokens_from split_chars tok (gap ++ rest) ≡ push_token tok (tokens_from split_chars [] rest)
  unfolding tokens_from
  tokens_from-end [] tok rest full h = cc
  tokens_from-end (c ∷ gap) tok rest full h =
      rw (tokens_from, h.0, h.1) (ap (push_token tok) (tokens_from-gap gap rest h.2))

  tokens_from-last :
      (gap tok : Text) → IsGap gap → tokens_from split_chars tok gap ≡ push_token tok []
  unfolding tokens_from push_token
  tokens_from-last [] tok h = refl
  tokens_from-last (c ∷ gap) tok h =
      rw (tokens_from, h.0, h.1) (ap (push_token tok) (tokens_from-last gap [] h.2))

  push_token-full :
      (word : Text) (toks : List Text) → is_empty word ≡ false → push_token word toks ≡ word ∷ toks
  unfolding push_token
  push_token-full [] toks h = cc
  push_token-full (c ∷ word) toks h = refl

  tokens_from-layout :
      (ts : List (Text × Text)) → IsLayout ts → tokens_from split_chars [] (layout ts) ≡ words ts
  unfolding tokens_from push_token
  tokens_from-layout [] h = refl
  tokens_from-layout ((word, gap) ∷ []) h = rw (append-nil gap) (
      tokens_from-word word [] gap h.1
      ∙ tokens_from-last gap word h.2
      ∙ push_token-full word [] h.0)
  tokens_from-layout ((word, gap) ∷ next ∷ more) h =
      tokens_from-word word [] (gap ++ layout (next ∷ more)) h.1
      ∙ tokens_from-end gap word (layout (next ∷ more)) h.2 h.3
      ∙ push_token-full word (tokens_from split_chars [] (layout (next ∷ more))) h.0
      ∙ ap (◌∷◌ word) (tokens_from-layout (next ∷ more) h.4)

-- If the gaps have split characters only, and none of them is empty but those before the first word
-- and behind the last, and if the words are not empty and have neither a split character nor a NUL,
-- a line of these gaps and words is cut into the words.
pub tokenize-layout :
    (split_chars lead : Text) (ts : List (Text × Text))
    → IsGap split_chars lead
    → IsLayout split_chars ts
    → tokenize (lead ++ layout ts) split_chars ≡ words ts
tokenize-layout split_chars lead ts gap laid =
    tokens_from-gap split_chars lead (layout ts) gap ∙ tokens_from-layout split_chars ts laid
