-- ===== src/Assembler/Parser/Outcome.antt =====
-- The outcomes of a code line in Assembler/parser.cpp, and the rules for each step of its switch.
use ecc_cpu.Base.{
  ℕ, ◌≡◌, refl, Bool, true, false, inl, inr, Option-cases, Option, none, some, List, [], ◌∷◌, ◌>>=◌,
  if◌then◌else◌,
}
use ecc_cpu.Base.Int.{ℤ}
use ecc_cpu.Defines.{RegisterId}
use ecc_cpu.Assembler.Insns.{Insn}
use ecc_cpu.Assembler.Linker.{Dict}
use ecc_cpu.Assembler.Text.{Text}
use ecc_cpu.Assembler.Parser.CodeLine.{
  Program, add_insn, error, token, take_register, parse_memory_access, add_reg_reg,
  add_reg_reg_int8,
}
use ecc_cpu.Assembler.Parser.Tokens.{tokenize}
use ecc_cpu.Assembler.Parser.Constants.{narrow, get_int_constant}
use ecc_cpu.Assembler.Parser.Registers.{get_register_id}
use ecc_cpu.Assembler.Parser.Bounds.{
  IsRegister, Fits, NamesRegisters, IsInBounds, get_register_id-IsRegister, narrow-fits8,
  narrow-fits16, get_int_constant-cases,
}

-- No result, a message for the line, or one more instruction.
pub data IsOutcome (line : ℕ) (p : Program) (o : Option Program) : Type 0 where
  fails : o ≡ none → IsOutcome line p o
  reports : o ≡ some (error line p) → IsOutcome line p o
  adds :
      (insn : Insn) (names : Dict)
      → o ≡ some (add_insn insn (record p { regnames = names }))
      → (NamesRegisters p.regnames → IsInBounds insn × NamesRegisters names)
      → IsOutcome line p o

-- The rules that take a computation apart at its binds and its tests.
module _ (line : ℕ) (p : Program) where
  pub bind-IsOutcome :
      {A : Type 0} (m : Option A) (f : A → Option Program)
      → ((a : A) → IsOutcome line p (f a))
      → IsOutcome line p (m >>= f)
  bind-IsOutcome none f h = fails refl
  bind-IsOutcome (some a) f h = h a

  pub if_IsOutcome :
      (b : Bool) (x y : Option Program)
      → IsOutcome line p x
      → IsOutcome line p y
      → IsOutcome line p (if b then x else y)
  if_IsOutcome true x y h k = h
  if_IsOutcome false x y h k = k

  pub constant-IsOutcome :
      (bits : ℕ) (t : Text) (f : ℤ → Option Program)
      → ((v : ℤ) → Fits bits (narrow bits v))
      → ((v : ℤ) → Fits bits v → IsOutcome line p (f v))
      → IsOutcome line p (get_int_constant bits t >>= f)
  constant-IsOutcome bits t f narrows h = elim (get_int_constant-cases bits t) [
    | inl e ↦ rw e (fails refl)
    | inr (v, e) ↦ rw e (h (narrow bits v) (narrows v))
  ]

  pub register-IsOutcome :
      (names : Dict) (toks : List Text) (i : ℕ) (f : Program × RegisterId → Option Program)
      → (NamesRegisters p.regnames → NamesRegisters names)
      → ((names' : Dict) (id : RegisterId)
          → (NamesRegisters p.regnames → NamesRegisters names' × IsRegister id)
          → IsOutcome line p (f (record p { regnames = names' }, id)))
      → IsOutcome line p (take_register toks i (record p { regnames = names }) >>= f)
  register-IsOutcome names toks i f known h = elim (Option-cases (token toks i)) [
    | inl missing ↦ rw missing (fails refl)
    | inr (t, found) ↦ rw found (
        h (get_register_id names t).0 (get_register_id names t).1
          (λ k. get_register_id-IsRegister names t (known k)))
  ]

  pub memory-IsOutcome :
      (names : Dict) (t : Text) (f : Program × RegisterId × ℤ → Option Program)
      → (NamesRegisters p.regnames → NamesRegisters names)
      → ((names' : Dict) (id : RegisterId) (offset : ℤ)
          → Fits 16 offset
          → (NamesRegisters p.regnames → NamesRegisters names' × IsRegister id)
          → IsOutcome line p (f (record p { regnames = names' }, id, offset)))
      → IsOutcome line p (parse_memory_access t (record p { regnames = names }) >>= f)
  memory-IsOutcome names t f known h =
      let s : List Text = tokenize t (b'(' ∷ b')' ∷ []) in
      elim (Option-cases (token s 0)) [
        | inl e ↦ rw e (fails refl)
        | inr (s0, e) ↦ rw e elim (get_int_constant-cases 16 s0) [
          | inl e1 ↦ rw e1 (fails refl)
          | inr (v, e1) ↦ rw e1 elim (Option-cases (token s 1)) [
            | inl e2 ↦ rw e2 (fails refl)
            | inr (s1, e2) ↦ rw e2 (
                h (get_register_id names s1).0 (get_register_id names s1).1 (narrow 16 v)
                  (narrow-fits16 v) (λ k. get_register_id-IsRegister names s1 (known k)))
          ]
        ]
      ]

  pub two_regs-IsOutcome :
      (insn : RegisterId → RegisterId → Insn) (names : Dict) (toks : List Text)
      → ((d s : RegisterId) → IsRegister d → IsRegister s → IsInBounds (insn d s))
      → (NamesRegisters p.regnames → NamesRegisters names)
      → IsOutcome line p (add_reg_reg insn toks (record p { regnames = names }))
  two_regs-IsOutcome insn names toks bounds known =
      register-IsOutcome names toks 1 _ known (λ n1 d h1.
        register-IsOutcome n1 toks 2 _ (λ k. (h1 k).0)
          (λ n2 s h2. adds _ _ refl (λ k. (bounds d s (h1 k).1 (h2 k).1, (h2 k).0))))

  pub two_regs_const-IsOutcome :
      (insn : RegisterId → RegisterId → ℤ → Insn) (toks : List Text)
      → ((d s : RegisterId) (c : ℤ)
          → IsRegister d
          → IsRegister s
          → Fits 8 c
          → IsInBounds (insn d s c))
      → IsOutcome line p (add_reg_reg_int8 insn toks p)
  two_regs_const-IsOutcome insn toks bounds =
      register-IsOutcome p.regnames toks 1 _ (λ k. k)
        (λ n1 d h1.
          register-IsOutcome n1 toks 2 _ (λ k. (h1 k).0)
            (λ n2 s h2. bind-IsOutcome _ _ (λ t.
              constant-IsOutcome 8 t _ narrow-fits8
                (λ c hc. adds _ _ refl (λ k. (bounds d s c (h1 k).1 (h2 k).1 hc, (h2 k).0))))))
